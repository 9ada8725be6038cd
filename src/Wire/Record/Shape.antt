-- ===== src/Wire/Record/Shape.antt =====
-- The records that `GetRecordFields.Validate` of internal/wire/record.go accepts.
use gossipcache.Common.{ℕ, ◌≡◌, ◌≢◌, ◌≤◌, ◌<◌, ◌↔◌, ◌⊎◌, none, List, [], ◌∷◌, length, arith}
use gossipcache.Wire.Version.{zero_version}
use gossipcache.Wire.Status.{status_ok, status_err_write_confirm_timeout, status_err_internal}
use gossipcache.Wire.Record.{
  record_value, record_tombstone, GetRecordFields, max_value_len, validate_get_record,
}

-- A live value with the version of its commit.
pub record IsLive (r : GetRecordFields) : Type 0 where
  pub status : r.status ≡ status_ok
  pub kind : r.kind ≡ record_value
  pub committed : 0 < r.version.sequence
  pub bounded : length r.value ≤ max_value_len

-- The marker of a deletion, with its version and no value.
pub record IsDeleted (r : GetRecordFields) : Type 0 where
  pub status : r.status ≡ status_ok
  pub kind : r.kind ≡ record_tombstone
  pub committed : 0 < r.version.sequence
  pub empty : r.value ≡ []

-- Any other status of a read, with no record data.
pub record IsAbsent (r : GetRecordFields) : Type 0 where
  pub failed : r.status ≢ status_ok
  pub readable : r.status ≢ status_err_write_confirm_timeout
  pub defined : r.status ≤ status_err_internal
  pub kind : r.kind ≡ record_value
  pub version : r.version ≡ zero_version
  pub empty : r.value ≡ []

abbrev pub IsAnswer : GetRecordFields → Type 0
IsAnswer r = IsLive r ⊎ IsDeleted r ⊎ IsAbsent r

pub length-eq-zero_iff : (xs : List ℕ) → (length xs ≡ 0) ↔ (xs ≡ [])
length-eq-zero_iff [] = ground arith
length-eq-zero_iff (x ∷ xs) = ground arith

-- A read result passes the check exactly when it is a live value with a committed version and a
-- value of at most 2 ^ 20 bytes, a versioned tombstone with no value, or another defined read
-- status (not a write-confirm timeout) that carries neither version, nor value, nor kind.
pub validate_get_record_iff : (r : GetRecordFields) → (validate_get_record r ≡ none) ↔ IsAnswer r
unfolding validate_get_record
validate_get_record_iff r = ground (arith, length-eq-zero_iff r.value)
