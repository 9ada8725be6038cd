-- ===== src/Wire/Record.antt =====
-- `RecordKind` of internal/wire/types.go and `GetRecordFields` of internal/wire/record.go: what an
-- authoritative read may carry. A kind is a uint8.
pub mod Shape
use gossipcache.Common.{
  ℕ, ◌^◌, Bool, ltb, ◌==◌, ◌!=◌, if◌then◌else◌, ◌&&◌, ◌||◌, not, none, List, length,
}
use gossipcache.Errors.{Check, of_wire, of_record, fail_if, ◌>>◌, value_too_large}
use gossipcache.Errors.{invalid_get_status, unexpected_version, unexpected_value}
use gossipcache.Errors.{RecordSentinel}
use gossipcache.Wire.Version.{VersionTag, version_is_zero, validate_committed}
use gossipcache.Wire.Status.{Status, status_ok, status_err_write_confirm_timeout, status_valid}

abbrev pub max_value_len : ℕ
max_value_len = 2 ^ 20

abbrev pub RecordKind : Type 0
RecordKind = ℕ

abbrev pub record_value : RecordKind
record_value = 0

abbrev pub record_tombstone : RecordKind
record_tombstone = 1

unfoldable pub record_kind_valid : RecordKind → Bool
record_kind_valid k = k == record_value || k == record_tombstone

pub record GetRecordFields : Type 0 where
  pub status : Status
  pub version : VersionTag
  pub kind : RecordKind
  pub value : List ℕ

unfoldable pub validate_get_record : GetRecordFields → Check
unfolding status_valid validate_committed record_kind_valid version_is_zero
validate_get_record r = do
  fail_if (not (status_valid r.status) || r.status == status_err_write_confirm_timeout)
      (of_record invalid_get_status)
  if r.status == status_ok
      then (do
        validate_committed r.version
        fail_if (not (record_kind_valid r.kind)) (of_record RecordSentinel.invalid_record_kind)
        fail_if (r.kind == record_tombstone && length r.value != 0) (of_record unexpected_value)
        fail_if (ltb max_value_len (length r.value)) (of_wire value_too_large)
        none)
      else (do
        fail_if (not (version_is_zero r.version)) (of_record unexpected_version)
        fail_if (length r.value != 0) (of_record unexpected_value)
        fail_if (r.kind != 0) (of_record RecordSentinel.invalid_record_kind)
        none)
