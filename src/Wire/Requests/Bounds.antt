-- ===== src/Wire/Requests/Bounds.antt =====
-- The requests that internal/wire/types.go accepts.
use gossipcache.Common.{
  ℕ, zero, suc, refl, ◌%◌, ◌^◌, ◌≤◌, ◌<◌, ◌≡◌, ◌≢◌, ◌↔◌, ◌⊎◌, false, none, some, List, length,
  arith, Option, inl, inr,
}
use gossipcache.Wire.Version.{VersionTag}
use gossipcache.Wire.MutationId.{mutation_id_is_zero}
use gossipcache.Wire.Options.Policy.{IsPolicy, validate_write_options_iff}
use gossipcache.Wire.Record.{max_value_len}
use gossipcache.Wire.Partition.{partition_of, xx_hash64, partition_seed}
use gossipcache.Wire.Requests.{
  max_key_len, validate_key, GetRequest, SetRequest, DeleteRequest, check_min_version,
  validate_get_request, validate_set_request, validate_delete_request,
}

abbrev pub IsKey : List ℕ → Type 0
IsKey key = (0 < length key) × (length key ≤ max_key_len)

pub validate_key_iff : (key : List ℕ) → (validate_key key ≡ none) ↔ IsKey key
unfolding validate_key
validate_key_iff key = ground arith

-- The minimum version, where there is one, is of the partition that the key is routed to.
abbrev pub IsRouted : List ℕ → ℕ → Option VersionTag → Type 0
IsRouted key count none = Unit {0}
IsRouted key count (some v) = partition_of key count ≡ some v.partition_id

-- A key is routed to a partition below the count, and only a count of zero panics.
pub partition_of_total :
    (key : List ℕ) (count : ℕ)
    → ((count ≡ 0) × (partition_of key count ≡ none))
      ⊎ ((p : ℕ) × (partition_of key count ≡ some p) × (p < count))
unfolding partition_of
partition_of_total key zero = inl (refl, refl)
partition_of_total key (suc n) =
    inr (xx_hash64 key partition_seed % suc n % 2 ^ 32, ground arith, omega arith)

-- `Validate` never panics
pub validate_get_request-ne-none :
    (r : GetRequest) (count : ℕ) → validate_get_request r count ≢ none
unfolding validate_get_request check_min_version partition_of
validate_get_request-ne-none r count = ground arith

-- A get request passes exactly when its key has 1 to 4096 bytes, there is a partition, and a
-- minimum version is of the key's partition.
pub validate_get_request_iff :
    (r : GetRequest) (count : ℕ)
    → (validate_get_request r count ≡ some none)
      ↔ (IsKey r.key × (0 < count) × IsRouted r.key count r.min_version)
unfolding validate_get_request check_min_version
validate_get_request_iff r count = ground (arith, validate_key_iff r.key)

pub record IsSetRequest (r : SetRequest) : Type 0 where
  pub key : IsKey r.key
  pub value : length r.value ≤ max_value_len
  pub minted : mutation_id_is_zero r.mutation_id ≡ false
  pub policy : IsPolicy r.options

pub validate_set_request_iff : (r : SetRequest) → (validate_set_request r ≡ none) ↔ IsSetRequest r
unfolding validate_set_request
validate_set_request_iff r =
    ground (arith, validate_key_iff r.key, validate_write_options_iff r.options)

pub record IsDeleteRequest (r : DeleteRequest) : Type 0 where
  pub key : IsKey r.key
  pub minted : mutation_id_is_zero r.mutation_id ≡ false
  pub policy : IsPolicy r.options

pub validate_delete_request_iff :
    (r : DeleteRequest) → (validate_delete_request r ≡ none) ↔ IsDeleteRequest r
unfolding validate_delete_request
validate_delete_request_iff r =
    ground (arith, validate_key_iff r.key, validate_write_options_iff r.options)
