-- ===== src/Wire/Requests.antt =====
-- The bounded requests of internal/wire/types.go: get, set and delete.
pub mod Bounds
use gossipcache.Common.{
  ℕ, ◌*◌, Bool, ltb, ◌==◌, ◌!=◌, not, if◌then◌else◌, Option, none, some, List, [], ◌++◌, length,
  is_blank,
}
use gossipcache.Errors.{Check, of_wire, minimum_version_partition, fail_if, ◌>>◌}
use gossipcache.Errors.{key_empty, key_too_large, value_too_large, mutation_id_required}
use gossipcache.Wire.Version.{VersionTag}
use gossipcache.Wire.MutationId.{MutationId, mutation_id_is_zero}
use gossipcache.Wire.Options.{WriteOptions, validate_write_options}
use gossipcache.Wire.Record.{max_value_len}
use gossipcache.Wire.Partition.{validate_partition_count, partition_of}
use Prim.Native.String.{String}

abbrev pub max_key_len : ℕ
max_key_len = 4 * 1024

-- The bytes of `append([]byte(nil), b...)`.
abbrev pub copy_bytes : List ℕ → List ℕ
copy_bytes b = [] ++ b

unfoldable pub validate_key : List ℕ → Check
validate_key key =
    if length key == 0
    then some (of_wire key_empty)
    else if ltb max_key_len (length key)
    then some (of_wire key_too_large)
    else none

unfoldable pub persistence_configured : String → Bool
persistence_configured data_dir = not (is_blank data_dir)

pub record GetRequest : Type 0 where
  pub key : List ℕ
  pub min_version : Option VersionTag

-- `r.MinVersion != nil && …`; the outer `none` is a panic of `PartitionOf`.
unfoldable pub check_min_version : List ℕ → ℕ → Option VersionTag → Option Check
check_min_version key partition_count none = some none
check_min_version key partition_count (some v) = elim (partition_of key partition_count) [
  | none ↦ none
  | some p ↦ some (fail_if (v.partition_id != p) (minimum_version_partition v.partition_id))
]

-- The outer `none` is a panic.
unfoldable pub validate_get_request : GetRequest → ℕ → Option Check
unfolding validate_partition_count
validate_get_request r partition_count = elim (validate_key r.key) [
  | some e ↦ some (some e)
  | none ↦ elim (validate_partition_count partition_count) [
    | some e ↦ some (some e)
    | none ↦ check_min_version r.key partition_count r.min_version
  ]
]

pub record SetRequest : Type 0 where
  pub key : List ℕ
  pub value : List ℕ
  pub ttl_millis : ℕ
  pub mutation_id : MutationId
  pub options : WriteOptions

unfoldable pub validate_set_request : SetRequest → Check
validate_set_request r = do
  validate_key r.key
  fail_if (ltb max_value_len (length r.value)) (of_wire value_too_large)
  fail_if (mutation_id_is_zero r.mutation_id) (of_wire mutation_id_required)
  validate_write_options r.options

pub record DeleteRequest : Type 0 where
  pub key : List ℕ
  pub mutation_id : MutationId
  pub options : WriteOptions

unfoldable pub validate_delete_request : DeleteRequest → Check
validate_delete_request r = do
  validate_key r.key
  fail_if (mutation_id_is_zero r.mutation_id) (of_wire mutation_id_required)
  validate_write_options r.options
