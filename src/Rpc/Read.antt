-- ===== src/Rpc/Read.antt =====
-- The authoritative read of internal/rpc/types.go.
pub mod Answers
use gossipcache.Common.{
  ℕ, ltb, ◌==◌, ◌!=◌, ◌&&◌, not, if◌then◌else◌, Option, none, some, List, length,
}
use gossipcache.Errors.{Check, of_wire, of_record, of_rpc, fail_if, ◌>>◌, RpcSentinel}
use gossipcache.Errors.{key_empty, key_too_large, invalid_result_ttl}
use gossipcache.Wire.Version.{VersionTag}
use gossipcache.Wire.Status.{Status}
use gossipcache.Wire.Record.{RecordKind, validate_get_record}
use gossipcache.Wire.Requests.{max_key_len, validate_get_request}
use gossipcache.Rpc.Status.{status_carries_get_record}

-- The package's own `validateKey`.
unfoldable pub validate_key : List ℕ → Check
validate_key key =
    if length key == 0
    then some (of_wire key_empty)
    else if ltb max_key_len (length key)
    then some (of_wire key_too_large)
    else none

pub record GetRequest : Type 0 where
  pub key : List ℕ
  pub min_version : Option VersionTag
  pub hub_generation : ℕ

unfoldable pub validate_get : GetRequest → Check
unfolding validate_key
validate_get m = do
  fail_if (m.hub_generation == 0) (of_rpc RpcSentinel.invalid_hub_generation)
  validate_key m.key

-- The outer `none` is a panic, as of the wire model's `Validate`.
unfoldable pub validate_for_partitions : GetRequest → ℕ → Option Check
validate_for_partitions m partition_count = elim (validate_get m) [
  | some e ↦ some (some e)
  | none ↦
      validate_get_request (record { key = m.key; min_version = m.min_version }) partition_count
]

pub record GetResponse : Type 0 where
  pub status : Status
  pub hub_generation : ℕ
  pub version : VersionTag
  pub value : List ℕ
  pub ttl_millis : ℕ
  pub kind : RecordKind

unfoldable pub validate_get_response : GetResponse → Check
unfolding status_carries_get_record
validate_get_response m = do
  fail_if (m.hub_generation == 0) (of_rpc RpcSentinel.invalid_hub_generation)
  validate_get_record
      (record { status = m.status; version = m.version; kind = m.kind; value = m.value })
  fail_if (not (status_carries_get_record m.status) && m.ttl_millis != 0)
      (of_record invalid_result_ttl)
  none
