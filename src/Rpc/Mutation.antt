-- ===== src/Rpc/Mutation.antt =====
-- The mutation of internal/rpc/types.go. `Op` is a uint8, and `Timeout` is a uint32 of milliseconds.
pub mod Content
use gossipcache.Common.{
  ℕ, ◌*◌, ◌%◌, ◌^◌, Bool, ◌==◌, ◌!=◌, ◌||◌, not, if◌then◌else◌, none, some, List, length, ℤ, int64,
}
use gossipcache.Errors.{Check, of_record, of_rpc, fail_if, ◌>>◌, RpcSentinel}
use gossipcache.Errors.{unexpected_value, unexpected_version, invalid_op, unexpected_ttl}
use gossipcache.Errors.{invalid_mutation_status}
use gossipcache.Wire.Version.{VersionTag, validate_committed, version_is_zero}
use gossipcache.Wire.Status.{Status, status_not_found, status_not_caught_up, status_valid}
use gossipcache.Wire.MutationId.{MutationId}
use gossipcache.Wire.Options.{WriteMode, ConfirmLevel, WriteOptions, millisecond}
use gossipcache.Wire.Requests.{validate_set_request, validate_delete_request}
use gossipcache.Rpc.Status.{status_carries_committed_version}

abbrev pub Op : Type 0
Op = ℕ

abbrev pub op_set : Op
op_set = 1

abbrev pub op_delete : Op
op_delete = 2

unfoldable pub op_valid : Op → Bool
op_valid o = o == op_set || o == op_delete

pub record MutationRequest : Type 0 where
  pub op : Op
  pub key : List ℕ
  pub value : List ℕ
  pub ttl_millis : ℕ
  pub mutation_id : MutationId
  pub mode : WriteMode
  pub w : ℕ
  pub confirm : ConfirmLevel
  pub timeout : ℕ
  pub hub_generation : ℕ

-- `time.Duration(m.Timeout) * time.Millisecond` is a product of int64, which may wrap.
unfoldable pub write_options : MutationRequest → WriteOptions
write_options m = record {
  w = m.w;
  mode = m.mode;
  confirm_level = m.confirm;
  timeout = int64 (m.timeout * millisecond % 2 ^ 64);
}

unfoldable pub validate_mutation_request : MutationRequest → Check
unfolding op_valid
validate_mutation_request m = do
  fail_if (m.hub_generation == 0) (of_rpc RpcSentinel.invalid_hub_generation)
  fail_if (not (op_valid m.op)) (of_rpc invalid_op)
  if m.op == op_set
      then validate_set_request (record {
        key = m.key;
        value = m.value;
        ttl_millis = m.ttl_millis;
        mutation_id = m.mutation_id;
        options = write_options m;
      })
      else (if m.op == op_delete
          then (do
            fail_if (length m.value != 0) (of_record unexpected_value)
            fail_if (m.ttl_millis != 0) (of_rpc unexpected_ttl)
            validate_delete_request
                (record { key = m.key; mutation_id = m.mutation_id; options = write_options m }))
          else some (of_rpc invalid_op))

pub record MutationResponse : Type 0 where
  pub status : Status
  pub hub_generation : ℕ
  pub version : VersionTag

unfoldable pub validate_mutation_response : MutationResponse → Check
unfolding status_valid status_carries_committed_version validate_committed version_is_zero
validate_mutation_response m = do
  fail_if (not (status_valid m.status)) (of_rpc invalid_mutation_status)
  fail_if (m.status == status_not_found || m.status == status_not_caught_up)
      (of_rpc invalid_mutation_status)
  fail_if (m.hub_generation == 0) (of_rpc RpcSentinel.invalid_hub_generation)
  if status_carries_committed_version m.status
      then validate_committed m.version
      else (do fail_if (not (version_is_zero m.version)) (of_record unexpected_version); none)
