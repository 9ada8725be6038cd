-- ===== src/Rpc/Mutation/Content.antt =====
-- The mutations and outcomes that internal/rpc/types.go accepts.
use gossipcache.Common.{◌≤◌, ◌<◌, ◌^◌, ◌≡◌, ◌≢◌, ◌↔◌, ◌⊎◌, true, false, none, [], length, arith}
use gossipcache.Wire.Version.{zero_version}
use gossipcache.Wire.Status.{status_ok, status_err_write_confirm_timeout, status_err_internal}
use gossipcache.Wire.Status.{status_err_durability_unavailable, status_class, success}
use gossipcache.Wire.MutationId.{mutation_id_is_zero}
use gossipcache.Wire.Record.{max_value_len}
use gossipcache.Wire.Record.Shape.{length-eq-zero_iff}
use gossipcache.Wire.Options.{
  validate_write_options, write_fast, write_sync, write_mode_valid, confirm_level_valid,
}
use gossipcache.Wire.Options.{confirm_invalidate_applied}
use gossipcache.Wire.Options.Policy.{millis}
use gossipcache.Wire.Requests.{validate_set_request, validate_delete_request}
use gossipcache.Wire.Requests.Bounds.{IsKey, validate_key_iff}
use gossipcache.Rpc.Status.{retry_same_mutation_id}
use gossipcache.Rpc.Mutation.{
  op_set, op_delete, op_valid, MutationRequest, write_options, validate_mutation_request,
  MutationResponse, validate_mutation_response,
}

-- The timeout of a request, a uint32, is handed on as so many milliseconds: the product does not
-- leave the int64.
pub write_options_timeout :
    (m : MutationRequest) → m.timeout < 2 ^ 32 → (write_options m).timeout ≡ millis m.timeout
unfolding write_options
write_options_timeout m h = ground arith

-- A set carries a bounded value, and a delete neither a value nor a TTL.
abbrev pub IsPayload : MutationRequest → Type 0
IsPayload m =
    ((m.op ≡ op_set) × (length m.value ≤ max_value_len))
    ⊎ ((m.op ≡ op_delete) × (m.value ≡ []) × (m.ttl_millis ≡ 0))

pub record IsMutation (m : MutationRequest) : Type 0 where
  pub generation : 0 < m.hub_generation
  pub payload : IsPayload m
  pub key : IsKey m.key
  pub minted : mutation_id_is_zero m.mutation_id ≡ false
  pub mode : (m.mode ≡ write_fast) ⊎ (m.mode ≡ write_sync)
  pub level : m.confirm ≡ confirm_invalidate_applied

-- The policy of a request with a uint32 timeout can fail only for its mode or its level.
write_options-valid_iff :
    (m : MutationRequest)
    → m.timeout < 2 ^ 32
    → (validate_write_options (write_options m) ≡ none)
      ↔ (((m.mode ≡ write_fast) ⊎ (m.mode ≡ write_sync)) × (m.confirm ≡ confirm_invalidate_applied))
unfolding write_options validate_write_options
write_options-valid_iff m h = ground arith

-- A mutation with a uint32 timeout passes exactly when it names a generation, is a set with a
-- bounded value or a delete with neither value nor TTL, has a key of 1 to 4096 bytes and an id
-- that is not zero, and its mode and confirmation level are defined. No timeout is refused.
pub validate_mutation_request_iff :
    (m : MutationRequest) → m.timeout < 2 ^ 32 → (validate_mutation_request m ≡ none) ↔ IsMutation m
unfolding validate_mutation_request validate_set_request validate_delete_request
validate_mutation_request_iff m h =
    ground (arith, validate_key_iff m.key, length-eq-zero_iff m.value, write_options-valid_iff m h)

-- A commit that happened, with its version.
abbrev pub IsCommitted : MutationResponse → Type 0
IsCommitted m =
    ((m.status ≡ status_ok) ⊎ (m.status ≡ status_err_write_confirm_timeout))
    × (0 < m.version.sequence)

-- A refusal, with no version.
abbrev pub IsRefused : MutationResponse → Type 0
IsRefused m =
    (status_err_durability_unavailable ≤ m.status)
    × (m.status ≤ status_err_internal)
    × (m.status ≢ status_err_write_confirm_timeout)
    × (m.version ≡ zero_version)

-- An outcome passes exactly when it names a generation and is a commit with its version or a
-- refusal with none; a read status never passes.
pub validate_mutation_response_iff :
    (m : MutationResponse)
    → (validate_mutation_response m ≡ none)
      ↔ ((0 < m.hub_generation) × (IsCommitted m ⊎ IsRefused m))
unfolding validate_mutation_response
validate_mutation_response_iff m = ground arith

-- In an accepted outcome the class of the status tells whether there was a commit, and an outcome
-- that is to be retried with the same id reports none: no commit is ever retried.
pub validate_mutation_response_retry :
    (m : MutationResponse)
    → validate_mutation_response m ≡ none
    → ((status_class m.status ≡ success) ↔ (0 < m.version.sequence))
      × ((retry_same_mutation_id m.status ≡ false) ⊎ (m.version ≡ zero_version))
unfolding validate_mutation_response status_class retry_same_mutation_id
validate_mutation_response_retry m e = ground arith

-- The enumerations of an accepted request are defined.
pub validate_mutation_request-defined :
    (m : MutationRequest)
    → validate_mutation_request m ≡ none
    → (op_valid m.op ≡ true)
      × (write_mode_valid m.mode ≡ true)
      × (confirm_level_valid m.confirm ≡ true)
unfolding validate_mutation_request validate_set_request validate_delete_request
    validate_write_options write_options
validate_mutation_request-defined m e = ground arith
