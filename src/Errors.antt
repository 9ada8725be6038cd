-- ===== src/Errors.antt =====
-- The error values of internal/wire, internal/rpc and internal/control, and the two ways in which
-- the code hands them on.
-- An error is what `errors.Is` finds in it: the sentinel that a `%w` wraps, without the text that
-- is put behind it. Errors with no sentinel keep what tells them apart.
pub mod Closed
pub mod Outcomes
use gossipcache.Common.{◌≡◌, refl, ◌⊎◌, inl, inr, ℕ, Bool, true, false, Option, none, some}
use Prim.Native.String.{String}

-- The `var` block of internal/wire/types.go.
pub data WireSentinel : Type 0 where
  key_empty key_too_large value_too_large mutation_id_required : WireSentinel
  invalid_write_mode invalid_confirm_level : WireSentinel
  invalid_storage_profile persistence_config_required : WireSentinel
  invalid_write_timeout timeout_not_whole_millis write_timeout_too_large : WireSentinel
  ttl_not_whole_milliseconds : WireSentinel
  invalid_protocol_range incompatible_protocol_ranges : WireSentinel

-- The `var` block of internal/wire/record.go, which internal/l1 and internal/rpc alias.
pub data RecordSentinel : Type 0 where
  invalid_get_status missing_version unexpected_version unexpected_value : RecordSentinel
  invalid_record_kind invalid_result_ttl : RecordSentinel

-- The `var` block of internal/rpc/types.go, without the aliases.
pub data RpcSentinel : Type 0 where
  invalid_hub_generation invalid_durable_health invalid_op unexpected_ttl : RpcSentinel
  invalid_mutation_status invalid_node_id mutation_fingerprint_mismatch : RpcSentinel
  invalid_status invalid_enum invalid_cluster_id : RpcSentinel

-- The `var` block of internal/control/types.go.
pub data ControlSentinel : Type 0 where
  invalid_hub_generation invalid_node_id invalid_sequence invalid_sequence_range : ControlSentinel
  non_contiguous_batch partition_mismatch invalid_record_kind : ControlSentinel
  too_many_events batch_too_large too_many_subscriptions : ControlSentinel
  duplicate_subscription empty_subscriptions empty_invalidation_batch : ControlSentinel
  invalid_message invalid_cluster_id invalid_control_status : ControlSentinel
  control_detail_too_large : ControlSentinel

pub data Error : Type 0 where
  of_wire : WireSentinel → Error
  of_record : RecordSentinel → Error
  of_rpc : RpcSentinel → Error
  of_control : ControlSentinel → Error
  -- `ErrInvalidPartitionCount` of internal/wire/partition.go
  invalid_partition_count : Error
  -- "event %d: %w"
  at_event : ℕ → Error → Error
  -- "mutation id must be %d bytes, got %d"
  mutation_id_length : ℕ → Error
  -- "minimum version partition %d does not match routed partition"
  minimum_version_partition : ℕ → Error
  -- an error with a fixed text and no sentinel
  message : String → Error

-- The value of a Go `error`: `none` is nil.
abbrev pub Check : Type 0
Check = Option Error

-- `if b { return e }`, and what follows it.
abbrev pub fail_if : Bool → Error → Check
fail_if true e = some e
fail_if false e = none

-- `if err := c; err != nil { return err }`, and what follows it.
infixl 5 ◌>>◌
abbrev pub ◌>>◌ : Check → Check → Check
none >> k = k
some e >> k = some e

-- Go's pair of a value and an error, where the value beside an error is the zero value.
pub data Result {ℓ} (A : Type ℓ) : Type ℓ where
  ok : A → Result A
  err : Error → Result A

infixl 5 ◌>>=◌
abbrev pub ◌>>=◌ {ℓ κ} : {A : Type ℓ} {B : Type κ} → Result A → (A → Result B) → Result B
ok a >>= f = f a
err e >>= f = err e

-- `return out, out.Validate()` behind steps that may fail with the zero value: the pair as it is,
-- with the converted value beside the error of its validation.
abbrev pub conclude : {A : Type 0} → A → (A → Check) → Result A → A × Check
conclude zero validate (ok out) = (out, validate out)
conclude zero validate (err e) = (zero, some e)

pub Result-cases {ℓ} :
    {A : Type ℓ} (r : Result A) → ((a : A) × (r ≡ ok a)) ⊎ ((e : Error) × (r ≡ err e))
Result-cases (ok a) = inl (a, refl)
Result-cases (err e) = inr (e, refl)
