-- ===== src/Control/Batch.antt =====
-- `InvalidationEvent` and `InvalidationBatch` of internal/control/types.go.
pub mod Contiguity
pub mod Splitting
pub mod Publishing
pub mod Streams
pub mod Types
use gossipcache.Common.{
  ℕ, zero, suc, ◌+◌, ◌*◌, ◌%◌, ◌^◌, ltb, ◌==◌, ◌!=◌, ◌&&◌, ◌||◌, not, none, some, List, [], ◌∷◌,
  length,
}
use gossipcache.Errors.{Check, of_wire, of_control, at_event, fail_if, ◌>>◌, ControlSentinel}
use gossipcache.Errors.{key_empty, key_too_large, mutation_id_required, invalid_sequence}
use gossipcache.Errors.{non_contiguous_batch, partition_mismatch, too_many_events}
use gossipcache.Errors.{batch_too_large, empty_invalidation_batch}
use gossipcache.Wire.Version.{VersionTag}
use gossipcache.Wire.MutationId.{MutationId, mutation_id_is_zero}
use gossipcache.Wire.Record.{RecordKind, record_kind_valid}
use gossipcache.Wire.Requests.{max_key_len}

abbrev pub max_batch_events : ℕ
max_batch_events = 4096

abbrev pub max_control_message_bytes : ℕ
max_control_message_bytes = 3 * 2 ^ 20

abbrev pub control_message_overhead : ℕ
control_message_overhead = 128

abbrev pub event_encoded_overhead : ℕ
event_encoded_overhead = 64

pub record InvalidationEvent : Type 0 where
  pub stream_sequence : ℕ
  pub key : List ℕ
  pub version : VersionTag
  pub kind : RecordKind
  pub mutation_id : MutationId

pub record InvalidationBatch : Type 0 where
  pub stream_id : ℕ
  pub hub_generation : ℕ
  pub events : List InvalidationEvent

unfoldable pub validate_event : InvalidationEvent → ℕ → Check
validate_event e stream_id = do
  fail_if (e.stream_sequence == 0 || e.version.sequence == 0) (of_control invalid_sequence)
  fail_if (length e.key == 0) (of_wire key_empty)
  fail_if (ltb max_key_len (length e.key)) (of_wire key_too_large)
  fail_if (e.version.partition_id != stream_id) (of_control partition_mismatch)
  fail_if (not (record_kind_valid e.kind)) (of_control ControlSentinel.invalid_record_kind)
  fail_if (mutation_id_is_zero e.mutation_id) (of_wire mutation_id_required)
  none

-- `fmt.Errorf("event %d: %w", i, err)`, if `err` is not nil.
abbrev pub wrap_event : ℕ → Check → Check
wrap_event i none = none
wrap_event i (some e) = some (at_event i e)

-- The loop of `InvalidationBatch.Validate` from index `i` on; `previous` is a uint64.
unfoldable pub check_events : ℕ → ℕ → ℕ → List InvalidationEvent → Check
check_events stream_id i previous [] = none
check_events stream_id i previous (e ∷ events) = do
  wrap_event i (validate_event e stream_id)
  fail_if (ltb 0 i && e.stream_sequence != (previous + 1) % 2 ^ 64)
      (of_control non_contiguous_batch)
  check_events stream_id (suc i) e.stream_sequence events

-- The loop of `EstimatedEncodedSize`.
unfoldable pub events_size : List InvalidationEvent → ℕ → ℕ
events_size [] n = n
events_size (e ∷ events) n = events_size events (n + (event_encoded_overhead + length e.key))

unfoldable pub estimated_encoded_size : InvalidationBatch → ℕ
unfolding events_size
estimated_encoded_size m = events_size m.events control_message_overhead

unfoldable pub validate_batch : InvalidationBatch → Check
validate_batch m = do
  fail_if (m.hub_generation == 0) (of_control ControlSentinel.invalid_hub_generation)
  fail_if (length m.events == 0) (of_control empty_invalidation_batch)
  fail_if (ltb max_batch_events (length m.events)) (of_control too_many_events)
  check_events m.stream_id 0 0 m.events
  fail_if (ltb max_control_message_bytes (estimated_encoded_size m)) (of_control batch_too_large)
  none
