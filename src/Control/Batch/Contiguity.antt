-- ===== src/Control/Batch/Contiguity.antt =====
-- The batches that internal/control/types.go accepts.
use gossipcache.Common.{
  ℕ, zero, suc, ◌+◌, ◌^◌, ◌<◌, ◌≤◌, ◌≡◌, ◌↔◌, ◌⊎◌, false, none, some, List, [], ◌∷◌, length,
  get_elem?, All, arith,
}
use gossipcache.Wire.MutationId.{mutation_id_is_zero}
use gossipcache.Wire.Record.{record_value, record_tombstone, record_kind_valid}
use gossipcache.Wire.Requests.Bounds.{IsKey}
use gossipcache.Control.Batch.{
  InvalidationEvent, InvalidationBatch, validate_event, check_events, events_size,
  estimated_encoded_size, validate_batch, max_batch_events, max_control_message_bytes,
}

-- An event of the stream.
pub record IsEvent (stream_id : ℕ) (e : InvalidationEvent) : Type 0 where
  pub numbered : 0 < e.stream_sequence
  pub committed : 0 < e.version.sequence
  pub key : IsKey e.key
  pub partition : e.version.partition_id ≡ stream_id
  pub kind : (e.kind ≡ record_value) ⊎ (e.kind ≡ record_tombstone)
  pub minted : mutation_id_is_zero e.mutation_id ≡ false

validate_event_iff :
    (e : InvalidationEvent) (stream_id : ℕ)
    → (validate_event e stream_id ≡ none) ↔ IsEvent stream_id e
unfolding validate_event record_kind_valid
validate_event_iff e stream_id = ground arith

abbrev pub IsUint64 : InvalidationEvent → Type 0
IsUint64 e = e.stream_sequence < 2 ^ 64

-- The events are numbered `from`, `from + 1`, and so on.
abbrev pub RunsFrom : ℕ → List InvalidationEvent → Type 0
RunsFrom from [] = Unit
RunsFrom from (e ∷ events) = (e.stream_sequence ≡ from) × RunsFrom (from + 1) events

check_events_iff :
    (stream_id i previous : ℕ) (events : List InvalidationEvent)
    → All IsUint64 events
    → previous < 2 ^ 64
    → (check_events stream_id (suc i) previous events ≡ none)
      ↔ (All (IsEvent stream_id) events × RunsFrom (previous + 1) events)
unfolding check_events
check_events_iff stream_id i previous [] u p = ground arith
check_events_iff stream_id i previous (e ∷ events) (q, u) p = ground (
  arith,
  validate_event_iff e stream_id,
  check_events_iff stream_id (suc i) e.stream_sequence events u q,
)

-- Every event of a run that passes is one of the stream.
pub check_events-All :
    (stream_id i previous : ℕ) (events : List InvalidationEvent)
    → check_events stream_id i previous events ≡ none
    → All (IsEvent stream_id) events
unfolding check_events
check_events-All stream_id i previous [] h = tt
check_events-All stream_id i previous (e ∷ events) h = ground (
  arith,
  validate_event_iff e stream_id,
  check_events-All stream_id (suc i) e.stream_sequence events,
)

pub validate_batch-All :
    (m : InvalidationBatch) → validate_batch m ≡ none → All (IsEvent m.stream_id) m.events
unfolding validate_batch
validate_batch-All m e = ground (arith, check_events-All m.stream_id 0 0 m.events)

-- The first event may have any number.
check_events-first_iff :
    (stream_id : ℕ) (e : InvalidationEvent) (events : List InvalidationEvent)
    → All IsUint64 (e ∷ events)
    → (check_events stream_id 0 0 (e ∷ events) ≡ none)
      ↔ (All (IsEvent stream_id) (e ∷ events) × RunsFrom e.stream_sequence (e ∷ events))
unfolding check_events
check_events-first_iff stream_id e events (q, u) = ground (
  arith,
  validate_event_iff e stream_id,
  check_events_iff stream_id 0 e.stream_sequence events u q,
)

-- The bytes of the events, by their keys.
abbrev pub encoded : List InvalidationEvent → ℕ
encoded [] = 0
encoded (e ∷ events) = 64 + length e.key + encoded events

pub events_size-encoded :
    (events : List InvalidationEvent) (n : ℕ) → events_size events n ≡ n + encoded events
unfolding events_size
events_size-encoded [] n = omega arith
events_size-encoded (e ∷ events) n =
    omega (arith, events_size-encoded events (n + (64 + length e.key)))

abbrev pub first_sequence : List InvalidationEvent → ℕ
first_sequence [] = 0
first_sequence (e ∷ events) = e.stream_sequence

pub record IsBatch (m : InvalidationBatch) : Type 0 where
  pub generation : 0 < m.hub_generation
  pub some_event : 0 < length m.events
  pub few : length m.events ≤ max_batch_events
  pub events : All (IsEvent m.stream_id) m.events
  pub contiguous : RunsFrom (first_sequence m.events) m.events
  pub small : 128 + encoded m.events ≤ max_control_message_bytes

-- A batch of uint64 sequences passes exactly when it names a generation, has 1 to 4096 events, each
-- with a number, a committed version of the stream's partition, a key of 1 to 4096 bytes, a defined
-- kind and an id, numbered without a gap, and an estimated size of at most 3 MiB.
pub validate_batch_iff :
    (m : InvalidationBatch) → All IsUint64 m.events → (validate_batch m ≡ none) ↔ IsBatch m
unfolding validate_batch estimated_encoded_size
validate_batch_iff m u = validate_batch_of m.stream_id m.hub_generation m.events u
  where
    validate_batch_of :
        (stream_id generation : ℕ) (events : List InvalidationEvent)
        → All IsUint64 events
        → (validate_batch
              (record { stream_id = stream_id; hub_generation = generation; events = events })
            ≡ none)
          ↔ IsBatch (record { stream_id = stream_id; hub_generation = generation; events = events })
    validate_batch_of stream_id generation [] v = ground arith
    validate_batch_of stream_id generation (e ∷ events) v =
        ground
          (arith, check_events-first_iff stream_id e events v, events_size-encoded (e ∷ events) 128)

get_elem?-RunsFrom :
    (from i : ℕ) (events : List InvalidationEvent) (e : InvalidationEvent)
    → RunsFrom from events
    → get_elem? events i ≡ some e
    → e.stream_sequence ≡ from + i
get_elem?-RunsFrom from i [] e r h = cc
get_elem?-RunsFrom from zero (x ∷ events) e r h = ground arith
get_elem?-RunsFrom from (suc i) (x ∷ events) e r h =
    ground (arith, get_elem?-RunsFrom (from + 1) i events e r.1)

-- The event at position i of an accepted batch of uint64 sequences has the first number plus i, a
-- sum that does not wrap: the numbers rise by one, without a gap and without a repetition.
pub validate_batch_sequence :
    (m : InvalidationBatch) (i : ℕ) (e : InvalidationEvent)
    → All IsUint64 m.events
    → validate_batch m ≡ none
    → get_elem? m.events i ≡ some e
    → e.stream_sequence ≡ first_sequence m.events + i
validate_batch_sequence m i e u valid h =
    get_elem?-RunsFrom (first_sequence m.events) i m.events e
      ((validate_batch_iff m u).0 valid).contiguous h
