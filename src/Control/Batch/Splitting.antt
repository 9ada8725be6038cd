-- ===== src/Control/Batch/Splitting.antt =====
-- How a hub may cut a publication into batches (internal/control/types.go).
use gossipcache.Common.{
  ℕ, suc, ◌+◌, ◌*◌, ◌<◌, ◌≤◌, ◌≡◌, ◌↔◌, none, List, [], ◌∷◌, ◌++◌, length, length-append, All,
  arith,
}
use native.Mathlib.Nat.{add-zero}
use gossipcache.Control.Batch.{
  InvalidationEvent, InvalidationBatch, validate_batch, max_batch_events, max_control_message_bytes,
}
use gossipcache.Control.Batch.Contiguity.{
  IsEvent, IsUint64, RunsFrom, encoded, first_sequence, validate_batch_iff,
}

pub All-append_iff :
    (P : InvalidationEvent → Type 0) (xs ys : List InvalidationEvent)
    → All P (xs ++ ys) ↔ (All P xs × All P ys)
All-append_iff P [] ys = ground arith
All-append_iff P (x ∷ xs) ys = ground (arith, All-append_iff P xs ys)

pub RunsFrom-append_iff :
    (from : ℕ) (xs ys : List InvalidationEvent)
    → RunsFrom from (xs ++ ys) ↔ (RunsFrom from xs × RunsFrom (from + length xs) ys)
RunsFrom-append_iff from [] ys = rw add-zero (λ r. (tt, r), λ r. r.1)
RunsFrom-append_iff from (x ∷ xs) ys =
    let moved : from + suc (length xs) ≡ from + 1 + length xs = omega arith in
    rw moved (ground (arith, RunsFrom-append_iff (from + 1) xs ys))

encoded-append : (xs ys : List InvalidationEvent) → encoded (xs ++ ys) ≡ encoded xs + encoded ys
encoded-append [] ys = omega arith
encoded-append (x ∷ xs) ys = omega (arith, encoded-append xs ys)

module _ (stream_id generation : ℕ) where
  abbrev pub batch_of : List InvalidationEvent → InvalidationBatch
  batch_of events = record { stream_id = stream_id; hub_generation = generation; events = events }

  -- A run of events with uint64 sequences may be sent in one batch exactly when it may be sent in
  -- two, cut at any place between two events, the second part goes on where the first ends, and the
  -- two fit the limits on events and bytes together.
  pub validate_batch-append_iff :
      (x y : InvalidationEvent) (xs ys : List InvalidationEvent)
      → All IsUint64 (x ∷ xs)
      → All IsUint64 (y ∷ ys)
      → (validate_batch (batch_of ((x ∷ xs) ++ (y ∷ ys))) ≡ none) ↔ (
          (validate_batch (batch_of (x ∷ xs)) ≡ none)
          × (validate_batch (batch_of (y ∷ ys)) ≡ none)
          × (y.stream_sequence ≡ x.stream_sequence + length (x ∷ xs))
          × (length (x ∷ xs) + length (y ∷ ys) ≤ max_batch_events)
          × (128 + encoded (x ∷ xs) + encoded (y ∷ ys) ≤ max_control_message_bytes))
  validate_batch-append_iff x y xs ys u v = ground (
    arith,
    validate_batch_iff (batch_of (x ∷ xs)) u,
    validate_batch_iff (batch_of (y ∷ ys)) v,
    validate_batch_iff (batch_of ((x ∷ xs) ++ (y ∷ ys)))
        ((All-append_iff IsUint64 (x ∷ xs) (y ∷ ys)).1 (u, v)),
    All-append_iff (IsEvent stream_id) (x ∷ xs) (y ∷ ys),
    RunsFrom-append_iff x.stream_sequence (x ∷ xs) (y ∷ ys),
    encoded-append (x ∷ xs) (y ∷ ys),
    length-append (x ∷ xs) (y ∷ ys),
  )

encoded-le :
    (stream_id : ℕ) (events : List InvalidationEvent)
    → All (IsEvent stream_id) events
    → encoded events ≤ 4160 * length events
encoded-le stream_id [] h = omega arith
encoded-le stream_id (e ∷ events) (p, h) = omega (arith, p.key, encoded-le stream_id events h)

-- Up to 756 events fit the size limit, whatever their keys: a batch of so many events, with uint64
-- sequences, passes exactly when it is not empty, names a generation, and its events are valid and
-- contiguous.
pub validate_batch_small :
    (m : InvalidationBatch)
    → All IsUint64 m.events
    → length m.events ≤ 756
    → (validate_batch m ≡ none) ↔ (
        (0 < m.hub_generation)
        × (0 < length m.events)
        × All (IsEvent m.stream_id) m.events
        × RunsFrom (first_sequence m.events) m.events)
validate_batch_small m u h = (
  λ e. let b = (validate_batch_iff m u).0 e in (b.generation, b.some_event, b.events, b.contiguous),
  λ (g, s, all, run). (validate_batch_iff m u).1 (record {
    generation = g;
    some_event = s;
    few = omega arith;
    events = all;
    contiguous = run;
    small = omega (arith, encoded-le m.stream_id m.events all);
  }),
)
