-- ===== src/Control/Batch/Publishing.antt =====
-- The batches that a hub cuts a publication into (internal/control/types.go).
use gossipcache.Common.{
  ℕ, zero, suc, ◌+◌, ◌*◌, ◌≤◌, ◌<◌, ◌≡◌, refl, ap, ◌∙◌, none, List, [], ◌∷◌, ◌++◌, length, take,
  drop, All, All-take, All-drop, length-take, length-drop, take-append-drop, arith,
}
use native.Mathlib.Nat.{add-zero}
use gossipcache.Control.Batch.{InvalidationEvent, validate_batch}
use gossipcache.Control.Batch.Contiguity.{IsEvent, IsUint64, RunsFrom}
use gossipcache.Control.Batch.Splitting.{batch_of, validate_batch_small}

-- The run cut into pieces of 756 events, the last one shorter.
pieces : ℕ → List InvalidationEvent → List (List InvalidationEvent)
pieces zero events = []
pieces (suc fuel) [] = []
pieces (suc fuel) (e ∷ events) = take 756 (e ∷ events) ∷ pieces fuel (drop 756 (e ∷ events))

unfoldable pub joined : List (List InvalidationEvent) → List InvalidationEvent
joined [] = []
joined (piece ∷ rest) = piece ++ joined rest

RunsFrom-take :
    (n from : ℕ) (events : List InvalidationEvent)
    → RunsFrom from events
    → RunsFrom from (take n events)
RunsFrom-take zero from events r = tt
RunsFrom-take (suc n) from [] r = tt
RunsFrom-take (suc n) from (e ∷ events) (s, r) = (s, RunsFrom-take n (from + 1) events r)

RunsFrom-drop :
    (n from : ℕ) (events : List InvalidationEvent)
    → RunsFrom from events
    → RunsFrom (from + n) (drop n events)
RunsFrom-drop zero from events r = rw add-zero r
RunsFrom-drop (suc n) from [] r = tt
RunsFrom-drop (suc n) from (e ∷ events) (s, r) =
    let moved : from + suc n ≡ from + 1 + n = omega arith in
    rw moved (RunsFrom-drop n (from + 1) events r)

module _ (stream_id generation : ℕ) where
  abbrev pub IsAccepted : List InvalidationEvent → Type 0
  IsAccepted piece = validate_batch (batch_of stream_id generation piece) ≡ none

  piece-IsAccepted :
      (from : ℕ) (e : InvalidationEvent) (events : List InvalidationEvent)
      → 0 < generation
      → All IsUint64 (e ∷ events)
      → All (IsEvent stream_id) (e ∷ events)
      → RunsFrom from (e ∷ events)
      → IsAccepted (take 756 (e ∷ events))
  piece-IsAccepted from e events h u v r =
      let run : List InvalidationEvent = e ∷ events in
      let numbered : RunsFrom e.stream_sequence (take 756 run) =
        RunsFrom-take 756 e.stream_sequence run (refl, rw r.0 r.1) in
      let short : length (take 756 run) ≤ 756 = omega (arith, length-take 756 run) in
      (validate_batch_small (batch_of stream_id generation (take 756 run))
          (All-take IsUint64 756 run u) short).1
        (h, omega arith, All-take (IsEvent stream_id) 756 run v, numbered)

  pieces-IsAccepted :
      (fuel from : ℕ) (events : List InvalidationEvent)
      → 0 < generation
      → All IsUint64 events
      → All (IsEvent stream_id) events
      → RunsFrom from events
      → All IsAccepted (pieces fuel events)
  unfolding pieces
  pieces-IsAccepted zero from events h u v r = tt
  pieces-IsAccepted (suc fuel) from [] h u v r = tt
  pieces-IsAccepted (suc fuel) from (e ∷ events) h u v r =
      let run : List InvalidationEvent = e ∷ events in
      (
        piece-IsAccepted from e events h u v r,
        pieces-IsAccepted fuel (from + 756) (drop 756 run) h (All-drop IsUint64 756 run u)
            (All-drop (IsEvent stream_id) 756 run v) (RunsFrom-drop 756 from run r),
      )

joined-pieces :
    (fuel : ℕ) (events : List InvalidationEvent)
    → length events ≤ fuel
    → joined (pieces fuel events) ≡ events
unfolding pieces joined
joined-pieces zero [] h = refl
joined-pieces zero (e ∷ events) h = absurd (omega arith)
joined-pieces (suc fuel) [] h = refl
joined-pieces (suc fuel) (e ∷ events) h =
    let run : List InvalidationEvent = e ∷ events in
    ap (λ t. take 756 run ++ t)
      (joined-pieces fuel (drop 756 run) (omega (arith, length-drop 756 run)))
    ∙ take-append-drop 756 run

pieces-length :
    (fuel : ℕ) (events : List InvalidationEvent)
    → 756 * length (pieces fuel events) < length events + 756
unfolding pieces
pieces-length zero events = omega arith
pieces-length (suc fuel) [] = omega arith
pieces-length (suc fuel) (e ∷ events) =
    let run : List InvalidationEvent = e ∷ events in
    omega (arith, pieces-length fuel (drop 756 run), length-drop 756 run)

-- Whatever run of events a hub has to publish, valid, of one stream and numbered without a gap, some
-- list of batches carries it from end to end and in order, each of them is accepted, and there is no
-- more than one batch for each 756 events begun. The generation is not zero, and the sequences are
-- of uint64.
pub publication-IsAccepted :
    (stream_id generation from : ℕ) (events : List InvalidationEvent)
    → 0 < generation
    → All IsUint64 events
    → All (IsEvent stream_id) events
    → RunsFrom from events
    → (batches : List (List InvalidationEvent)) × (joined batches ≡ events)
      × All (IsAccepted stream_id generation) batches
      × (756 * length batches < length events + 756)
publication-IsAccepted stream_id generation from events h u v r = (
  pieces (length events) events,
  joined-pieces (length events) events (omega arith),
  pieces-IsAccepted stream_id generation (length events) from events h u v r,
  pieces-length (length events) events,
)
