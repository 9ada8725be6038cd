-- ===== src/Control/Batch/Streams.antt =====
-- The batches of one stream, one after the other (internal/control/types.go).
use gossipcache.Common.{ℕ, ◌+◌, ◌<◌, ◌≤◌, ◌≡◌, ◌↔◌, List, [], ◌∷◌, length, All, arith}
use gossipcache.Control.Batch.{InvalidationEvent, max_batch_events, max_control_message_bytes}
use gossipcache.Control.Batch.Contiguity.{
  IsEvent, IsUint64, RunsFrom, encoded, first_sequence, validate_batch_iff,
}
use gossipcache.Control.Batch.Splitting.{All-append_iff, RunsFrom-append_iff, batch_of}
use gossipcache.Control.Batch.Publishing.{joined, IsAccepted}

-- Each batch begins with the number behind the last one of the batch before it, the first with
-- `from`.
abbrev pub Follows : ℕ → List (List InvalidationEvent) → Type 0
Follows from [] = Unit
Follows from (piece ∷ rest) = (first_sequence piece ≡ from) × Follows (from + length piece) rest

abbrev pub IsWithinLimits : List InvalidationEvent → Type 0
IsWithinLimits piece =
    (0 < length piece)
    × (length piece ≤ max_batch_events)
    × (128 + encoded piece ≤ max_control_message_bytes)

module _ (stream_id generation : ℕ) where
  piece_iff :
      (from : ℕ) (piece : List InvalidationEvent)
      → 0 < generation
      → All IsUint64 piece
      → (IsAccepted stream_id generation piece × (first_sequence piece ≡ from))
        ↔ (All (IsEvent stream_id) piece × RunsFrom from piece × IsWithinLimits piece)
  piece_iff from [] h u = ground (arith, validate_batch_iff (batch_of stream_id generation []) u)
  piece_iff from (e ∷ events) h u =
      ground (arith, validate_batch_iff (batch_of stream_id generation (e ∷ events)) u)

  -- Batches of uint64 sequences, with a generation, are accepted one by one, and each follows the
  -- one before it, exactly when their events, joined, are valid events of the stream, numbered from
  -- `from` on without a gap, and each batch has 1 to 4096 events and an estimated size of at most
  -- 3 MiB.
  pub stream_batches_iff :
      (from : ℕ) (batches : List (List InvalidationEvent))
      → 0 < generation
      → All IsUint64 (joined batches)
      → (All (IsAccepted stream_id generation) batches × Follows from batches) ↔ (
          All (IsEvent stream_id) (joined batches)
          × RunsFrom from (joined batches)
          × All IsWithinLimits batches)
  unfolding joined
  stream_batches_iff from [] h u = ground arith
  stream_batches_iff from (piece ∷ rest) h u =
      let parts = (All-append_iff IsUint64 piece (joined rest)).0 u in
      ground (
        arith,
        piece_iff from piece h parts.0,
        stream_batches_iff (from + length piece) rest h parts.1,
        All-append_iff (IsEvent stream_id) piece (joined rest),
        RunsFrom-append_iff from piece (joined rest),
      )
