-- ===== src/Control/Transfer/Delivery.antt =====
-- A batch from a hub to a node, through both conversions of internal/control/convert.go.
use gossipcache.Common.{ℕ, ◌≡◌, refl, ap, ◌∙◌, none, some, List, [], ◌∷◌, length, All}
use gossipcache.Ownership.{Store, Writes, Old, contents, append_nil, append_elements}
use gossipcache.Ownership.Frames.{
  append_nil-IsOwned, append_elements-IsOwned, append_elements-Writes, IsHeld-Writes, Writes-trans,
}
use gossipcache.Wire.Clones.{copy_bytes_in}
use gossipcache.Rpc.Transfer.Independence.{IsOwned-IsHeld}
use gossipcache.Control.Batch.{validate_batch}
use gossipcache.Control.Clones.{HeldEvent, Memory, HeldBatch, read_batch}
use gossipcache.Control.Clones.Independence.{HasHeldKey}
use gossipcache.Control.Convert.ToProto.{proto_invalidation_batch}
use gossipcache.Control.Convert.FromProto.{from_proto_invalidation_batch}
use gossipcache.Control.Convert.Messages.{from_proto_invalidation_batch_iff}
use gossipcache.Control.Transfer.{
  proto_event_in, proto_events_in, proto_invalidation_batch_in, from_proto_invalidation_batch_in,
}
use gossipcache.Control.Transfer.Independence.{
  proto_events_in-Writes, proto_invalidation_batch_in-kept,
}
use gossipcache.Control.Transfer.Loop.{HasHeldBytes}
use gossipcache.Control.Transfer.Received.{from_proto_invalidation_batch_in-kept}

proto_event_in-HasHeldBytes :
    (P : ℕ → Type 0) (s : Store ℕ) (e : HeldEvent) {u : Store ℕ}
    → Writes P (proto_event_in s e).0 u
    → HasHeldBytes u (some (proto_event_in s e).1)
unfolding proto_event_in copy_bytes_in
proto_event_in-HasHeldBytes P s e w =
    let key = append_nil s e.key in
    let id = append_elements key.0 e.mutation_id in
    (
      IsHeld-Writes key.1 (IsOwned-IsHeld (length s) key.0 key.1 (append_nil-IsOwned s e.key))
          (Writes-trans (append_elements-Writes P key.0 e.mutation_id) w),
      IsHeld-Writes id.1
          (IsOwned-IsHeld (length key.0) id.0 id.1 (append_elements-IsOwned key.0 e.mutation_id)) w,
    )

proto_events_in-HasHeldBytes :
    (P : ℕ → Type 0) (s : Store ℕ) (events : List HeldEvent) {u : Store ℕ}
    → Writes P (proto_events_in s events).0 u
    → All (HasHeldBytes u) (proto_events_in s events).1
unfolding proto_events_in
proto_events_in-HasHeldBytes P s [] w = tt
proto_events_in-HasHeldBytes P s (e ∷ events) w =
    let next = (proto_event_in s e).0 in
    (
      proto_event_in-HasHeldBytes P s e (Writes-trans (proto_events_in-Writes P next events) w),
      proto_events_in-HasHeldBytes P next events w,
    )

proto_invalidation_batch_in-HasHeldBytes :
    (P : ℕ → Type 0) (m : Memory) (b : HeldBatch) {u : Store ℕ}
    → Writes P (proto_invalidation_batch_in m b).0 u
    → All (HasHeldBytes u) (proto_invalidation_batch_in m b).1.events
unfolding proto_invalidation_batch_in
proto_invalidation_batch_in-HasHeldBytes P m b w =
    proto_events_in-HasHeldBytes P m.bytes (contents m.events b.events) w

-- A hub converts a valid batch, whose keys are in the store and whose ids have 16 bytes, and the
-- arrays of bytes that were there before are written. A node converts the message, and the arrays
-- that were there before are written, those of the message too. The node holds the batch as it was
-- at first, with no error.
pub from_proto-proto_invalidation_batch_in :
    (m : Memory) (b : HeldBatch) (u v : Memory)
    → All (HasHeldKey m.bytes) (contents m.events b.events)
    → validate_batch (read_batch m b) ≡ none
    → All (λ e. length e.mutation_id ≡ 16) (read_batch m b).events
    → Writes (Old (length m.bytes)) (proto_invalidation_batch_in m b).0 u.bytes
    → Writes
        (Old (length u.bytes))
        (from_proto_invalidation_batch_in u (some (proto_invalidation_batch_in m b).1)).0.bytes
        v.bytes
    → Writes
        (Old (length u.events))
        (from_proto_invalidation_batch_in u (some (proto_invalidation_batch_in m b).1)).0.events
        v.events
    → (read_batch v
          (from_proto_invalidation_batch_in u (some (proto_invalidation_batch_in m b).1)).1
        ≡ read_batch m b)
      × ((from_proto_invalidation_batch_in u (some (proto_invalidation_batch_in m b).1)).2 ≡ none)
from_proto-proto_invalidation_batch_in m b u v h valid ids sent bytes events =
    let message = (proto_invalidation_batch_in m b).1 in
    let held = proto_invalidation_batch_in-HasHeldBytes (Old (length m.bytes)) m b sent in
    let got = from_proto_invalidation_batch_in-kept u message v held bytes events in
    let read =
      ap (λ p. from_proto_invalidation_batch (some p))
        (proto_invalidation_batch_in-kept m b u.bytes h sent)
      ∙ (from_proto_invalidation_batch_iff (read_batch m b)
            (some (proto_invalidation_batch (read_batch m b)))).1
          (valid, ids, refl) in
    (got.0 ∙ ap (λ x. x.0) read, got.1 ∙ ap (λ x. x.1) read)
