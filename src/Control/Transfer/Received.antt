-- ===== src/Control/Transfer/Received.antt =====
-- The batch that a node has received does not change with the arrays of the message.
use gossipcache.Common.{ℕ, ◌≡◌, refl, ap, some, List, [], map, length, All, arith}
use gossipcache.Errors.{Check, Result, ok, err, conclude, ◌>>=◌}
use gossipcache.Ownership.{Store, Writes, done, Old, contents}
use gossipcache.Ownership.Copies.{elements_kept}
use gossipcache.Ownership.Frames.{append_elements-contents}
use gossipcache.Pb
use gossipcache.Control.Batch.{InvalidationEvent, InvalidationBatch, validate_batch}
use gossipcache.Control.Clones.{HeldEvent, Memory, read_batch}
use gossipcache.Control.Convert.FromProto.{
  from_proto_events, zero_batch, from_proto_invalidation_batch,
}
use gossipcache.Control.Transfer.{
  HeldPbBatch, read_pb_event, read_pb_batch, from_proto_events_in, conclude_batch_in,
  from_proto_invalidation_batch_in,
}
use gossipcache.Control.Transfer.Loop.{Agree, HasHeldBytes, from_proto_events_in-Agree}

-- The value side of the last steps.
abbrev finish : Pb.InvalidationBatch → Result (List InvalidationEvent) → InvalidationBatch × Check
finish p q = conclude zero_batch validate_batch (
    q >>= λ events.
    ok (record { stream_id = p.stream_id; hub_generation = p.hub_generation; events = events }))

conclude_batch_in-finish :
    (m : Memory) (p : HeldPbBatch) (u : Memory) (r : Result (Store ℕ × List HeldEvent))
    (q : Result (List InvalidationEvent))
    → Agree (length m.bytes) r q
    → Writes (Old (length m.bytes)) (conclude_batch_in m p r).0.bytes u.bytes
    → Writes (Old (length m.events)) (conclude_batch_in m p r).0.events u.events
    → (read_batch u (conclude_batch_in m p r).1 ≡ (finish (read_pb_batch m.bytes p) q).0)
      × ((conclude_batch_in m p r).2 ≡ (finish (read_pb_batch m.bytes p) q).1)
unfolding conclude_batch_in read_batch read_pb_batch contents
conclude_batch_in-finish m p u (ok (t, events)) (ok values) agree w w' =
    let now = append_elements-contents m.events events in
    let later = elements_kept (length m.events) m.events events (omega arith) w' in
    (rw (later, agree u.bytes w) refl, rw (now, agree t done) refl)
conclude_batch_in-finish m p u (ok (t, events)) (err y) agree w w' = absurd agree
conclude_batch_in-finish m p u (err x) (ok values) agree w w' = absurd agree
conclude_batch_in-finish m p u (err x) (err y) agree w w' = (refl, ap some agree)

-- A node converts a message, whose keys and ids are in the store. Whatever is later written to the
-- arrays that were there before, such as the buffers of the transport, the batch and the error are
-- what the conversion of the message, as it was, gives.
pub from_proto_invalidation_batch_in-kept :
    (m : Memory) (p : HeldPbBatch) (u : Memory)
    → All (HasHeldBytes m.bytes) p.events
    → Writes (Old (length m.bytes)) (from_proto_invalidation_batch_in m (some p)).0.bytes u.bytes
    → Writes (Old (length m.events)) (from_proto_invalidation_batch_in m (some p)).0.events u.events
    → (read_batch u (from_proto_invalidation_batch_in m (some p)).1
        ≡ (from_proto_invalidation_batch (some (read_pb_batch m.bytes p))).0)
      × ((from_proto_invalidation_batch_in m (some p)).2
          ≡ (from_proto_invalidation_batch (some (read_pb_batch m.bytes p))).1)
unfolding from_proto_invalidation_batch_in from_proto_invalidation_batch read_pb_batch
from_proto_invalidation_batch_in-kept m p u h w w' =
    conclude_batch_in-finish m p u (from_proto_events_in m.bytes [] p.events)
      (from_proto_events [] (map (read_pb_event m.bytes) p.events))
      (from_proto_events_in-Agree (length m.bytes) m.bytes [] [] p.events (omega arith) h
        (λ v x. refl))
      w w'
