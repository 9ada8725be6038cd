-- ===== src/Control/Transfer/Independence.antt =====
-- The message of a batch does not change with the arrays of the batch.
use gossipcache.Common.{ℕ, ◌≤◌, ◌≡◌, refl, some, List, [], ◌∷◌, map, length, All, arith}
use gossipcache.Ownership.{Store, Writes, done, Old, New, contents, append_nil}
use gossipcache.Ownership.Copies.{copy_kept, elements_kept}
use gossipcache.Ownership.Frames.{
  append_nil-Writes, append_elements-Writes, Writes-trans, Writes-length,
}
use gossipcache.Wire.Clones.{copy_bytes_in}
use gossipcache.Rpc.Transfer.{read_id}
use gossipcache.Control.Clones.{HeldEvent, read_event, Memory, HeldBatch, read_batch}
use gossipcache.Control.Clones.Independence.{HasHeldKey, held_keys, events_kept}
use gossipcache.Control.Convert.ToProto.{proto_event, proto_invalidation_batch}
use gossipcache.Control.Transfer.{
  read_pb_event, read_pb_batch, proto_event_in, proto_events_in, proto_invalidation_batch_in,
}

-- No array is written by the loop: it only makes new ones.
pub proto_event_in-Writes :
    (P : ℕ → Type 0) (s : Store ℕ) (e : HeldEvent) → Writes P s (proto_event_in s e).0
unfolding proto_event_in copy_bytes_in
proto_event_in-Writes P s e =
    Writes-trans (append_nil-Writes P s e.key)
      (append_elements-Writes P (append_nil s e.key).0 e.mutation_id)

pub proto_events_in-Writes :
    (P : ℕ → Type 0) (s : Store ℕ) (events : List HeldEvent)
    → Writes P s (proto_events_in s events).0
unfolding proto_events_in
proto_events_in-Writes P s [] = done
proto_events_in-Writes P s (e ∷ events) =
    Writes-trans (proto_event_in-Writes P s e)
      (proto_events_in-Writes P (proto_event_in s e).0 events)

proto_event_in-kept :
    (n : ℕ) (s : Store ℕ) (e : HeldEvent) {u : Store ℕ}
    → n ≤ length s
    → Writes (Old n) (proto_event_in s e).0 u
    → read_pb_event u (some (proto_event_in s e).1) ≡ proto_event (read_event s e)
unfolding proto_event_in copy_bytes_in read_pb_event read_id proto_event read_event
proto_event_in-kept n s e h w =
    let key = (append_nil s e.key).0 in
    let longer = Writes-length (append_nil-Writes (New 0) s e.key) in
    let id = elements_kept n key e.mutation_id (omega (arith, h, longer)) w in
    let copied =
      copy_kept n s e.key h (Writes-trans (append_elements-Writes (Old n) key e.mutation_id) w) in
    rw (copied, id) refl

proto_events_in-kept :
    (n : ℕ) (s : Store ℕ) (events : List HeldEvent) {u : Store ℕ}
    → n ≤ length s
    → All (HasHeldKey s) events
    → Writes (Old n) (proto_events_in s events).0 u
    → map (read_pb_event u) (proto_events_in s events).1
      ≡ map proto_event (map (read_event s) events)
unfolding proto_events_in
proto_events_in-kept n s [] h k w = refl
proto_events_in-kept n s (e ∷ events) h k w =
    let next = (proto_event_in s e).0 in
    let made : Writes (New (length s)) s next = proto_event_in-Writes (New (length s)) s e in
    let head =
      proto_event_in-kept n s e h (Writes-trans (proto_events_in-Writes (Old n) next events) w) in
    let tail =
      proto_events_in-kept n next events (omega (arith, h, Writes-length made))
        (held_keys events k.1 made) w in
    rw (head, tail, events_kept events k.1 made) refl

-- A hub converts a batch whose keys are in the store. Whatever is later written to the arrays of
-- bytes that were there before, the message stays the conversion of the batch as it was, each event
-- with its own id.
pub proto_invalidation_batch_in-kept :
    (m : Memory) (b : HeldBatch) (u : Store ℕ)
    → All (HasHeldKey m.bytes) (contents m.events b.events)
    → Writes (Old (length m.bytes)) (proto_invalidation_batch_in m b).0 u
    → read_pb_batch u (proto_invalidation_batch_in m b).1
      ≡ proto_invalidation_batch (read_batch m b)
unfolding proto_invalidation_batch_in read_pb_batch proto_invalidation_batch read_batch
proto_invalidation_batch_in-kept m b u h w =
    rw
      (proto_events_in-kept (length m.bytes) m.bytes (contents m.events b.events) (omega arith) h w)
      refl
