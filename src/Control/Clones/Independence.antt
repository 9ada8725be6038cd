-- ===== src/Control/Clones/Independence.antt =====
-- A clone of a control message shares no array with the message, nor do its events.
use gossipcache.Common.{ℕ, ◌≤◌, ◌≡◌, refl, List, [], ◌∷◌, map, All, length, arith}
use gossipcache.Ownership.{Store, contents, append_nil, Writes, done, Old, New, IsHeld}
use gossipcache.Ownership.Frames.{
  append_nil-Writes, append_elements-Writes, Writes-length, Writes-trans, contents-Writes-New,
  IsHeld-Writes,
}
use gossipcache.Ownership.Copies.{copy_kept, original_kept, elements_kept}
use gossipcache.Control.Session.{StreamWatermark}
use gossipcache.Control.Clones.Loop.{with_own_keys, clone_at_once, clone_batch-clone_at_once}
use mathlib.Core.Path.{subst, sym}
use gossipcache.Control.Clones.{
  HeldHello, read_hello, clone_hello, HeldSubscribe, read_subscribe, clone_subscribe, HeldEvent,
  read_event, Memory, HeldBatch, read_batch, clone_batch,
}

-- A hello, whose watermarks are in the store, is cloned. Whatever is then written to the arrays
-- that were there before, the clone reads as the hello did; and whatever is written to the arrays
-- made since, the hello does.
pub clone_hello-independent :
    (s : Store StreamWatermark) (m : HeldHello) (u w : Store StreamWatermark)
    → IsHeld s m.subscriptions
    → Writes (Old (length s)) (clone_hello s m).0 u
    → Writes (New (length s)) (clone_hello s m).0 w
    → (read_hello u (clone_hello s m).1 ≡ read_hello s m) × (read_hello w m ≡ read_hello s m)
unfolding clone_hello read_hello
clone_hello-independent s m u w h old new = (
  rw (copy_kept (length s) s m.subscriptions (omega arith) old) refl,
  rw (original_kept s m.subscriptions h new) refl,
)

-- Whatever is written to the arrays that were there before a subscription was cloned, the clone
-- reads as it did; and whatever is written to the arrays made since, the subscription does.
pub clone_subscribe-independent :
    (s : Store ℕ) (m : HeldSubscribe) (u w : Store ℕ)
    → IsHeld s m.stream_ids
    → Writes (Old (length s)) (clone_subscribe s m).0 u
    → Writes (New (length s)) (clone_subscribe s m).0 w
    → (read_subscribe u (clone_subscribe s m).1 ≡ read_subscribe s m)
      × (read_subscribe w m ≡ read_subscribe s m)
unfolding clone_subscribe read_subscribe
clone_subscribe-independent s m u w h old new = (
  rw (copy_kept (length s) s m.stream_ids (omega arith) old) refl,
  rw (original_kept s m.stream_ids h new) refl,
)

abbrev pub HasHeldKey : Store ℕ → HeldEvent → Type 0
HasHeldKey s e = IsHeld s e.key

with_own_keys-Writes :
    (P : ℕ → Type 0) (s : Store ℕ) (events : List HeldEvent) → Writes P s (with_own_keys s events).0
unfolding with_own_keys
with_own_keys-Writes P s [] = done
with_own_keys-Writes P s (e ∷ events) =
    Writes-trans (append_nil-Writes P s e.key)
      (with_own_keys-Writes P (append_nil s e.key).0 events)

pub held_keys :
    {P : ℕ → Type 0} {s t : Store ℕ} (events : List HeldEvent)
    → All (HasHeldKey s) events
    → Writes P s t
    → All (HasHeldKey t) events
held_keys [] h w = tt
held_keys (e ∷ events) (k, h) w = (IsHeld-Writes e.key k w, held_keys events h w)

-- Events read the same while no array of their keys is written.
pub events_kept :
    {s t : Store ℕ} (events : List HeldEvent)
    → All (HasHeldKey s) events
    → Writes (New (length s)) s t
    → map (read_event t) events ≡ map (read_event s) events
unfolding read_event
events_kept [] h w = refl
events_kept (e ∷ events) (k, h) w = rw (contents-Writes-New e.key k w, events_kept events h w) refl

cloned_events_kept :
    (n : ℕ) (s : Store ℕ) (events : List HeldEvent) {u : Store ℕ}
    → n ≤ length s
    → All (HasHeldKey s) events
    → Writes (Old n) (with_own_keys s events).0 u
    → map (read_event u) (with_own_keys s events).1 ≡ map (read_event s) events
unfolding read_event with_own_keys
cloned_events_kept n s [] h k w = refl
cloned_events_kept n s (e ∷ events) h (k, ks) w =
    let next = (append_nil s e.key).0 in
    let step = append_nil-Writes (New (length s)) s e.key in
    rw
      (
        copy_kept n s e.key h (Writes-trans (with_own_keys-Writes (Old n) next events) w),
        cloned_events_kept n next events (omega (arith, h, Writes-length step))
            (held_keys events ks step) w,
        events_kept events ks step,
      )
      refl

clone_at_once-independent :
    (m : Memory) (b : HeldBatch) (u w : Memory)
    → IsHeld m.events b.events
    → All (HasHeldKey m.bytes) (contents m.events b.events)
    → Writes (Old (length m.bytes)) (clone_at_once m b).0.bytes u.bytes
    → Writes (Old (length m.events)) (clone_at_once m b).0.events u.events
    → Writes (New (length m.bytes)) (clone_at_once m b).0.bytes w.bytes
    → Writes (New (length m.events)) (clone_at_once m b).0.events w.events
    → (read_batch u (clone_at_once m b).1 ≡ read_batch m b) × (read_batch w b ≡ read_batch m b)
unfolding clone_at_once read_batch
clone_at_once-independent m b u w h k old old_events new new_events =
    let events = contents m.events b.events in
    let keys = with_own_keys m.bytes events in
    (
      rw
          (
            elements_kept (length m.events) m.events keys.1 (omega arith) old_events,
            cloned_events_kept (length m.bytes) m.bytes events (omega arith) k old,
          )
          refl,
      rw
          (
            contents-Writes-New b.events h (
                Writes-trans (append_elements-Writes (New (length m.events)) m.events keys.1)
                  new_events),
            events_kept events k
                (Writes-trans (with_own_keys-Writes (New (length m.bytes)) m.bytes events) new),
          )
          refl,
    )

-- A batch, whose events and their keys are in the store, is cloned by the loop. The clone shares
-- neither the array of events nor the bytes of any event's key: writes to what was there before
-- leave the clone as it is, and writes to what was made since leave the batch as it is.
pub clone_batch-independent :
    (m : Memory) (b : HeldBatch) (u w : Memory)
    → IsHeld m.events b.events
    → All (HasHeldKey m.bytes) (contents m.events b.events)
    → Writes (Old (length m.bytes)) (clone_batch m b).0.bytes u.bytes
    → Writes (Old (length m.events)) (clone_batch m b).0.events u.events
    → Writes (New (length m.bytes)) (clone_batch m b).0.bytes w.bytes
    → Writes (New (length m.events)) (clone_batch m b).0.events w.events
    → (read_batch u (clone_batch m b).1 ≡ read_batch m b) × (read_batch w b ≡ read_batch m b)
clone_batch-independent m b u w h k =
    subst
      (λ c.
        Writes (Old (length m.bytes)) c.0.bytes u.bytes
        → Writes (Old (length m.events)) c.0.events u.events
        → Writes (New (length m.bytes)) c.0.bytes w.bytes
        → Writes (New (length m.events)) c.0.events w.events
        → (read_batch u c.1 ≡ read_batch m b) × (read_batch w b ≡ read_batch m b))
      (sym (clone_batch-clone_at_once m b)) (clone_at_once-independent m b u w h k)
