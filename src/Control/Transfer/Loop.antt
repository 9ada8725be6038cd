-- ===== src/Control/Transfer/Loop.antt =====
-- The loop of `FromProtoInvalidationBatch` in internal/control/convert.go, over the store and over
-- values.
use gossipcache.Common.{
  ℕ, ◌⊎◌, ◌≤◌, ◌≡◌, refl, ap, ◌∙◌, Option, none, some, List, [], ◌∷◌, ◌++◌, map, length, All, arith,
  inl, inr,
}
use gossipcache.Errors.{Result, ok, err, Error, Result-cases}
use gossipcache.Ownership.{Slice, Store, Writes, Old, New, IsHeld, contents, append_nil}
use gossipcache.Ownership.Copies.{copy_kept}
use gossipcache.Ownership.Frames.{
  append_nil-Writes, Writes-trans, Writes-length, IsHeld-Writes, contents-Writes-New,
}
use mathlib.Core.Path.{subst⁻¹}
use gossipcache.Control.Convert.Encoded.{from_proto_events_step}
use gossipcache.Wire.Clones.{copy_bytes_in}
use gossipcache.Rpc.Transfer.{read_id}
use gossipcache.Control.Batch.{InvalidationEvent}
use gossipcache.Control.Clones.{HeldEvent, read_event}
use gossipcache.Control.Convert.Values.{
  version_from_proto, mutation_id_from_proto, record_kind_from_proto,
}
use gossipcache.Control.Convert.FromProto.{event_from_proto, from_proto_events}
use gossipcache.Control.Transfer.{
  HeldPbEvent, read_pb_event, event_from_proto_in, from_proto_events_in,
}

abbrev pub HasHeldId : Store ℕ → Option Slice → Type 0
HasHeldId s none = Unit
HasHeldId s (some id) = IsHeld s id

-- The message has the arrays of its key and its id in the store.
abbrev pub HasHeldBytes : Store ℕ → Option HeldPbEvent → Type 0
HasHeldBytes s none = Unit
HasHeldBytes s (some e) = IsHeld s e.key × HasHeldId s e.mutation_id

-- The loop over the store and the loop over values agree: they fail alike, and events that the one
-- makes read as those of the other, whatever is later written to the first n arrays.
abbrev pub Agree : ℕ → Result (Store ℕ × List HeldEvent) → Result (List InvalidationEvent) → Type 0
Agree n (ok (t, events)) (ok values) =
    (u : Store ℕ) → Writes (Old n) t u → map (read_event u) events ≡ values
Agree n (ok _) (err y) = ⊥
Agree n (err x) (ok _) = ⊥
Agree n (err x) (err y) = x ≡ y

held_id :
    {P : ℕ → Type 0} {s t : Store ℕ} (id : Option Slice)
    → HasHeldId s id
    → Writes P s t
    → HasHeldId t id
held_id none h w = tt
held_id (some id) h w = IsHeld-Writes id h w

held_messages :
    {P : ℕ → Type 0} {s t : Store ℕ} (ps : List (Option HeldPbEvent))
    → All (HasHeldBytes s) ps
    → Writes P s t
    → All (HasHeldBytes t) ps
held_messages [] h w = tt
held_messages (none ∷ ps) h w = (tt, held_messages ps h.1 w)
held_messages (some e ∷ ps) ((key, id), h) w =
    ((IsHeld-Writes e.key key w, held_id e.mutation_id id w), held_messages ps h w)

id_kept :
    {s t : Store ℕ} (id : Option Slice)
    → HasHeldId s id
    → Writes (New (length s)) s t
    → read_id t id ≡ read_id s id
unfolding read_id
id_kept none h w = refl
id_kept (some id) h w = rw (contents-Writes-New id h w) refl

messages_kept :
    {s t : Store ℕ} (ps : List (Option HeldPbEvent))
    → All (HasHeldBytes s) ps
    → Writes (New (length s)) s t
    → map (read_pb_event t) ps ≡ map (read_pb_event s) ps
unfolding read_pb_event
messages_kept [] h w = refl
messages_kept (none ∷ ps) h w = rw (messages_kept ps h.1 w) refl
messages_kept (some e ∷ ps) ((key, id), h) w =
    rw (contents-Writes-New e.key key w, id_kept e.mutation_id id w, messages_kept ps h w) refl

map-append_one :
    (f : HeldEvent → InvalidationEvent) (out : List HeldEvent) (e : HeldEvent)
    → map f (out ++ (e ∷ [])) ≡ map f out ++ (f e ∷ [])
map-append_one f [] e = refl
map-append_one f (x ∷ out) e = ap (λ t. f x ∷ t) (map-append_one f out e)

-- One event: both conversions fail alike, or the key is copied and all else is the same.
event_from_proto_in-cases :
    (s : Store ℕ) (e : HeldPbEvent)
    → ((x : Error) × (event_from_proto_in s (some e) ≡ err x)
        × (event_from_proto (read_pb_event s (some e)) ≡ err x))
      ⊎ ((v : HeldEvent) × (event_from_proto_in s (some e) ≡ ok ((append_nil s e.key).0, v))
          × (v.key ≡ (append_nil s e.key).1)
          × (event_from_proto (read_pb_event s (some e))
              ≡ ok (record (read_event s v) { key = contents s e.key })))
unfolding event_from_proto_in event_from_proto read_pb_event read_event copy_bytes_in
event_from_proto_in-cases s e =
    elim (Result-cases (mutation_id_from_proto (read_id s e.mutation_id))) [
      | inr (x, failed) ↦ inl (x, rw failed refl, rw failed refl)
      | inl (id, read) ↦ elim (Result-cases (record_kind_from_proto e.kind)) [
        | inr (x, failed) ↦ inl (x, rw (read, failed) refl, rw (read, failed) refl)
        | inl (kind, defined) ↦ inr (
          record {
            stream_sequence = e.stream_sequence;
            key = (append_nil s e.key).1;
            version = version_from_proto e.version;
            kind = kind;
            mutation_id = id;
          },
          rw (read, defined) refl,
          refl,
          rw (read, defined) refl,
        )
      ]
    ]

from_proto_events_in_ok :
    (s t : Store ℕ) (out : List HeldEvent) (p : Option HeldPbEvent) (qs : List (Option HeldPbEvent))
    (v : HeldEvent)
    → event_from_proto_in s p ≡ ok (t, v)
    → from_proto_events_in s out (p ∷ qs) ≡ from_proto_events_in t (out ++ (v ∷ [])) qs
unfolding from_proto_events_in
from_proto_events_in_ok s t out p qs v e = rw (from_proto_events_in, e) refl

from_proto_events_in_err :
    (s : Store ℕ) (out : List HeldEvent) (p : Option HeldPbEvent) (qs : List (Option HeldPbEvent))
    (x : Error)
    → event_from_proto_in s p ≡ err x
    → from_proto_events_in s out (p ∷ qs) ≡ err x
unfolding from_proto_events_in
from_proto_events_in_err s out p qs x e = rw (from_proto_events_in, e) refl

pub from_proto_events_in-Agree :
    (n : ℕ) (s : Store ℕ) (out : List HeldEvent) (values : List InvalidationEvent)
    (ps : List (Option HeldPbEvent))
    → n ≤ length s
    → All (HasHeldBytes s) ps
    → ((u : Store ℕ) → Writes (Old n) s u → map (read_event u) out ≡ values)
    → Agree n (from_proto_events_in s out ps) (from_proto_events values (map (read_pb_event s) ps))
unfolding read_event
from_proto_events_in-Agree n s out values [] h k same =
    unfold from_proto_events_in from_proto_events in same
from_proto_events_in-Agree n s out values (none ∷ ps) h k same =
    unfold from_proto_events_in from_proto_events event_from_proto_in event_from_proto
      read_pb_event in
    refl
from_proto_events_in-Agree n s out values (some e ∷ ps) h k same =
    let rest = map (read_pb_event s) ps in
    let first = read_pb_event s (some e) in
    elim (event_from_proto_in-cases s e) [
      | inl (x, failed, failed') ↦
          let refused : from_proto_events values (first ∷ rest) ≡ err x =
            rw (from_proto_events_step values first rest, failed') refl in
          subst⁻¹ (λ r. Agree n r (from_proto_events values (first ∷ rest)))
            (from_proto_events_in_err s out (some e) ps x failed)
            (subst⁻¹ (Agree n (err x)) refused refl)
      | inr (v, made, own, made') ↦
          let t = (append_nil s e.key).0 in
          let value : InvalidationEvent = record (read_event s v) { key = contents s e.key } in
          let allocated : Writes (New (length s)) s t =
            append_nil-Writes (New (length s)) s e.key in
          let more : (u : Store ℕ)
              → Writes (Old n) t u
              → map (read_event u) (out ++ (v ∷ [])) ≡ values ++ (value ∷ []) =
            λ u w.
              map-append_one (read_event u) out v
              ∙ rw
                  (
                    same u (Writes-trans (append_nil-Writes (Old n) s e.key) w),
                    own,
                    copy_kept n s e.key h w,
                  )
                  refl in
          let next =
            from_proto_events_in-Agree n t (out ++ (v ∷ [])) (values ++ (value ∷ [])) ps
              (omega (arith, h, Writes-length allocated)) (held_messages ps k.1 allocated) more in
          let converted : from_proto_events values (first ∷ rest)
              ≡ from_proto_events (values ++ (value ∷ [])) rest =
            rw (from_proto_events_step values first rest, made') refl in
          subst⁻¹ (λ r. Agree n r (from_proto_events values (first ∷ rest)))
            (from_proto_events_in_ok s t out (some e) ps v made)
            (subst⁻¹ (Agree n (from_proto_events_in t (out ++ (v ∷ [])) ps)) converted
              (rw (messages_kept ps k.1 allocated) at next))
    ]
