-- ===== src/Control/Convert/Encoded.antt =====
-- The small values of internal/control/convert.go, and the events of a batch, there and back.
use gossipcache.Common.{
  ◌<◌, ◌^◌, ◌≡◌, ◌↔◌, refl, ap, ◌∙◌, inl, inr, true, Option, none, some, List, [], ◌∷◌, ◌++◌, map,
  length, replicate, All, arith, ℕ, pos,
}
use gossipcache.Errors.{Result, ok, err, ◌>>=◌, Result-cases}
use gossipcache.Wire.MutationId.{MutationId}
use gossipcache.Wire.Status.{Status, status_valid}
use gossipcache.Wire.Record.{RecordKind, record_kind_valid}
use gossipcache.Control.Session.{StreamWatermark}
use gossipcache.Control.Batch.{InvalidationEvent}
use gossipcache.Pb
use gossipcache.Rpc.Convert.Values.{copy_lem}
use gossipcache.Control.Convert.Values.{
  mutation_id_from_proto, record_kind_from_proto, status_from_proto, protocol_version_from_uint32,
  version_from_proto,
}
use gossipcache.Control.Convert.ToProto.{proto_watermark, proto_event}
use gossipcache.Control.Convert.FromProto.{
  from_proto_watermarks, event_from_proto, from_proto_events,
}
use mathlib.Core.List.{append_assoc, append-nil}

pub status_from_proto_iff :
    (p : Pb.Status) (s : Status)
    → (status_from_proto p ≡ ok s) ↔ ((status_valid s ≡ true) × (p ≡ pos s))
unfolding status_from_proto status_valid
status_from_proto_iff p s = ground arith

pub record_kind_from_proto_iff :
    (p : Pb.RecordKind) (k : RecordKind)
    → (record_kind_from_proto p ≡ ok k) ↔ ((record_kind_valid k ≡ true) × (p ≡ pos k))
unfolding record_kind_from_proto record_kind_valid
record_kind_from_proto_iff p k = ground arith

pub protocol_version_from_uint32_iff :
    (p v : ℕ) → (protocol_version_from_uint32 p ≡ ok v) ↔ ((v < 2 ^ 16) × (p ≡ v))
unfolding protocol_version_from_uint32
protocol_version_from_uint32_iff p v = ground arith

abbrev pub message_of : MutationId → Pb.MutationId
message_of id = record { id = id }

pub mutation_id_from_proto_iff :
    (m : Option Pb.MutationId) (id : MutationId)
    → (mutation_id_from_proto m ≡ ok id) ↔ ((length id ≡ 16) × (m ≡ some (message_of id)))
unfolding mutation_id_from_proto
mutation_id_from_proto_iff none id = ground arith
mutation_id_from_proto_iff (some m) id = ground (arith, copy_lem (replicate 16 0) m.id)

-- What the conversion to protobuf keeps of an event: a kind that is defined and an id of 16 bytes.
abbrev pub IsEncodable : InvalidationEvent → Type 0
IsEncodable e = (record_kind_valid e.kind ≡ true) × (length e.mutation_id ≡ 16)

abbrev pub HasCommit : InvalidationEvent → Type 0
HasCommit e = 0 < e.version.sequence

-- A message without a version stands for the zero version, which no commit has.
event_from_proto_iff :
    (p : Option Pb.InvalidationEvent) (e : InvalidationEvent)
    → HasCommit e
    → (event_from_proto p ≡ ok e) ↔ (IsEncodable e × (p ≡ proto_event e))
unfolding event_from_proto proto_event version_from_proto
event_from_proto_iff none e h = ground arith
event_from_proto_iff (some q) e h = ground (
  arith,
  record_kind_from_proto_iff q.kind e.kind,
  mutation_id_from_proto_iff q.mutation_id e.mutation_id,
)

-- The loops without their accumulators.
events_of : List (Option Pb.InvalidationEvent) → Result (List InvalidationEvent)
events_of [] = ok []
events_of (p ∷ ps) = do e ← event_from_proto p; es ← events_of ps; ok (e ∷ es)

append_to :
    List InvalidationEvent → Result (List InvalidationEvent) → Result (List InvalidationEvent)
append_to out r = do es ← r; ok (out ++ es)

append_to-cons :
    (out : List InvalidationEvent) (e : InvalidationEvent) (r : Result (List InvalidationEvent))
    → append_to (out ++ e ∷ []) r ≡ append_to out (r >>= λ es. ok (e ∷ es))
unfolding append_to
append_to-cons out e (ok es) = ap ok (append_assoc out (e ∷ []) es)
append_to-cons out e (err x) = refl

-- Each loop in one step, on an event that reads as `e`, and on one that does not.
pub from_proto_events_step :
    (out : List InvalidationEvent) (p : Option Pb.InvalidationEvent)
    (ps : List (Option Pb.InvalidationEvent))
    → from_proto_events out (p ∷ ps)
      ≡ (event_from_proto p >>= λ e. from_proto_events (out ++ e ∷ []) ps)
unfolding from_proto_events
from_proto_events_step out p ps = elim (Result-cases (event_from_proto p)) [
  | inl (e, read) ↦ ground arith
  | inr (x, failed) ↦ ground arith
]

from_proto_events-append :
    (out : List InvalidationEvent) (ps : List (Option Pb.InvalidationEvent))
    → from_proto_events out ps ≡ append_to out (events_of ps)
unfolding from_proto_events events_of append_to
from_proto_events-append out [] = rw append-nil
from_proto_events-append out (p ∷ ps) =
    from_proto_events_step out p ps
    ∙ go (event_from_proto p) (λ e. from_proto_events-append (out ++ e ∷ []) ps)
  where
    go :
        (r : Result InvalidationEvent)
        → ((e : InvalidationEvent)
            → from_proto_events (out ++ e ∷ []) ps ≡ append_to (out ++ e ∷ []) (events_of ps))
        → (r >>= λ e. from_proto_events (out ++ e ∷ []) ps)
          ≡ append_to out (r >>= λ e. (events_of ps >>= λ es. ok (e ∷ es)))
    go (ok e) ih = ih e ∙ append_to-cons out e (events_of ps)
    go (err x) ih = refl

events_of_iff :
    (ps : List (Option Pb.InvalidationEvent)) (es : List InvalidationEvent)
    → All HasCommit es
    → (events_of ps ≡ ok es) ↔ (All IsEncodable es × (ps ≡ map proto_event es))
unfolding events_of
events_of_iff [] [] h = ground arith
events_of_iff [] (e ∷ es) h = ground arith
events_of_iff (p ∷ ps) [] h = ground arith
events_of_iff (p ∷ ps) (e ∷ es) (k, h) =
    ground (arith, event_from_proto_iff p e k, events_of_iff ps es h)

-- The loop over events ends in `es`, all of them with a commit, exactly when the message holds what
-- they convert to.
pub from_proto_events_iff :
    (ps : List (Option Pb.InvalidationEvent)) (es : List InvalidationEvent)
    → All HasCommit es
    → (from_proto_events [] ps ≡ ok es) ↔ (All IsEncodable es × (ps ≡ map proto_event es))
from_proto_events_iff ps es h =
    rw from_proto_events-append (unfold append_to in ground (arith, events_of_iff ps es h))

from_proto_watermarks_sound :
    (out : List StreamWatermark) (ps : List (Option Pb.StreamWatermark)) (ws : List StreamWatermark)
    → from_proto_watermarks out ps ≡ ok ws
    → (rest : List StreamWatermark) × (ws ≡ out ++ rest) × (ps ≡ map proto_watermark rest)
unfolding from_proto_watermarks proto_watermark
from_proto_watermarks_sound out [] ws e = ([], ground (arith, append-nil out), refl)
from_proto_watermarks_sound out (none ∷ ps) ws e = cc
from_proto_watermarks_sound out (some p ∷ ps) ws e =
    let w : StreamWatermark = record {
      stream_id = p.stream_id;
      applied_through = p.applied_through;
      hub_generation = p.hub_generation;
    } in
    let (rest, same, form) = from_proto_watermarks_sound (out ++ w ∷ []) ps ws e in
    (w ∷ rest, same ∙ append_assoc out (w ∷ []) rest, ap (λ t. some p ∷ t) form)

from_proto_watermarks_complete :
    (out ws : List StreamWatermark)
    → from_proto_watermarks out (map proto_watermark ws) ≡ ok (out ++ ws)
unfolding from_proto_watermarks proto_watermark
from_proto_watermarks_complete out [] = rw append-nil
from_proto_watermarks_complete out (w ∷ ws) =
    from_proto_watermarks_complete (out ++ w ∷ []) ws ∙ ap ok (append_assoc out (w ∷ []) ws)

pub from_proto_watermarks_iff :
    (ps : List (Option Pb.StreamWatermark)) (ws : List StreamWatermark)
    → (from_proto_watermarks [] ps ≡ ok ws) ↔ (ps ≡ map proto_watermark ws)
from_proto_watermarks_iff ps ws = (
  λ e. let (rest, same, form) = from_proto_watermarks_sound [] ps ws e in rw same form,
  λ form. rw form (from_proto_watermarks_complete [] ws),
)
