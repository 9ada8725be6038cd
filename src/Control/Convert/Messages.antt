-- ===== src/Control/Convert/Messages.antt =====
-- The messages of internal/control/convert.go: what a conversion back accepts is what the
-- conversion to protobuf makes of a valid message.
use gossipcache.Common.{
  ℕ, ◌<◌, ◌^◌, ◌≡◌, ◌≢◌, ◌↔◌, ap, true, Option, none, some, List, [], ◌∷◌, length, All, arith,
}
use gossipcache.Wire.Record.{record_kind_valid}
use gossipcache.Wire.Status.{status_valid}
use gossipcache.Control.Session.{Hello, validate_hello, Subscribe, validate_subscribe}
use gossipcache.Control.Batch.{InvalidationEvent, InvalidationBatch, validate_batch}
use gossipcache.Control.Batch.Contiguity.{IsEvent, validate_batch-All}
use gossipcache.Control.Delivery.{
  ReplayUnavailable, validate_replay_unavailable, ControlError, validate_control_error,
  StreamAcknowledgement, validate_acknowledgement, StreamCheckpoint, validate_checkpoint,
  ReplayRequest, validate_replay_request, InvalidateConfirm, validate_confirm,
}
use gossipcache.Pb
use gossipcache.Control.Convert.ToProto.{
  proto_hello, proto_invalidation_batch, proto_replay_unavailable, proto_control_error,
  proto_subscribe, proto_stream_acknowledgement, proto_stream_checkpoint, proto_replay_request,
  proto_invalidate_confirm,
}
use gossipcache.Control.Convert.FromProto.{
  from_proto_hello, from_proto_invalidation_batch, from_proto_replay_unavailable,
  from_proto_control_error, from_proto_subscribe, from_proto_stream_acknowledgement,
  from_proto_stream_checkpoint, from_proto_replay_request, from_proto_invalidate_confirm,
}
use gossipcache.Control.Convert.Encoded.{
  IsEncodable, HasCommit, status_from_proto_iff, protocol_version_from_uint32_iff,
  from_proto_events_iff, from_proto_watermarks_iff,
}

-- A message converts back to the hello `m` with no error exactly when it is what `m` converts to,
-- and `m` is valid with versions of 16 bits. A nil watermark among the subscriptions is refused.
pub from_proto_hello_iff :
    (p : Option Pb.Hello) (m : Hello)
    → (from_proto_hello p ≡ (m, none)) ↔ (
        (validate_hello m ≡ none)
        × (m.protocol.version < 2 ^ 16)
        × (m.protocol.min_supported < 2 ^ 16)
        × (p ≡ some (proto_hello m)))
unfolding from_proto_hello proto_hello
from_proto_hello_iff none m = ground arith
from_proto_hello_iff (some q) m = ground (
  arith,
  protocol_version_from_uint32_iff q.protocol_version m.protocol.version,
  protocol_version_from_uint32_iff q.min_supported_version m.protocol.min_supported,
  from_proto_watermarks_iff q.subscriptions m.subscriptions,
)

IsEvent-HasCommit :
    (stream_id : ℕ) (events : List InvalidationEvent)
    → All (IsEvent stream_id) events
    → All HasCommit events
IsEvent-HasCommit stream_id [] h = tt
IsEvent-HasCommit stream_id (e ∷ events) (v, h) =
    (v.committed, IsEvent-HasCommit stream_id events h)

abbrev pub HasFullId : InvalidationEvent → Type 0
HasFullId e = length e.mutation_id ≡ 16

IsEncodable-iff :
    (stream_id : ℕ) (events : List InvalidationEvent)
    → All (IsEvent stream_id) events
    → All IsEncodable events ↔ All HasFullId events
unfolding record_kind_valid
IsEncodable-iff stream_id [] h = ground arith
IsEncodable-iff stream_id (e ∷ events) (v, h) =
    ground (arith, v.kind, IsEncodable-iff stream_id events h)

module _ (m : InvalidationBatch) where
  from_proto_invalidation_batch_sound :
      (q : Pb.InvalidationBatch)
      → from_proto_invalidation_batch (some q) ≡ (m, none)
      → (validate_batch m ≡ none) × All HasFullId m.events × (q ≡ proto_invalidation_batch m)
  from_proto_invalidation_batch_sound q e =
      let valid : validate_batch m ≡ none = unfold from_proto_invalidation_batch in ground arith in
      let all = validate_batch-All m valid in
      unfold from_proto_invalidation_batch proto_invalidation_batch in
      ground (
        arith,
        from_proto_events_iff q.events m.events (IsEvent-HasCommit m.stream_id m.events all),
        IsEncodable-iff m.stream_id m.events all,
      )

  from_proto_invalidation_batch_complete :
      validate_batch m ≡ none
      → All HasFullId m.events
      → from_proto_invalidation_batch (some (proto_invalidation_batch m)) ≡ (m, none)
  unfolding from_proto_invalidation_batch proto_invalidation_batch
  from_proto_invalidation_batch_complete valid full =
      let all = validate_batch-All m valid in
      ground (
        arith,
        from_proto_events_iff (proto_invalidation_batch m).events m.events
            (IsEvent-HasCommit m.stream_id m.events all),
        IsEncodable-iff m.stream_id m.events all,
      )

  from_proto_invalidation_batch-nil : from_proto_invalidation_batch none ≢ (m, none)
  unfolding from_proto_invalidation_batch
  from_proto_invalidation_batch-nil = ground arith

  -- A message converts back to the batch with no error exactly when the batch is valid, its ids have
  -- sixteen bytes, and the message is what it converts to, event by event. A nil event, an event
  -- with no version or no id, and an undefined kind are all refused.
  pub from_proto_invalidation_batch_iff :
      (p : Option Pb.InvalidationBatch)
      → (from_proto_invalidation_batch p ≡ (m, none)) ↔ (
          (validate_batch m ≡ none)
          × All HasFullId m.events
          × (p ≡ some (proto_invalidation_batch m)))
  from_proto_invalidation_batch_iff none =
      (λ e. absurd (from_proto_invalidation_batch-nil e), λ (_, _, none_some). cc)
  from_proto_invalidation_batch_iff (some q) = (
    λ e.
        let (valid, full, same) = from_proto_invalidation_batch_sound q e in
        (valid, full, ap some same),
    λ (valid, full, same). rw same (from_proto_invalidation_batch_complete valid full),
  )

validate_control_error-defined :
    (m : ControlError) → validate_control_error m ≡ none → status_valid m.status ≡ true
unfolding validate_control_error status_valid
validate_control_error-defined m e = ground arith

-- The same of a control error, whose status must be one of the stream's four.
pub from_proto_control_error_iff :
    (p : Option Pb.ControlError) (m : ControlError)
    → (from_proto_control_error p ≡ (m, none))
      ↔ ((validate_control_error m ≡ none) × (p ≡ some (proto_control_error m)))
unfolding from_proto_control_error proto_control_error
from_proto_control_error_iff none m = ground arith
from_proto_control_error_iff (some q) m =
    ground (arith, status_from_proto_iff q.status m.status, validate_control_error-defined m)

-- The messages that hold numbers only: each comes back exactly from what a valid one converts to.
pub from_proto_subscribe_iff :
    (p : Option Pb.Subscribe) (m : Subscribe)
    → (from_proto_subscribe p ≡ (m, none))
      ↔ ((validate_subscribe m ≡ none) × (p ≡ some (proto_subscribe m)))
unfolding from_proto_subscribe proto_subscribe
from_proto_subscribe_iff none m = ground arith
from_proto_subscribe_iff (some q) m = ground arith

pub from_proto_stream_acknowledgement_iff :
    (p : Option Pb.StreamAcknowledgement) (m : StreamAcknowledgement)
    → (from_proto_stream_acknowledgement p ≡ (m, none))
      ↔ ((validate_acknowledgement m ≡ none) × (p ≡ some (proto_stream_acknowledgement m)))
unfolding from_proto_stream_acknowledgement proto_stream_acknowledgement
from_proto_stream_acknowledgement_iff none m = ground arith
from_proto_stream_acknowledgement_iff (some q) m = ground arith

pub from_proto_stream_checkpoint_iff :
    (p : Option Pb.StreamCheckpoint) (m : StreamCheckpoint)
    → (from_proto_stream_checkpoint p ≡ (m, none))
      ↔ ((validate_checkpoint m ≡ none) × (p ≡ some (proto_stream_checkpoint m)))
unfolding from_proto_stream_checkpoint proto_stream_checkpoint
from_proto_stream_checkpoint_iff none m = ground arith
from_proto_stream_checkpoint_iff (some q) m = ground arith

pub from_proto_replay_request_iff :
    (p : Option Pb.ReplayRequest) (m : ReplayRequest)
    → (from_proto_replay_request p ≡ (m, none))
      ↔ ((validate_replay_request m ≡ none) × (p ≡ some (proto_replay_request m)))
unfolding from_proto_replay_request proto_replay_request
from_proto_replay_request_iff none m = ground arith
from_proto_replay_request_iff (some q) m = ground arith

pub from_proto_replay_unavailable_iff :
    (p : Option Pb.ReplayUnavailable) (m : ReplayUnavailable)
    → (from_proto_replay_unavailable p ≡ (m, none))
      ↔ ((validate_replay_unavailable m ≡ none) × (p ≡ some (proto_replay_unavailable m)))
unfolding from_proto_replay_unavailable proto_replay_unavailable
from_proto_replay_unavailable_iff none m = ground arith
from_proto_replay_unavailable_iff (some q) m = ground arith

pub from_proto_invalidate_confirm_iff :
    (p : Option Pb.InvalidateConfirm) (m : InvalidateConfirm)
    → (from_proto_invalidate_confirm p ≡ (m, none))
      ↔ ((validate_confirm m ≡ none) × (p ≡ some (proto_invalidate_confirm m)))
unfolding from_proto_invalidate_confirm proto_invalidate_confirm
from_proto_invalidate_confirm_iff none m = ground arith
from_proto_invalidate_confirm_iff (some q) m = ground arith
