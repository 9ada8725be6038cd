-- ===== src/Control/Convert/FromProto.antt =====
-- The messages of internal/control/convert.go, from protobuf. A conversion answers a value and an
-- error; beside the error of the final validation stands the converted value.
use gossipcache.Common.{Option, none, some, List, [], ◌∷◌, ◌++◌}
use gossipcache.Errors.{Check, of_control, Result, ok, err, ◌>>=◌, conclude}
use gossipcache.Errors.{invalid_message}
use gossipcache.Wire.Requests.{copy_bytes}
use gossipcache.Control.Session.{
  StreamWatermark, Hello, validate_hello, Subscribe, validate_subscribe,
}
use gossipcache.Control.Batch.{InvalidationEvent, InvalidationBatch, validate_batch}
use gossipcache.Control.Delivery.{
  StreamAcknowledgement, validate_acknowledgement, StreamCheckpoint, validate_checkpoint,
  ReplayRequest, validate_replay_request, ReplayUnavailable, validate_replay_unavailable,
  InvalidateConfirm, validate_confirm, ControlError, validate_control_error,
}
use gossipcache.Pb
use gossipcache.Control.Convert.Values.{
  mutation_id_from_proto, record_kind_from_proto, status_from_proto, protocol_version_from_uint32,
  version_from_proto,
}

-- The loop of `FromProtoHello`, which appends to `out`.
unfoldable pub from_proto_watermarks :
    List StreamWatermark → List (Option Pb.StreamWatermark) → Result (List StreamWatermark)
from_proto_watermarks out [] = ok out
from_proto_watermarks out (none ∷ subscriptions) = err (of_control invalid_message)
from_proto_watermarks out (some s ∷ subscriptions) =
    from_proto_watermarks
      (out
        ++ (record {
          stream_id = s.stream_id;
          applied_through = s.applied_through;
          hub_generation = s.hub_generation;
        }
            ∷ []))
      subscriptions

abbrev pub zero_hello : Hello
zero_hello = record {
  node_id = 0;
  protocol = record { version = 0; min_supported = 0 };
  subscriptions = [];
  cluster_id = "";
  expected_hub_generation = 0;
}

unfoldable pub from_proto_hello : Option Pb.Hello → Hello × Check
from_proto_hello none = (zero_hello, some (of_control invalid_message))
from_proto_hello (some m) = conclude zero_hello validate_hello (do
  version ← protocol_version_from_uint32 m.protocol_version
  minimum ← protocol_version_from_uint32 m.min_supported_version
  subscriptions ← from_proto_watermarks [] m.subscriptions
  ok (record {
    node_id = m.node_id;
    protocol = record { version = version; min_supported = minimum };
    subscriptions = subscriptions;
    cluster_id = m.cluster_id;
    expected_hub_generation = m.expected_hub_generation;
  }))

unfoldable pub from_proto_subscribe : Option Pb.Subscribe → Subscribe × Check
from_proto_subscribe none =
    (record { hub_generation = 0; stream_ids = [] }, some (of_control invalid_message))
from_proto_subscribe (some m) =
    let out : Subscribe = record {
      hub_generation = m.hub_generation;
      stream_ids = copy_bytes m.stream_ids;
    } in
    (out, validate_subscribe out)

-- The body of the loop of `FromProtoInvalidationBatch`.
unfoldable pub event_from_proto : Option Pb.InvalidationEvent → Result InvalidationEvent
event_from_proto none = err (of_control invalid_message)
event_from_proto (some e) = do
  id ← mutation_id_from_proto e.mutation_id
  kind ← record_kind_from_proto e.kind
  ok (record {
    stream_sequence = e.stream_sequence;
    key = copy_bytes e.key;
    version = version_from_proto e.version;
    kind = kind;
    mutation_id = id;
  })

-- The loop, which appends to `out`.
unfoldable pub from_proto_events :
    List InvalidationEvent → List (Option Pb.InvalidationEvent) → Result (List InvalidationEvent)
from_proto_events out [] = ok out
from_proto_events out (p ∷ events) = elim (event_from_proto p) [
  | ok e ↦ from_proto_events (out ++ (e ∷ [])) events
  | err x ↦ err x
]

abbrev pub zero_batch : InvalidationBatch
zero_batch = record { stream_id = 0; hub_generation = 0; events = [] }

unfoldable pub from_proto_invalidation_batch :
    Option Pb.InvalidationBatch → InvalidationBatch × Check
from_proto_invalidation_batch none = (zero_batch, some (of_control invalid_message))
from_proto_invalidation_batch (some m) = conclude zero_batch validate_batch (do
  events ← from_proto_events [] m.events
  ok (record { stream_id = m.stream_id; hub_generation = m.hub_generation; events = events }))

unfoldable pub from_proto_stream_acknowledgement :
    Option Pb.StreamAcknowledgement → StreamAcknowledgement × Check
from_proto_stream_acknowledgement none =
    (record { stream_id = 0; applied_through = 0 }, some (of_control invalid_message))
from_proto_stream_acknowledgement (some m) =
    let out : StreamAcknowledgement = record {
      stream_id = m.stream_id;
      applied_through = m.applied_through;
    } in
    (out, validate_acknowledgement out)

unfoldable pub from_proto_stream_checkpoint : Option Pb.StreamCheckpoint → StreamCheckpoint × Check
from_proto_stream_checkpoint none = (
  record { stream_id = 0; hub_generation = 0; stream_head = 0 },
  some (of_control invalid_message),
)
from_proto_stream_checkpoint (some m) =
    let out : StreamCheckpoint = record {
      stream_id = m.stream_id;
      hub_generation = m.hub_generation;
      stream_head = m.stream_head;
    } in
    (out, validate_checkpoint out)

unfoldable pub from_proto_replay_request : Option Pb.ReplayRequest → ReplayRequest × Check
from_proto_replay_request none = (
  record { stream_id = 0; from_sequence = 0; to_sequence = 0 },
  some (of_control invalid_message),
)
from_proto_replay_request (some m) =
    let out : ReplayRequest = record {
      stream_id = m.stream_id;
      from_sequence = m.from_sequence;
      to_sequence = m.to_sequence;
    } in
    (out, validate_replay_request out)

unfoldable pub from_proto_replay_unavailable :
    Option Pb.ReplayUnavailable → ReplayUnavailable × Check
from_proto_replay_unavailable none = (
  record {
    stream_id = 0;
    hub_generation = 0;
    requested_from = 0;
    oldest_available = 0;
    stream_head = 0;
  },
  some (of_control invalid_message),
)
from_proto_replay_unavailable (some m) =
    let out : ReplayUnavailable = record {
      stream_id = m.stream_id;
      hub_generation = m.hub_generation;
      requested_from = m.requested_from;
      oldest_available = m.oldest_available;
      stream_head = m.stream_head;
    } in
    (out, validate_replay_unavailable out)

unfoldable pub from_proto_invalidate_confirm :
    Option Pb.InvalidateConfirm → InvalidateConfirm × Check
from_proto_invalidate_confirm none =
    (record { stream_id = 0; stream_sequence = 0; node_id = 0 }, some (of_control invalid_message))
from_proto_invalidate_confirm (some m) =
    let out : InvalidateConfirm = record {
      stream_id = m.stream_id;
      stream_sequence = m.stream_sequence;
      node_id = m.node_id;
    } in
    (out, validate_confirm out)

abbrev pub zero_control_error : ControlError
zero_control_error = record { status = 0; detail = "" }

unfoldable pub from_proto_control_error : Option Pb.ControlError → ControlError × Check
from_proto_control_error none = (zero_control_error, some (of_control invalid_message))
from_proto_control_error (some m) =
    conclude zero_control_error validate_control_error
      (do status ← status_from_proto m.status; ok (record { status = status; detail = m.detail }))
