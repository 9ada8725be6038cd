-- ===== src/Control/Convert/Envelope.antt =====
-- The stream envelopes of internal/control/convert.go. The parameter `body any` of a wrapper is a
-- value of `ClientArgument` or `ServerArgument`: one of the types of its `switch`, by value or by
-- pointer, or some other type.
use gossipcache.Common.{Option, none, some}
use gossipcache.Errors.{Check, of_control, Result, ok, err, invalid_message}
use gossipcache.Control.Session.{Hello, Subscribe}
use gossipcache.Control.Batch.{InvalidationBatch}
use gossipcache.Control.Delivery.{
  StreamAcknowledgement, StreamCheckpoint, ReplayRequest, ReplayUnavailable, InvalidateConfirm,
  ControlError,
}
use gossipcache.Control.Convert.ToProto.{
  proto_hello, proto_subscribe, proto_stream_acknowledgement, proto_replay_request,
  proto_invalidate_confirm, proto_invalidation_batch, proto_stream_checkpoint,
  proto_replay_unavailable, proto_control_error,
}
use gossipcache.Control.Convert.FromProto.{
  from_proto_hello, from_proto_subscribe, from_proto_stream_acknowledgement,
  from_proto_replay_request, from_proto_invalidate_confirm, from_proto_invalidation_batch,
  from_proto_stream_checkpoint, from_proto_replay_unavailable, from_proto_control_error,
}
use gossipcache.Pb

pub data ClientArgument : Type 0 where
  hello : Hello → ClientArgument
  hello_pointer : Option Hello → ClientArgument
  subscribe : Subscribe → ClientArgument
  subscribe_pointer : Option Subscribe → ClientArgument
  stream_acknowledgement : StreamAcknowledgement → ClientArgument
  stream_acknowledgement_pointer : Option StreamAcknowledgement → ClientArgument
  replay_request : ReplayRequest → ClientArgument
  replay_request_pointer : Option ReplayRequest → ClientArgument
  invalidate_confirm : InvalidateConfirm → ClientArgument
  invalidate_confirm_pointer : Option InvalidateConfirm → ClientArgument
  other : ClientArgument

abbrev client : Pb.ClientBody → Result Pb.ControlClientMessage
client body = ok (record { body = some body })

unfoldable pub proto_client_message : ClientArgument → Result Pb.ControlClientMessage
proto_client_message (hello v) = client (Pb.ClientBody.hello (some (proto_hello v)))
proto_client_message (hello_pointer none) = err (of_control invalid_message)
proto_client_message (hello_pointer (some v)) = client (Pb.ClientBody.hello (some (proto_hello v)))
proto_client_message (subscribe v) = client (Pb.ClientBody.subscribe (some (proto_subscribe v)))
proto_client_message (subscribe_pointer none) = err (of_control invalid_message)
proto_client_message (subscribe_pointer (some v)) =
    client (Pb.ClientBody.subscribe (some (proto_subscribe v)))
proto_client_message (stream_acknowledgement v) =
    client (Pb.ClientBody.stream_acknowledgement (some (proto_stream_acknowledgement v)))
proto_client_message (stream_acknowledgement_pointer none) = err (of_control invalid_message)
proto_client_message (stream_acknowledgement_pointer (some v)) =
    client (Pb.ClientBody.stream_acknowledgement (some (proto_stream_acknowledgement v)))
proto_client_message (replay_request v) =
    client (Pb.ClientBody.replay_request (some (proto_replay_request v)))
proto_client_message (replay_request_pointer none) = err (of_control invalid_message)
proto_client_message (replay_request_pointer (some v)) =
    client (Pb.ClientBody.replay_request (some (proto_replay_request v)))
proto_client_message (invalidate_confirm v) =
    client (Pb.ClientBody.invalidate_confirm (some (proto_invalidate_confirm v)))
proto_client_message (invalidate_confirm_pointer none) = err (of_control invalid_message)
proto_client_message (invalidate_confirm_pointer (some v)) =
    client (Pb.ClientBody.invalidate_confirm (some (proto_invalidate_confirm v)))
proto_client_message other = err (of_control invalid_message)

pub data ServerArgument : Type 0 where
  invalidation_batch : InvalidationBatch → ServerArgument
  invalidation_batch_pointer : Option InvalidationBatch → ServerArgument
  stream_checkpoint : StreamCheckpoint → ServerArgument
  stream_checkpoint_pointer : Option StreamCheckpoint → ServerArgument
  replay_unavailable : ReplayUnavailable → ServerArgument
  replay_unavailable_pointer : Option ReplayUnavailable → ServerArgument
  control_error : ControlError → ServerArgument
  control_error_pointer : Option ControlError → ServerArgument
  other : ServerArgument

abbrev server : Pb.ServerBody → Result Pb.ControlServerMessage
server body = ok (record { body = some body })

unfoldable pub proto_server_message : ServerArgument → Result Pb.ControlServerMessage
proto_server_message (invalidation_batch v) =
    server (Pb.ServerBody.invalidation_batch (some (proto_invalidation_batch v)))
proto_server_message (invalidation_batch_pointer none) = err (of_control invalid_message)
proto_server_message (invalidation_batch_pointer (some v)) =
    server (Pb.ServerBody.invalidation_batch (some (proto_invalidation_batch v)))
proto_server_message (stream_checkpoint v) =
    server (Pb.ServerBody.stream_checkpoint (some (proto_stream_checkpoint v)))
proto_server_message (stream_checkpoint_pointer none) = err (of_control invalid_message)
proto_server_message (stream_checkpoint_pointer (some v)) =
    server (Pb.ServerBody.stream_checkpoint (some (proto_stream_checkpoint v)))
proto_server_message (replay_unavailable v) =
    server (Pb.ServerBody.replay_unavailable (some (proto_replay_unavailable v)))
proto_server_message (replay_unavailable_pointer none) = err (of_control invalid_message)
proto_server_message (replay_unavailable_pointer (some v)) =
    server (Pb.ServerBody.replay_unavailable (some (proto_replay_unavailable v)))
proto_server_message (control_error v) =
    server (Pb.ServerBody.control_error (some (proto_control_error v)))
proto_server_message (control_error_pointer none) = err (of_control invalid_message)
proto_server_message (control_error_pointer (some v)) =
    server (Pb.ServerBody.control_error (some (proto_control_error v)))
proto_server_message ServerArgument.other = err (of_control invalid_message)

-- The value in the `any` that comes back; a nil `any` is `none`.
pub data ClientValue : Type 0 where
  hello : Hello → ClientValue
  subscribe : Subscribe → ClientValue
  stream_acknowledgement : StreamAcknowledgement → ClientValue
  replay_request : ReplayRequest → ClientValue
  invalidate_confirm : InvalidateConfirm → ClientValue

pub data ServerValue : Type 0 where
  invalidation_batch : InvalidationBatch → ServerValue
  stream_checkpoint : StreamCheckpoint → ServerValue
  replay_unavailable : ReplayUnavailable → ServerValue
  control_error : ControlError → ServerValue

-- A pair of a value and an error, with the value put into an `any`.
abbrev pub boxed : {A B : Type 0} → (A → B) → A × Check → Option B × Check
boxed box (a, e) = (some (box a), e)

unfoldable pub from_proto_client_body : Option Pb.ClientBody → Option ClientValue × Check
from_proto_client_body none = (none, some (of_control invalid_message))
from_proto_client_body (some (Pb.ClientBody.hello m)) = boxed ClientValue.hello (from_proto_hello m)
from_proto_client_body (some (Pb.ClientBody.subscribe m)) =
    boxed ClientValue.subscribe (from_proto_subscribe m)
from_proto_client_body (some (Pb.ClientBody.stream_acknowledgement m)) =
    boxed ClientValue.stream_acknowledgement (from_proto_stream_acknowledgement m)
from_proto_client_body (some (Pb.ClientBody.replay_request m)) =
    boxed ClientValue.replay_request (from_proto_replay_request m)
from_proto_client_body (some (Pb.ClientBody.invalidate_confirm m)) =
    boxed ClientValue.invalidate_confirm (from_proto_invalidate_confirm m)

unfoldable pub from_proto_client_message :
    Option Pb.ControlClientMessage → Option ClientValue × Check
unfolding from_proto_client_body
from_proto_client_message none = (none, some (of_control invalid_message))
from_proto_client_message (some m) = from_proto_client_body m.body

unfoldable pub from_proto_server_body : Option Pb.ServerBody → Option ServerValue × Check
from_proto_server_body none = (none, some (of_control invalid_message))
from_proto_server_body (some (Pb.ServerBody.invalidation_batch m)) =
    boxed ServerValue.invalidation_batch (from_proto_invalidation_batch m)
from_proto_server_body (some (Pb.ServerBody.stream_checkpoint m)) =
    boxed ServerValue.stream_checkpoint (from_proto_stream_checkpoint m)
from_proto_server_body (some (Pb.ServerBody.replay_unavailable m)) =
    boxed ServerValue.replay_unavailable (from_proto_replay_unavailable m)
from_proto_server_body (some (Pb.ServerBody.control_error m)) =
    boxed ServerValue.control_error (from_proto_control_error m)

unfoldable pub from_proto_server_message :
    Option Pb.ControlServerMessage → Option ServerValue × Check
unfolding from_proto_server_body
from_proto_server_message none = (none, some (of_control invalid_message))
from_proto_server_message (some m) = from_proto_server_body m.body
