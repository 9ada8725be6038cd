-- ===== src/Control/Transfer/ServerEnvelope.antt =====
-- The envelope of a hub's stream, of internal/control/convert.go, over the arrays that the payloads
-- and the messages hold.
pub mod Hub
mod Tests
use gossipcache.Common.{Option, none, some}
use gossipcache.Errors.{Check, Result, ok, err, of_control, invalid_message}
use gossipcache.Pb
use gossipcache.Control.Delivery.{StreamCheckpoint, ReplayUnavailable, ControlError}
use gossipcache.Control.Clones.{Memory, HeldBatch, read_batch}
use gossipcache.Control.Convert.ToProto.{
  proto_stream_checkpoint, proto_replay_unavailable, proto_control_error,
}
use gossipcache.Control.Convert.FromProto.{
  zero_batch, from_proto_stream_checkpoint, from_proto_replay_unavailable, from_proto_control_error,
}
use gossipcache.Control.Convert.Envelope.{ServerValue}
use gossipcache.Control.Transfer.{
  HeldPbBatch, proto_invalidation_batch_in, from_proto_invalidation_batch_in,
}

-- The payload of a hub. Only a batch has slices.
pub data HeldServerValue : Type 0 where
  invalidation_batch : HeldBatch → HeldServerValue
  stream_checkpoint : StreamCheckpoint → HeldServerValue
  replay_unavailable : ReplayUnavailable → HeldServerValue
  control_error : ControlError → HeldServerValue

unfoldable pub read_server : Memory → HeldServerValue → ServerValue
read_server s (HeldServerValue.invalidation_batch m) =
    ServerValue.invalidation_batch (read_batch s m)
read_server s (HeldServerValue.stream_checkpoint m) = ServerValue.stream_checkpoint m
read_server s (HeldServerValue.replay_unavailable m) = ServerValue.replay_unavailable m
read_server s (HeldServerValue.control_error m) = ServerValue.control_error m

-- An argument of the wrapper, as of the client's.
pub data HeldServerArgument : Type 0 where
  value : HeldServerValue → HeldServerArgument
  pointer : HeldServerValue → HeldServerArgument
  nil_pointer : HeldServerArgument
  other : HeldServerArgument

pub data HeldServerBody : Type 0 where
  invalidation_batch : Option HeldPbBatch → HeldServerBody
  stream_checkpoint : Option Pb.StreamCheckpoint → HeldServerBody
  replay_unavailable : Option Pb.ReplayUnavailable → HeldServerBody
  control_error : Option Pb.ControlError → HeldServerBody

pub record HeldServerMessage : Type 0 where
  pub body : Option HeldServerBody

-- The cases of a payload of `ProtoServerMessage`.
unfoldable pub server_body_in : Memory → HeldServerValue → Memory × HeldServerBody
server_body_in s (HeldServerValue.invalidation_batch m) =
    let out = proto_invalidation_batch_in s m in
    (record s { bytes = out.0 }, HeldServerBody.invalidation_batch (some out.1))
server_body_in s (HeldServerValue.stream_checkpoint m) =
    (s, HeldServerBody.stream_checkpoint (some (proto_stream_checkpoint m)))
server_body_in s (HeldServerValue.replay_unavailable m) =
    (s, HeldServerBody.replay_unavailable (some (proto_replay_unavailable m)))
server_body_in s (HeldServerValue.control_error m) =
    (s, HeldServerBody.control_error (some (proto_control_error m)))

-- `ProtoServerMessage`
unfoldable pub proto_server_message_in :
    Memory → HeldServerArgument → Memory × Result HeldServerMessage
unfolding server_body_in
proto_server_message_in s (HeldServerArgument.value v) =
    let out = server_body_in s v in (out.0, ok (record { body = some out.1 }))
proto_server_message_in s (HeldServerArgument.pointer v) =
    let out = server_body_in s v in (out.0, ok (record { body = some out.1 }))
proto_server_message_in s HeldServerArgument.nil_pointer = (s, err (of_control invalid_message))
proto_server_message_in s HeldServerArgument.other = (s, err (of_control invalid_message))

-- The cases of `FromProtoServerMessage`.
unfoldable pub from_proto_server_body_in :
    Memory → Option HeldServerBody → Memory × Option HeldServerValue × Check
from_proto_server_body_in s none = (s, none, some (of_control invalid_message))
from_proto_server_body_in s (some (HeldServerBody.invalidation_batch m)) =
    let (t, v, e) = from_proto_invalidation_batch_in s m in
    (t, some (HeldServerValue.invalidation_batch v), e)
from_proto_server_body_in s (some (HeldServerBody.stream_checkpoint m)) =
    let (v, e) = from_proto_stream_checkpoint m in
    (s, some (HeldServerValue.stream_checkpoint v), e)
from_proto_server_body_in s (some (HeldServerBody.replay_unavailable m)) =
    let (v, e) = from_proto_replay_unavailable m in
    (s, some (HeldServerValue.replay_unavailable v), e)
from_proto_server_body_in s (some (HeldServerBody.control_error m)) =
    let (v, e) = from_proto_control_error m in (s, some (HeldServerValue.control_error v), e)

-- `FromProtoServerMessage`
unfoldable pub from_proto_server_message_in :
    Memory → Option HeldServerMessage → Memory × Option HeldServerValue × Check
unfolding from_proto_server_body_in
from_proto_server_message_in s none = (s, none, some (of_control invalid_message))
from_proto_server_message_in s (some m) = from_proto_server_body_in s m.body
