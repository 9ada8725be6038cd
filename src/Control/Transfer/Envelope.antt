-- ===== src/Control/Transfer/Envelope.antt =====
-- The envelope of a client's stream, of internal/control/convert.go, over the arrays that the
-- payloads and the messages hold.
pub mod Client
mod Tests
use gossipcache.Common.{ℕ, Option, none, some, length}
use gossipcache.Errors.{Check, Result, ok, err, of_control, invalid_message}
use gossipcache.Ownership.{Store, Writes, Old}
use gossipcache.Pb
use gossipcache.Control.Delivery.{StreamAcknowledgement, ReplayRequest, InvalidateConfirm}
use gossipcache.Control.Clones.{HeldHello, read_hello, HeldSubscribe, read_subscribe}
use gossipcache.Control.Convert.ToProto.{
  proto_stream_acknowledgement, proto_replay_request, proto_invalidate_confirm,
}
use gossipcache.Control.Convert.FromProto.{
  from_proto_stream_acknowledgement, from_proto_replay_request, from_proto_invalidate_confirm,
}
use gossipcache.Control.Convert.Envelope.{ClientValue}
use gossipcache.Control.Transfer.Sessions.{
  HelloMemory, WritesBehind, HeldPbHello, proto_subscribe_in, from_proto_subscribe_in,
  proto_hello_in, from_proto_hello_in,
}

-- The arrays of stream ids, and those of a hello.
pub record ClientMemory : Type 0 where
  pub ids : Store ℕ
  pub hello : HelloMemory

-- A program runs on from `t` to `u` and writes only what was there in `s`.
pub record WritesBehindClient (s t u : ClientMemory) : Type 0 where
  pub ids : Writes (Old (length s.ids)) t.ids u.ids
  pub hello : WritesBehind s.hello t.hello u.hello

-- The payload of a client. Three of the five have no slices.
pub data HeldClientValue : Type 0 where
  hello : HeldHello → HeldClientValue
  subscribe : HeldSubscribe → HeldClientValue
  stream_acknowledgement : StreamAcknowledgement → HeldClientValue
  replay_request : ReplayRequest → HeldClientValue
  invalidate_confirm : InvalidateConfirm → HeldClientValue

unfoldable pub read_client : ClientMemory → HeldClientValue → ClientValue
read_client s (HeldClientValue.hello m) = ClientValue.hello (read_hello s.hello.marks m)
read_client s (HeldClientValue.subscribe m) = ClientValue.subscribe (read_subscribe s.ids m)
read_client s (HeldClientValue.stream_acknowledgement m) = ClientValue.stream_acknowledgement m
read_client s (HeldClientValue.replay_request m) = ClientValue.replay_request m
read_client s (HeldClientValue.invalidate_confirm m) = ClientValue.invalidate_confirm m

-- An argument of the wrapper: a payload, by value or by a pointer to it; a pointer of one of the
-- five types that is nil; or a value of some other type.
pub data HeldClientArgument : Type 0 where
  value : HeldClientValue → HeldClientArgument
  pointer : HeldClientValue → HeldClientArgument
  nil_pointer : HeldClientArgument
  other : HeldClientArgument

-- A variant of a body holds a pointer, which may be nil; a message without a body has none.
pub data HeldClientBody : Type 0 where
  hello : Option HeldPbHello → HeldClientBody
  subscribe : Option HeldSubscribe → HeldClientBody
  stream_acknowledgement : Option Pb.StreamAcknowledgement → HeldClientBody
  replay_request : Option Pb.ReplayRequest → HeldClientBody
  invalidate_confirm : Option Pb.InvalidateConfirm → HeldClientBody

pub record HeldClientMessage : Type 0 where
  pub body : Option HeldClientBody

-- The cases of a payload of `ProtoClientMessage`.
unfoldable pub client_body_in : ClientMemory → HeldClientValue → ClientMemory × HeldClientBody
client_body_in s (HeldClientValue.hello m) =
    let out = proto_hello_in s.hello m in
    (record s { hello = out.0 }, HeldClientBody.hello (some out.1))
client_body_in s (HeldClientValue.subscribe m) =
    let out = proto_subscribe_in s.ids m in
    (record s { ids = out.0 }, HeldClientBody.subscribe (some out.1))
client_body_in s (HeldClientValue.stream_acknowledgement m) =
    (s, HeldClientBody.stream_acknowledgement (some (proto_stream_acknowledgement m)))
client_body_in s (HeldClientValue.replay_request m) =
    (s, HeldClientBody.replay_request (some (proto_replay_request m)))
client_body_in s (HeldClientValue.invalidate_confirm m) =
    (s, HeldClientBody.invalidate_confirm (some (proto_invalidate_confirm m)))

-- `ProtoClientMessage`
unfoldable pub proto_client_message_in :
    ClientMemory → HeldClientArgument → ClientMemory × Result HeldClientMessage
unfolding client_body_in
proto_client_message_in s (HeldClientArgument.value v) =
    let out = client_body_in s v in (out.0, ok (record { body = some out.1 }))
proto_client_message_in s (HeldClientArgument.pointer v) =
    let out = client_body_in s v in (out.0, ok (record { body = some out.1 }))
proto_client_message_in s HeldClientArgument.nil_pointer = (s, err (of_control invalid_message))
proto_client_message_in s HeldClientArgument.other = (s, err (of_control invalid_message))

-- The cases of `FromProtoClientMessage`.
unfoldable pub from_proto_client_body_in :
    ClientMemory → Option HeldClientBody → ClientMemory × Option HeldClientValue × Check
from_proto_client_body_in s none = (s, none, some (of_control invalid_message))
from_proto_client_body_in s (some (HeldClientBody.hello m)) =
    let (t, v, e) = from_proto_hello_in s.hello m in
    (record s { hello = t }, some (HeldClientValue.hello v), e)
from_proto_client_body_in s (some (HeldClientBody.subscribe m)) =
    let (t, v, e) = from_proto_subscribe_in s.ids m in
    (record s { ids = t }, some (HeldClientValue.subscribe v), e)
from_proto_client_body_in s (some (HeldClientBody.stream_acknowledgement m)) =
    let (v, e) = from_proto_stream_acknowledgement m in
    (s, some (HeldClientValue.stream_acknowledgement v), e)
from_proto_client_body_in s (some (HeldClientBody.replay_request m)) =
    let (v, e) = from_proto_replay_request m in (s, some (HeldClientValue.replay_request v), e)
from_proto_client_body_in s (some (HeldClientBody.invalidate_confirm m)) =
    let (v, e) = from_proto_invalidate_confirm m in
    (s, some (HeldClientValue.invalidate_confirm v), e)

-- `FromProtoClientMessage`
unfoldable pub from_proto_client_message_in :
    ClientMemory → Option HeldClientMessage → ClientMemory × Option HeldClientValue × Check
unfolding from_proto_client_body_in
from_proto_client_message_in s none = (s, none, some (of_control invalid_message))
from_proto_client_message_in s (some m) = from_proto_client_body_in s m.body
