-- ===== src/Control/Convert/Streams.antt =====
-- The envelopes of internal/control/convert.go: a message that one side accepts is what the other
-- side's wrapper makes of a valid payload.
use gossipcache.Common.{◌<◌, ◌^◌, ◌≡◌, ◌↔◌, Option, none, some, All, arith, refl}
use gossipcache.Errors.{ok}
use gossipcache.Control.Session.{validate_hello, validate_subscribe}
use gossipcache.Control.Batch.{validate_batch}
use gossipcache.Control.Delivery.{
  validate_acknowledgement, validate_checkpoint, validate_replay_request,
  validate_replay_unavailable, validate_confirm, validate_control_error,
}
use gossipcache.Pb
use gossipcache.Control.Convert.Messages.{
  HasFullId, from_proto_hello_iff, from_proto_subscribe_iff, from_proto_stream_acknowledgement_iff,
  from_proto_replay_request_iff, from_proto_invalidate_confirm_iff,
  from_proto_invalidation_batch_iff, from_proto_stream_checkpoint_iff,
  from_proto_replay_unavailable_iff, from_proto_control_error_iff,
}
use gossipcache.Control.Convert.Envelope.{
  ClientArgument, ClientValue, ServerArgument, ServerValue, proto_client_message,
  proto_server_message, from_proto_client_body, from_proto_client_message, from_proto_server_body,
  from_proto_server_message,
}

-- The payload of a client, valid and within the fields of the message.
abbrev pub IsClientPayload : ClientValue → Type 0
IsClientPayload (ClientValue.hello m) =
    (validate_hello m ≡ none) × (m.protocol.version < 2 ^ 16) × (m.protocol.min_supported < 2 ^ 16)
IsClientPayload (ClientValue.subscribe m) = validate_subscribe m ≡ none
IsClientPayload (ClientValue.stream_acknowledgement m) = validate_acknowledgement m ≡ none
IsClientPayload (ClientValue.replay_request m) = validate_replay_request m ≡ none
IsClientPayload (ClientValue.invalidate_confirm m) = validate_confirm m ≡ none

-- The payload as an argument of the wrapper, by value and by pointer.
abbrev pub by_value : ClientValue → ClientArgument
by_value (ClientValue.hello m) = ClientArgument.hello m
by_value (ClientValue.subscribe m) = ClientArgument.subscribe m
by_value (ClientValue.stream_acknowledgement m) = ClientArgument.stream_acknowledgement m
by_value (ClientValue.replay_request m) = ClientArgument.replay_request m
by_value (ClientValue.invalidate_confirm m) = ClientArgument.invalidate_confirm m

abbrev pub by_pointer : ClientValue → ClientArgument
by_pointer (ClientValue.hello m) = ClientArgument.hello_pointer (some m)
by_pointer (ClientValue.subscribe m) = ClientArgument.subscribe_pointer (some m)
by_pointer (ClientValue.stream_acknowledgement m) =
    ClientArgument.stream_acknowledgement_pointer (some m)
by_pointer (ClientValue.replay_request m) = ClientArgument.replay_request_pointer (some m)
by_pointer (ClientValue.invalidate_confirm m) = ClientArgument.invalidate_confirm_pointer (some m)

-- The wrapper makes one message of a payload, by value or by pointer.
pub proto_client_message-by_pointer :
    (v : ClientValue) → proto_client_message (by_pointer v) ≡ proto_client_message (by_value v)
unfolding proto_client_message
proto_client_message-by_pointer (ClientValue.hello m) = refl
proto_client_message-by_pointer _ = refl

client_body_iff :
    (b : Option Pb.ClientBody) (v : ClientValue)
    → (from_proto_client_body b ≡ (some v, none))
      ↔ (IsClientPayload v × (proto_client_message (by_value v) ≡ ok (record { body = b })))
unfolding from_proto_client_body proto_client_message
client_body_iff (some (Pb.ClientBody.hello p)) (ClientValue.hello m) =
    ground (arith, from_proto_hello_iff p m)
client_body_iff (some (Pb.ClientBody.subscribe p)) (ClientValue.subscribe m) =
    ground (arith, from_proto_subscribe_iff p m)
client_body_iff (some (Pb.ClientBody.stream_acknowledgement p))
      (ClientValue.stream_acknowledgement m) =
    ground (arith, from_proto_stream_acknowledgement_iff p m)
client_body_iff (some (Pb.ClientBody.replay_request p)) (ClientValue.replay_request m) =
    ground (arith, from_proto_replay_request_iff p m)
client_body_iff (some (Pb.ClientBody.invalidate_confirm p)) (ClientValue.invalidate_confirm m) =
    ground (arith, from_proto_invalidate_confirm_iff p m)
client_body_iff b v = ground arith

-- A hub reads the payload `v` from a client's message exactly when `v` is valid and the message is
-- the one that the client's wrapper makes of it.
pub from_proto_client_message_iff :
    (p : Pb.ControlClientMessage) (v : ClientValue)
    → (from_proto_client_message (some p) ≡ (some v, none))
      ↔ (IsClientPayload v × (proto_client_message (by_value v) ≡ ok p))
unfolding from_proto_client_message
from_proto_client_message_iff p v = client_body_iff p.body v

-- The payload of a hub.
abbrev pub IsServerPayload : ServerValue → Type 0
IsServerPayload (ServerValue.invalidation_batch m) =
    (validate_batch m ≡ none) × All HasFullId m.events
IsServerPayload (ServerValue.stream_checkpoint m) = validate_checkpoint m ≡ none
IsServerPayload (ServerValue.replay_unavailable m) = validate_replay_unavailable m ≡ none
IsServerPayload (ServerValue.control_error m) = validate_control_error m ≡ none

abbrev pub server_by_value : ServerValue → ServerArgument
server_by_value (ServerValue.invalidation_batch m) = ServerArgument.invalidation_batch m
server_by_value (ServerValue.stream_checkpoint m) = ServerArgument.stream_checkpoint m
server_by_value (ServerValue.replay_unavailable m) = ServerArgument.replay_unavailable m
server_by_value (ServerValue.control_error m) = ServerArgument.control_error m

server_body_iff :
    (b : Option Pb.ServerBody) (v : ServerValue)
    → (from_proto_server_body b ≡ (some v, none))
      ↔ (IsServerPayload v × (proto_server_message (server_by_value v) ≡ ok (record { body = b })))
unfolding from_proto_server_body proto_server_message
server_body_iff (some (Pb.ServerBody.invalidation_batch p)) (ServerValue.invalidation_batch m) =
    ground (arith, from_proto_invalidation_batch_iff m p)
server_body_iff (some (Pb.ServerBody.stream_checkpoint p)) (ServerValue.stream_checkpoint m) =
    ground (arith, from_proto_stream_checkpoint_iff p m)
server_body_iff (some (Pb.ServerBody.replay_unavailable p)) (ServerValue.replay_unavailable m) =
    ground (arith, from_proto_replay_unavailable_iff p m)
server_body_iff (some (Pb.ServerBody.control_error p)) (ServerValue.control_error m) =
    ground (arith, from_proto_control_error_iff p m)
server_body_iff b v = ground arith

-- A node reads the payload `v` from a hub's message exactly when `v` is valid and the message is
-- the one that the hub's wrapper makes of it.
pub from_proto_server_message_iff :
    (p : Pb.ControlServerMessage) (v : ServerValue)
    → (from_proto_server_message (some p) ≡ (some v, none))
      ↔ (IsServerPayload v × (proto_server_message (server_by_value v) ≡ ok p))
unfolding from_proto_server_message
from_proto_server_message_iff p v = server_body_iff p.body v
