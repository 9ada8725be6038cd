-- ===== src/Control/Transfer/Envelope/Client.antt =====
-- Every message of a node to a hub, through both conversions of internal/control/convert.go.
use gossipcache.Common.{◌≡◌, refl, ap, Option, none, some}
use gossipcache.Errors.{ok}
use gossipcache.Control.Convert.Envelope.{ClientValue}
use gossipcache.Control.Convert.ToProto.{
  proto_stream_acknowledgement, proto_replay_request, proto_invalidate_confirm,
}
use gossipcache.Control.Convert.Messages.{
  from_proto_stream_acknowledgement_iff, from_proto_replay_request_iff,
  from_proto_invalidate_confirm_iff,
}
use gossipcache.Control.Convert.Streams.{IsClientPayload}
use gossipcache.Control.Clones.{read_hello}
use gossipcache.Control.Transfer.Sessions.Greeting.{from_proto-proto_hello_in}
use gossipcache.Control.Transfer.Sessions.Subscription.{from_proto-proto_subscribe_in}
use gossipcache.Control.Transfer.Envelope.{
  ClientMemory, WritesBehindClient, HeldClientValue, HeldClientArgument, HeldClientMessage,
  read_client, client_body_in, proto_client_message_in, from_proto_client_body_in,
  from_proto_client_message_in,
}
use mathlib.Core.Option

client_body_in-delivered :
    (s : ClientMemory) (v : HeldClientValue) (u w : ClientMemory)
    → IsClientPayload (read_client s v)
    → WritesBehindClient s (client_body_in s v).0 u
    → WritesBehindClient u (from_proto_client_body_in u (some (client_body_in s v).1)).0 w
    → (Option.map (read_client w) (from_proto_client_body_in u (some (client_body_in s v).1)).1
        ≡ some (read_client s v))
      × ((from_proto_client_body_in u (some (client_body_in s v).1)).2 ≡ none)
unfolding client_body_in from_proto_client_body_in read_client
client_body_in-delivered s (HeldClientValue.hello m) u w (valid, version, minimum) sent received =
    let (same, clean) =
      from_proto-proto_hello_in s.hello m u.hello w.hello valid (unfold read_hello in version)
        (unfold read_hello in minimum) sent.hello received.hello in
    (ap (λ x. some (ClientValue.hello x)) same, clean)
client_body_in-delivered s (HeldClientValue.subscribe m) u w valid sent received =
    let (same, clean) =
      from_proto-proto_subscribe_in s.ids m u.ids w.ids valid sent.ids received.ids in
    (ap (λ x. some (ClientValue.subscribe x)) same, clean)
client_body_in-delivered s (HeldClientValue.stream_acknowledgement m) u w valid sent received =
    let read =
      (from_proto_stream_acknowledgement_iff (some (proto_stream_acknowledgement m)) m).1
        (valid, refl) in
    (ap (λ x. some (ClientValue.stream_acknowledgement x.0)) read, ap (λ x. x.1) read)
client_body_in-delivered s (HeldClientValue.replay_request m) u w valid sent received =
    let read = (from_proto_replay_request_iff (some (proto_replay_request m)) m).1 (valid, refl) in
    (ap (λ x. some (ClientValue.replay_request x.0)) read, ap (λ x. x.1) read)
client_body_in-delivered s (HeldClientValue.invalidate_confirm m) u w valid sent received =
    let read =
      (from_proto_invalidate_confirm_iff (some (proto_invalidate_confirm m)) m).1 (valid, refl) in
    (ap (λ x. some (ClientValue.invalidate_confirm x.0)) read, ap (λ x. x.1) read)

-- The payload of an argument that has one.
abbrev pub payload : HeldClientArgument → Option HeldClientValue
payload (HeldClientArgument.value v) = some v
payload (HeldClientArgument.pointer v) = some v
payload HeldClientArgument.nil_pointer = none
payload HeldClientArgument.other = none

proto_client_message_in-payload :
    (s : ClientMemory) (argument : HeldClientArgument) (v : HeldClientValue)
    → payload argument ≡ some v
    → proto_client_message_in s argument
      ≡ ((client_body_in s v).0, ok (record { body = some (client_body_in s v).1 }))
unfolding proto_client_message_in
proto_client_message_in-payload s (HeldClientArgument.value x) v e = cc
proto_client_message_in-payload s (HeldClientArgument.pointer x) v e = cc
proto_client_message_in-payload s HeldClientArgument.nil_pointer v e = cc
proto_client_message_in-payload s HeldClientArgument.other v e = cc

-- A node wraps a valid payload `v`, given by value or by pointer, in a message, and then the arrays
-- and messages that were there before are written. A hub reads the message, and then what was there
-- before is written, the arrays of the message too. The hub holds the payload as it was at
-- first, with no error.
pub from_proto-proto_client_message_in :
    (s : ClientMemory) (argument : HeldClientArgument) (v : HeldClientValue) (p : HeldClientMessage)
    (u w : ClientMemory)
    → payload argument ≡ some v
    → IsClientPayload (read_client s v)
    → (proto_client_message_in s argument).1 ≡ ok p
    → WritesBehindClient s (proto_client_message_in s argument).0 u
    → WritesBehindClient u (from_proto_client_message_in u (some p)).0 w
    → (Option.map (read_client w) (from_proto_client_message_in u (some p)).1
        ≡ some (read_client s v))
      × ((from_proto_client_message_in u (some p)).2 ≡ none)
unfolding from_proto_client_message_in
from_proto-proto_client_message_in s argument v p u w has valid made sent received =
    let wrapped = proto_client_message_in-payload s argument v has in
    let body : p.body ≡ some (client_body_in s v).1 = cc in
    let sent' : WritesBehindClient s (client_body_in s v).0 u = rw wrapped at sent in
    let received' : WritesBehindClient u
        (from_proto_client_body_in u (some (client_body_in s v).1)).0 w =
      rw body at received in
    rw body (client_body_in-delivered s v u w valid sent' received')
