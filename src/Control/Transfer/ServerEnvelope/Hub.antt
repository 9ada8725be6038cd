-- ===== src/Control/Transfer/ServerEnvelope/Hub.antt =====
-- Every message of a hub to a node, through both conversions of internal/control/convert.go.
use gossipcache.Common.{◌≡◌, refl, ap, Option, none, some, length, All}
use gossipcache.Errors.{ok}
use gossipcache.Ownership.{Writes, Old, contents}
use gossipcache.Control.Convert.Envelope.{ServerValue}
use gossipcache.Control.Convert.ToProto.{
  proto_stream_checkpoint, proto_replay_unavailable, proto_control_error,
}
use gossipcache.Control.Convert.Messages.{
  from_proto_stream_checkpoint_iff, from_proto_replay_unavailable_iff, from_proto_control_error_iff,
}
use gossipcache.Control.Convert.Streams.{IsServerPayload}
use gossipcache.Control.Clones.{Memory}
use gossipcache.Control.Clones.Independence.{HasHeldKey}
use gossipcache.Control.Transfer.Delivery.{from_proto-proto_invalidation_batch_in}
use gossipcache.Control.Transfer.ServerEnvelope.{
  HeldServerValue, HeldServerArgument, HeldServerMessage, read_server, server_body_in,
  proto_server_message_in, from_proto_server_body_in, from_proto_server_message_in,
}
use mathlib.Core.Option

-- The keys of the payload are in the store.
abbrev pub HasHeldKeys : Memory → HeldServerValue → Type 0
HasHeldKeys s (HeldServerValue.invalidation_batch m) =
    All (HasHeldKey s.bytes) (contents s.events m.events)
HasHeldKeys s v = Unit

-- A program runs on from `t` to `u` and writes only what was there in `s`.
pub record WritesBehindServer (s t u : Memory) : Type 0 where
  pub bytes : Writes (Old (length s.bytes)) t.bytes u.bytes
  pub events : Writes (Old (length s.events)) t.events u.events

server_body_in-delivered :
    (s : Memory) (v : HeldServerValue) (u w : Memory)
    → HasHeldKeys s v
    → IsServerPayload (read_server s v)
    → WritesBehindServer s (server_body_in s v).0 u
    → WritesBehindServer u (from_proto_server_body_in u (some (server_body_in s v).1)).0 w
    → (Option.map (read_server w) (from_proto_server_body_in u (some (server_body_in s v).1)).1
        ≡ some (read_server s v))
      × ((from_proto_server_body_in u (some (server_body_in s v).1)).2 ≡ none)
unfolding server_body_in from_proto_server_body_in read_server
server_body_in-delivered s (HeldServerValue.invalidation_batch m) u w held (valid, ids) sent
      received =
    let (same, clean) =
      from_proto-proto_invalidation_batch_in s m u w held valid ids sent.bytes received.bytes
        received.events in
    (ap (λ x. some (ServerValue.invalidation_batch x)) same, clean)
server_body_in-delivered s (HeldServerValue.stream_checkpoint m) u w held valid sent received =
    let read =
      (from_proto_stream_checkpoint_iff (some (proto_stream_checkpoint m)) m).1 (valid, refl) in
    (ap (λ x. some (ServerValue.stream_checkpoint x.0)) read, ap (λ x. x.1) read)
server_body_in-delivered s (HeldServerValue.replay_unavailable m) u w held valid sent received =
    let read =
      (from_proto_replay_unavailable_iff (some (proto_replay_unavailable m)) m).1 (valid, refl) in
    (ap (λ x. some (ServerValue.replay_unavailable x.0)) read, ap (λ x. x.1) read)
server_body_in-delivered s (HeldServerValue.control_error m) u w held valid sent received =
    let read = (from_proto_control_error_iff (some (proto_control_error m)) m).1 (valid, refl) in
    (ap (λ x. some (ServerValue.control_error x.0)) read, ap (λ x. x.1) read)

-- The payload of an argument that has one.
abbrev pub payload : HeldServerArgument → Option HeldServerValue
payload (HeldServerArgument.value v) = some v
payload (HeldServerArgument.pointer v) = some v
payload HeldServerArgument.nil_pointer = none
payload HeldServerArgument.other = none

proto_server_message_in-payload :
    (s : Memory) (argument : HeldServerArgument) (v : HeldServerValue)
    → payload argument ≡ some v
    → proto_server_message_in s argument
      ≡ ((server_body_in s v).0, ok (record { body = some (server_body_in s v).1 }))
unfolding proto_server_message_in
proto_server_message_in-payload s (HeldServerArgument.value x) v e = cc
proto_server_message_in-payload s (HeldServerArgument.pointer x) v e = cc
proto_server_message_in-payload s HeldServerArgument.nil_pointer v e = cc
proto_server_message_in-payload s HeldServerArgument.other v e = cc

-- A hub wraps a valid payload `v`, given by value or by pointer, in a message, and then the arrays
-- that were there before are written; the keys of a batch are in the store, and its ids have 16
-- bytes. A node reads the message, and then the arrays that were there before are written, those of
-- the message too. The node holds the payload as it was at first, with no error.
pub from_proto-proto_server_message_in :
    (s : Memory) (argument : HeldServerArgument) (v : HeldServerValue) (p : HeldServerMessage)
    (u w : Memory)
    → payload argument ≡ some v
    → HasHeldKeys s v
    → IsServerPayload (read_server s v)
    → (proto_server_message_in s argument).1 ≡ ok p
    → WritesBehindServer s (proto_server_message_in s argument).0 u
    → WritesBehindServer u (from_proto_server_message_in u (some p)).0 w
    → (Option.map (read_server w) (from_proto_server_message_in u (some p)).1
        ≡ some (read_server s v))
      × ((from_proto_server_message_in u (some p)).2 ≡ none)
unfolding from_proto_server_message_in
from_proto-proto_server_message_in s argument v p u w has held valid made sent received =
    let wrapped = proto_server_message_in-payload s argument v has in
    let body : p.body ≡ some (server_body_in s v).1 = cc in
    let sent' : WritesBehindServer s (server_body_in s v).0 u = rw wrapped at sent in
    let received' : WritesBehindServer u
        (from_proto_server_body_in u (some (server_body_in s v).1)).0 w =
      rw body at received in
    rw body (server_body_in-delivered s v u w held valid sent' received')
