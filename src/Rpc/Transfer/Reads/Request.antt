-- ===== src/Rpc/Transfer/Reads/Request.antt =====
-- A read from a node to a hub, through both conversions of internal/rpc/convert.go.
use gossipcache.Common.{ap, ◌∙◌, ◌≡◌, refl, none, some, length, arith}
use gossipcache.Ownership.{done}
use gossipcache.Ownership.Copies.{copy_kept}
use gossipcache.Wire.Clones.{copy_bytes_in}
use gossipcache.Wire.Clones.Independence.{cell_kept}
use gossipcache.Rpc.Read.{validate_get}
use gossipcache.Rpc.Clones.{HeldGetRequest, read_get_request}
use gossipcache.Rpc.Convert.ToProto.{proto_get_request}
use gossipcache.Rpc.Convert.FromProto.{from_proto_get_request}
use gossipcache.Rpc.Convert.Requests.{from_proto_get_request_iff}
use gossipcache.Rpc.Transfer.Reads.{
  ReadMemory, WritesBehind, HeldPbGetRequest, read_pb_get_request, proto_get_request_in,
  from_proto_get_request_in,
}

-- A node converts a read. Whatever is later written to the arrays and variables that were there
-- before, the message stays the conversion of the read as it was.
pub proto_get_request_in-kept :
    (s : ReadMemory) (r : HeldGetRequest) (u : ReadMemory)
    → WritesBehind s (proto_get_request_in s r).0 u
    → read_pb_get_request u (proto_get_request_in s r).1
      ≡ proto_get_request (read_get_request s.own r)
unfolding proto_get_request_in read_pb_get_request proto_get_request read_get_request copy_bytes_in
proto_get_request_in-kept s r u w =
    rw
      (
        copy_kept (length s.own.bytes) s.own.bytes r.key (omega arith) w.bytes,
        cell_kept (length s.messages) s.messages _ (omega arith) w.messages,
      )
      refl

-- A hub converts a message. Whatever is later written to the arrays and variables that were there
-- before, the read and the error are what the conversion of the message, as it was, gives.
pub from_proto_get_request_in-kept :
    (s : ReadMemory) (m : HeldPbGetRequest) (u : ReadMemory)
    → WritesBehind s (from_proto_get_request_in s (some m)).0 u
    → (
      read_get_request u.own (from_proto_get_request_in s (some m)).1,
      (from_proto_get_request_in s (some m)).2,
    )
      ≡ from_proto_get_request (some (read_pb_get_request s m))
unfolding from_proto_get_request_in read_get_request from_proto_get_request read_pb_get_request
    copy_bytes_in
from_proto_get_request_in-kept s m u w =
    let n = length s.own.bytes in
    let k = length s.own.tags in
    rw
      (
        copy_kept n s.own.bytes m.key (omega arith) w.bytes,
        cell_kept k s.own.tags _ (omega arith) w.tags,
        copy_kept n s.own.bytes m.key (omega arith) done,
        cell_kept k s.own.tags _ (omega arith) done,
      )
      refl

-- A node converts a valid read, and then the arrays and variables that were there before are
-- written. A hub converts the message, and then what was there before is written, the
-- message's own arrays and its version too. The hub holds the read as it was at first, with its
-- minimum version where it had one, and there is no error.
pub from_proto-proto_get_request_in :
    (s : ReadMemory) (r : HeldGetRequest) (u w : ReadMemory)
    → validate_get (read_get_request s.own r) ≡ none
    → WritesBehind s (proto_get_request_in s r).0 u
    → WritesBehind u (from_proto_get_request_in u (some (proto_get_request_in s r).1)).0 w
    → (read_get_request w.own (from_proto_get_request_in u (some (proto_get_request_in s r).1)).1
        ≡ read_get_request s.own r)
      × ((from_proto_get_request_in u (some (proto_get_request_in s r).1)).2 ≡ none)
from_proto-proto_get_request_in s r u w valid sent received =
    let request = read_get_request s.own r in
    let same =
      from_proto_get_request_in-kept u (proto_get_request_in s r).1 w received
      ∙ ap (λ p. from_proto_get_request (some p)) (proto_get_request_in-kept s r u sent)
      ∙ (from_proto_get_request_iff (some (proto_get_request request)) request).1 (valid, refl) in
    (ap (λ x. x.0) same, ap (λ x. x.1) same)
