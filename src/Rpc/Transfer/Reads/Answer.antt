-- ===== src/Rpc/Transfer/Reads/Answer.antt =====
-- An answer from a hub to a node, through both conversions of internal/rpc/convert.go.
use gossipcache.Common.{ap, ◌∙◌, ◌≡◌, refl, none, some, length, inl, arith}
use gossipcache.Ownership.{done, IsOwned, contents}
use gossipcache.Ownership.Frames.{append_nil-IsOwned, contents-Writes-Old}
use gossipcache.Ownership.Copies.{copy_kept}
use gossipcache.Wire.Clones.{copy_bytes_in}
use gossipcache.Wire.Clones.Independence.{cell_kept}
use gossipcache.Rpc.Read.{validate_get_response}
use gossipcache.Rpc.Clones.{HeldGetResponse, read_get_response}
use gossipcache.Rpc.Convert.Enums.{proto_version_tag}
use gossipcache.Rpc.Convert.ToProto.{proto_get_response}
use gossipcache.Rpc.Convert.FromProto.{from_proto_get_response}
use gossipcache.Rpc.Convert.Responses.{from_proto_get_response_iff}
use gossipcache.Rpc.Transfer.Reads.{
  ReadMemory, WritesBehind, HeldPbGetResponse, read_pb_get_response, proto_get_response_in,
  conclude_response_in, from_proto_get_response_in,
}

-- A hub converts an answer. Whatever is later written to the arrays that were there before, the
-- message stays the conversion of the answer as it was.
pub proto_get_response_in-kept :
    (s : ReadMemory) (m : HeldGetResponse) (u : ReadMemory)
    → WritesBehind s (proto_get_response_in s m).0 u
    → read_pb_get_response u (proto_get_response_in s m).1
      ≡ proto_get_response (read_get_response s.own.bytes m)
unfolding proto_get_response_in read_pb_get_response proto_get_response read_get_response
    copy_bytes_in
proto_get_response_in-kept s m u w =
    rw
      (
        copy_kept (length s.own.bytes) s.own.bytes m.value (omega arith) w.bytes,
        cell_kept (length s.messages) s.messages (some (proto_version_tag m.version)) (omega arith)
            w.messages,
      )
      refl

-- Right behind the conversion.
from_proto_get_response_in-read :
    (s : ReadMemory) (m : HeldPbGetResponse)
    → (
      read_get_response
          (from_proto_get_response_in s (some m)).0.own.bytes
          (from_proto_get_response_in s (some m)).1,
      (from_proto_get_response_in s (some m)).2,
    )
      ≡ from_proto_get_response (some (read_pb_get_response s m))
unfolding from_proto_get_response_in read_get_response from_proto_get_response read_pb_get_response
    copy_bytes_in conclude_response_in contents
from_proto_get_response_in-read s m =
    let now = copy_kept (length s.own.bytes) s.own.bytes m.value (omega arith) done in
    ground (arith, now)

from_proto_get_response_in-IsOwned :
    (s : ReadMemory) (m : HeldPbGetResponse)
    → IsOwned
        (length s.own.bytes)
        (from_proto_get_response_in s (some m)).0.own.bytes
        (from_proto_get_response_in s (some m)).1.value
unfolding from_proto_get_response_in conclude_response_in copy_bytes_in
from_proto_get_response_in-IsOwned s m =
    let value = append_nil-IsOwned s.own.bytes m.value in ground (arith, value)

-- A node converts a message. Whatever is later written to the arrays and variables that were there
-- before, the answer and the error are what the conversion of the message, as it was, gives.
pub from_proto_get_response_in-kept :
    (s : ReadMemory) (m : HeldPbGetResponse) (u : ReadMemory)
    → WritesBehind s (from_proto_get_response_in s (some m)).0 u
    → (
      read_get_response u.own.bytes (from_proto_get_response_in s (some m)).1,
      (from_proto_get_response_in s (some m)).2,
    )
      ≡ from_proto_get_response (some (read_pb_get_response s m))
from_proto_get_response_in-kept s m u w =
    let out = (from_proto_get_response_in s (some m)).1 in
    let same : read_get_response u.own.bytes out
        ≡ read_get_response (from_proto_get_response_in s (some m)).0.own.bytes out =
      unfold read_get_response in
      rw (contents-Writes-Old out.value (from_proto_get_response_in-IsOwned s m) w.bytes) refl in
    rw same (from_proto_get_response_in-read s m)

-- A hub converts a valid answer, and then the arrays and variables that were there before are
-- written. A node converts the message, and then what was there before is written, the
-- message's own arrays and its version too. The node holds the answer as it was at first, with no
-- error.
pub from_proto-proto_get_response_in :
    (s : ReadMemory) (m : HeldGetResponse) (u w : ReadMemory)
    → validate_get_response (read_get_response s.own.bytes m) ≡ none
    → WritesBehind s (proto_get_response_in s m).0 u
    → WritesBehind u (from_proto_get_response_in u (some (proto_get_response_in s m).1)).0 w
    → (read_get_response w.own.bytes
          (from_proto_get_response_in u (some (proto_get_response_in s m).1)).1
        ≡ read_get_response s.own.bytes m)
      × ((from_proto_get_response_in u (some (proto_get_response_in s m).1)).2 ≡ none)
from_proto-proto_get_response_in s m u w valid sent received =
    let answer = read_get_response s.own.bytes m in
    let same =
      from_proto_get_response_in-kept u (proto_get_response_in s m).1 w received
      ∙ ap (λ p. from_proto_get_response (some p)) (proto_get_response_in-kept s m u sent)
      ∙ (from_proto_get_response_iff (some (proto_get_response answer)) answer).1 (
        valid,
        (some (proto_version_tag answer.version), inl refl, unfold proto_get_response in refl),
      ) in
    (ap (λ x. x.0) same, ap (λ x. x.1) same)
