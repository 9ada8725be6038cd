-- ===== src/Rpc/Transfer/Reads.antt =====
-- The conversions of reads and their answers, of internal/rpc/convert.go, over the arrays and the
-- variables that the structs and the messages hold.
pub mod Request
pub mod Answer
mod Tests
use gossipcache.Common.{ℕ, Option, none, some, length}
use gossipcache.Errors.{Check, Result, ok, err, ◌>>=◌, message}
use gossipcache.Ownership.{Store, Slice, nil, contents, append_elements, Writes, Old}
use gossipcache.Wire.Version.{VersionTag, zero_version}
use gossipcache.Wire.Clones.{Memory, copy_bytes_in, pointee, cell}
use gossipcache.Pb
use gossipcache.Rpc.Read.{validate_get, validate_get_response}
use gossipcache.Rpc.Clones.{HeldGetRequest, read_get_request, HeldGetResponse, read_get_response}
use gossipcache.Rpc.Convert.Enums.{
  proto_version_tag, from_proto_version_tag, proto_status, from_proto_status, proto_record_kind,
  from_proto_record_kind,
}
use mathlib.Core.Option

-- Byte arrays and version tags, and the messages that a `*pb.VersionTag` points to.
pub record ReadMemory : Type 0 where
  pub own : Memory
  pub messages : Store Pb.VersionTag

-- A program runs on from `t` to `u` and writes only what was there in `s`.
pub record WritesBehind (s t u : ReadMemory) : Type 0 where
  pub bytes : Writes (Old (length s.own.bytes)) t.own.bytes u.own.bytes
  pub tags : Writes (Old (length s.own.tags)) t.own.tags u.own.tags
  pub messages : Writes (Old (length s.messages)) t.messages u.messages

pub record HeldPbGetRequest : Type 0 where
  pub key : Slice
  pub min_version : Slice
  pub hub_generation : ℕ

unfoldable pub read_pb_get_request : ReadMemory → HeldPbGetRequest → Pb.GetRequest
unfolding pointee
read_pb_get_request s m = record {
  key = contents s.own.bytes m.key;
  min_version = pointee (contents s.messages m.min_version);
  hub_generation = m.hub_generation;
}

-- `ProtoGetRequest`; `ProtoVersionTag` makes a new message.
unfoldable pub proto_get_request_in : ReadMemory → HeldGetRequest → ReadMemory × HeldPbGetRequest
unfolding copy_bytes_in pointee cell
proto_get_request_in s m =
    let key = copy_bytes_in s.own.bytes m.key in
    let version =
      append_elements s.messages
        (cell (Option.map proto_version_tag (pointee (contents s.own.tags m.min_version)))) in
    (
      record { own = record { bytes = key.0; tags = s.own.tags }; messages = version.0 },
      record { key = key.1; min_version = version.1; hub_generation = m.hub_generation },
    )

-- `FromProtoGetRequest`; the variable `v` of the branch on `MinVersion` is a new one.
unfoldable pub from_proto_get_request_in :
    ReadMemory → Option HeldPbGetRequest → ReadMemory × HeldGetRequest × Check
unfolding copy_bytes_in pointee cell
from_proto_get_request_in s none = (
  s,
  record { key = nil; min_version = nil; hub_generation = 0 },
  some (message "nil get request"),
)
from_proto_get_request_in s (some m) =
    let key = copy_bytes_in s.own.bytes m.key in
    let version = append_elements s.own.tags (
      cell (
        Option.map (λ v. from_proto_version_tag (some v))
          (pointee (contents s.messages m.min_version)))) in
    let own : Memory = record { bytes = key.0; tags = version.0 } in
    let out : HeldGetRequest = record {
      key = key.1;
      min_version = version.1;
      hub_generation = m.hub_generation;
    } in
    (record { own = own; messages = s.messages }, out, validate_get (read_get_request own out))

pub record HeldPbGetResponse : Type 0 where
  pub status : Pb.Status
  pub hub_generation : ℕ
  pub version : Slice
  pub value : Slice
  pub ttl_millis : ℕ
  pub kind : Pb.RecordKind

unfoldable pub read_pb_get_response : ReadMemory → HeldPbGetResponse → Pb.GetResponse
unfolding pointee
read_pb_get_response s m = record {
  status = m.status;
  hub_generation = m.hub_generation;
  version = pointee (contents s.messages m.version);
  value = contents s.own.bytes m.value;
  ttl_millis = m.ttl_millis;
  kind = m.kind;
}

-- `ProtoGetResponse`
unfoldable pub proto_get_response_in : ReadMemory → HeldGetResponse → ReadMemory × HeldPbGetResponse
unfolding copy_bytes_in cell
proto_get_response_in s m =
    let version = append_elements s.messages (cell (some (proto_version_tag m.version))) in
    let value = copy_bytes_in s.own.bytes m.value in
    (
      record { own = record { bytes = value.0; tags = s.own.tags }; messages = version.0 },
      record {
        status = proto_status m.status;
        hub_generation = m.hub_generation;
        version = version.1;
        value = value.1;
        ttl_millis = m.ttl_millis;
        kind = proto_record_kind m.kind;
      },
    )

abbrev pub zero_held_response : HeldGetResponse
zero_held_response = record {
  status = 0;
  hub_generation = 0;
  version = zero_version;
  value = nil;
  ttl_millis = 0;
  kind = 0;
}

-- `return out, out.Validate()`, or the zero value and the error.
unfoldable pub conclude_response_in :
    ReadMemory → Result (Store ℕ × HeldGetResponse) → ReadMemory × HeldGetResponse × Check
conclude_response_in s (ok (t, out)) = (
  record { own = record { bytes = t; tags = s.own.tags }; messages = s.messages },
  out,
  validate_get_response (read_get_response t out),
)
conclude_response_in s (err e) = (s, zero_held_response, some e)

-- `FromProtoGetResponse`
unfoldable pub from_proto_get_response_in :
    ReadMemory → Option HeldPbGetResponse → ReadMemory × HeldGetResponse × Check
unfolding copy_bytes_in pointee conclude_response_in
from_proto_get_response_in s none = (s, zero_held_response, some (message "nil get response"))
from_proto_get_response_in s (some m) = conclude_response_in s (do
  status ← from_proto_status m.status
  kind ← from_proto_record_kind m.kind
  ok (
      let value = copy_bytes_in s.own.bytes m.value in
      (
        value.0,
        record {
          status = status;
          hub_generation = m.hub_generation;
          version = from_proto_version_tag (pointee (contents s.messages m.version));
          value = value.1;
          ttl_millis = m.ttl_millis;
          kind = kind;
        },
      )))
