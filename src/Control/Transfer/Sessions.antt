-- ===== src/Control/Transfer/Sessions.antt =====
-- The conversions of hellos and subscriptions, of internal/control/convert.go, over the arrays that
-- the structs and the messages hold.
pub mod Subscription
pub mod Greeting
use gossipcache.Common.{ℕ, Option, none, some, List, [], ◌∷◌, map, length}
use gossipcache.Errors.{Check, Result, ok, err, ◌>>=◌, of_control, invalid_message}
use gossipcache.Ownership.{Store, Slice, nil, contents, append_elements, append_nil, Writes, Old}
use gossipcache.Wire.Clones.{pointee}
use gossipcache.Pb
use gossipcache.Control.Session.{StreamWatermark, validate_hello, validate_subscribe}
use gossipcache.Control.Clones.{HeldHello, read_hello, HeldSubscribe, read_subscribe}
use gossipcache.Control.Convert.Values.{protocol_version_from_uint32}
use gossipcache.Control.Convert.FromProto.{from_proto_watermarks}
use Prim.Native.String.{String}

-- `ProtoSubscribe`; the message has its stream ids in a slice, as the struct has.
unfoldable pub proto_subscribe_in : Store ℕ → HeldSubscribe → Store ℕ × HeldSubscribe
proto_subscribe_in s m =
    let stream_ids = append_nil s m.stream_ids in
    (stream_ids.0, record { hub_generation = m.hub_generation; stream_ids = stream_ids.1 })

unfoldable pub read_pb_subscribe : Store ℕ → HeldSubscribe → Pb.Subscribe
read_pb_subscribe s m = record {
  hub_generation = m.hub_generation;
  stream_ids = contents s m.stream_ids;
}

-- `FromProtoSubscribe`
unfoldable pub from_proto_subscribe_in :
    Store ℕ → Option HeldSubscribe → Store ℕ × HeldSubscribe × Check
from_proto_subscribe_in s none =
    (s, record { hub_generation = 0; stream_ids = nil }, some (of_control invalid_message))
from_proto_subscribe_in s (some m) =
    let stream_ids = append_nil s m.stream_ids in
    let out : HeldSubscribe = record {
      hub_generation = m.hub_generation;
      stream_ids = stream_ids.1;
    } in
    (stream_ids.0, out, validate_subscribe (read_subscribe stream_ids.0 out))

-- The arrays of watermarks of a hello; and the messages that a `*pb.StreamWatermark` points to, and
-- the arrays of such pointers.
pub record HelloMemory : Type 0 where
  pub marks : Store StreamWatermark
  pub messages : Store Pb.StreamWatermark
  pub pointers : Store Slice

-- A program runs on from `t` to `u` and writes only what was there in `s`.
pub record WritesBehind (s t u : HelloMemory) : Type 0 where
  pub marks : Writes (Old (length s.marks)) t.marks u.marks
  pub messages : Writes (Old (length s.messages)) t.messages u.messages
  pub pointers : Writes (Old (length s.pointers)) t.pointers u.pointers

pub record HeldPbHello : Type 0 where
  pub node_id : ℕ
  pub protocol_version : ℕ
  pub min_supported_version : ℕ
  pub subscriptions : Slice
  pub cluster_id : String
  pub expected_hub_generation : ℕ

-- The messages that pointers lead to.
unfoldable pub read_marks : Store Pb.StreamWatermark → List Slice → List (Option Pb.StreamWatermark)
unfolding pointee
read_marks s = map (λ p. pointee (contents s p))

unfoldable pub read_pb_hello : HelloMemory → HeldPbHello → Pb.Hello
unfolding read_marks
read_pb_hello s m = record {
  node_id = m.node_id;
  protocol_version = m.protocol_version;
  min_supported_version = m.min_supported_version;
  subscriptions = read_marks s.messages (contents s.pointers m.subscriptions);
  cluster_id = m.cluster_id;
  expected_hub_generation = m.expected_hub_generation;
}

-- The loop of `ProtoHello`, which makes a message of each watermark.
unfoldable pub proto_watermarks_in :
    Store Pb.StreamWatermark → List StreamWatermark → Store Pb.StreamWatermark × List Slice
proto_watermarks_in s [] = (s, [])
proto_watermarks_in s (w ∷ subscriptions) =
    let message : Pb.StreamWatermark = record {
      stream_id = w.stream_id;
      applied_through = w.applied_through;
      hub_generation = w.hub_generation;
    } in
    let cell = append_elements s (message ∷ []) in
    let rest = proto_watermarks_in cell.0 subscriptions in (rest.0, cell.1 ∷ rest.1)

-- `ProtoHello`. The array that the loop fills has room for all pointers from the start.
unfoldable pub proto_hello_in : HelloMemory → HeldHello → HelloMemory × HeldPbHello
unfolding proto_watermarks_in
proto_hello_in s m =
    let messages = proto_watermarks_in s.messages (contents s.marks m.subscriptions) in
    let pointers = append_elements s.pointers messages.1 in
    (
      record { marks = s.marks; messages = messages.0; pointers = pointers.0 },
      record {
        node_id = m.node_id;
        protocol_version = m.protocol.version;
        min_supported_version = m.protocol.min_supported;
        subscriptions = pointers.1;
        cluster_id = m.cluster_id;
        expected_hub_generation = m.expected_hub_generation;
      },
    )

abbrev pub zero_held_hello : HeldHello
zero_held_hello = record {
  node_id = 0;
  protocol = record { version = 0; min_supported = 0 };
  subscriptions = nil;
  cluster_id = "";
  expected_hub_generation = 0;
}

-- `return out, out.Validate()`, or the zero value and the error.
unfoldable pub conclude_hello_in :
    HelloMemory → Result (Store StreamWatermark × HeldHello) → HelloMemory × HeldHello × Check
conclude_hello_in s (ok (t, out)) = (record s { marks = t }, out, validate_hello (read_hello t out))
conclude_hello_in s (err e) = (s, zero_held_hello, some e)

-- `FromProtoHello`. Its loop reads the messages, and puts the watermarks into a new array.
unfoldable pub from_proto_hello_in :
    HelloMemory → Option HeldPbHello → HelloMemory × HeldHello × Check
unfolding read_marks conclude_hello_in
from_proto_hello_in s none = (s, zero_held_hello, some (of_control invalid_message))
from_proto_hello_in s (some m) = conclude_hello_in s (do
  version ← protocol_version_from_uint32 m.protocol_version
  minimum ← protocol_version_from_uint32 m.min_supported_version
  subscriptions ←
      from_proto_watermarks [] (read_marks s.messages (contents s.pointers m.subscriptions))
  ok (
      let marks = append_elements s.marks subscriptions in
      (
        marks.0,
        record {
          node_id = m.node_id;
          protocol = record { version = version; min_supported = minimum };
          subscriptions = marks.1;
          cluster_id = m.cluster_id;
          expected_hub_generation = m.expected_hub_generation;
        },
      )))
