-- ===== src/Control/Convert/Limits.antt =====
-- Every message of a hub fits `MaxControlMessageBytes` of internal/control/types.go.
use gossipcache.Common.{◌≤◌, ◌≡◌, none, some, arith}
use gossipcache.Errors.{ok}
use gossipcache.Encoding.{ProtobufSize}
use gossipcache.Encoding.Varint.{size_varint_key, number_field_uint64, number_field_uint32}
use gossipcache.Pb
use Prim.Native.String.{len}
use gossipcache.Control.Batch.{max_control_message_bytes}
use gossipcache.Control.Delivery.Windows.{validate_control_error_iff}
use gossipcache.Control.Convert.Size.{estimated_encoded_size_bounds}
use gossipcache.Control.Convert.ToProto.{
  proto_stream_checkpoint, proto_replay_unavailable, proto_control_error,
}
use gossipcache.Control.Convert.Envelope.{
  ServerValue, proto_server_message, from_proto_server_message,
}
use gossipcache.Control.Convert.Payloads.{IsGoPayload}
use gossipcache.Control.Convert.Streams.{
  IsServerPayload, server_by_value, from_proto_server_message_iff,
}

module _ (pb : ProtobufSize) where
  open pb use {
    size_varint, size_server, size_checkpoint, size_unavailable, size_error, varint_last,
    checkpoint_fields, unavailable_fields, error_fields, server_checkpoint, server_unavailable,
    server_error,
  }

  payload_bound :
      (p : Pb.ControlServerMessage) (v : ServerValue)
      → IsGoPayload v
      → IsServerPayload v
      → proto_server_message (server_by_value v) ≡ ok p
      → size_server p ≤ max_control_message_bytes
  payload_bound p (ServerValue.invalidation_batch m) g (valid, ids) made =
      let bounds = estimated_encoded_size_bounds pb m p g valid made in omega (arith, bounds)
  payload_bound p (ServerValue.stream_checkpoint m) (stream, generation, head) valid made =
      let message = proto_stream_checkpoint m in
      let size : size_checkpoint message ≤ 28 =
        unfold proto_stream_checkpoint in
        omega (
          arith,
          checkpoint_fields message,
          number_field_uint32 pb m.stream_id stream,
          number_field_uint64 pb m.hub_generation generation,
          number_field_uint64 pb m.stream_head head,
        ) in
      unfold proto_server_message in
      ground (arith, size, server_checkpoint message, varint_last (size_checkpoint message))
  payload_bound p (ServerValue.replay_unavailable m) (stream, generation, from, oldest, head) valid
        made =
      let message = proto_replay_unavailable m in
      let size : size_unavailable message ≤ 50 =
        unfold proto_replay_unavailable in
        omega (
          arith,
          unavailable_fields message,
          number_field_uint32 pb m.stream_id stream,
          number_field_uint64 pb m.hub_generation generation,
          number_field_uint64 pb m.requested_from from,
          number_field_uint64 pb m.oldest_available oldest,
          number_field_uint64 pb m.stream_head head,
        ) in
      unfold proto_server_message in
      ground (arith, size, server_unavailable message, varint_last (size_unavailable message))
  payload_bound p (ServerValue.control_error m) g valid made =
      let message = proto_control_error m in
      let size : size_error message ≤ 265 =
        unfold proto_control_error in
        ground (
          arith,
          error_fields message,
          number_field_uint32 pb m.status,
          (validate_control_error_iff m).0 valid,
          size_varint_key pb (len m.detail),
        ) in
      unfold proto_server_message in
      ground (arith, size, server_error message, size_varint_key pb (size_error message))

  -- Every message that a node accepts from a hub, whose payload has its fields in the ranges of
  -- their types, takes at most 3 MiB on the wire.
  pub server_message_bound :
      (p : Pb.ControlServerMessage) (v : ServerValue)
      → IsGoPayload v
      → from_proto_server_message (some p) ≡ (some v, none)
      → size_server p ≤ max_control_message_bytes
  server_message_bound p v g read =
      let sent = (from_proto_server_message_iff p v).0 read in payload_bound p v g sent.0 sent.1
