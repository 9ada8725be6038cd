-- ===== src/Control/Convert/ClientLimits.antt =====
-- How large the messages of a node may be on the control stream (internal/control/types.go).
use gossipcache.Common.{
  ℕ, ◌+◌, ◌*◌, ◌^◌, ◌≤◌, ◌≡◌, none, some, List, [], ◌∷◌, map, length, All, IsUint, arith,
}
use gossipcache.Errors.{ok}
use gossipcache.Encoding.{ProtobufSize, bytes_field, repeated_field, packed}
use gossipcache.Encoding.Varint.{
  size_varint_uint32, size_varint-IsUint, number_field_uint64, number_field_uint32,
}
use gossipcache.Pb
use gossipcache.Control.Session.{StreamWatermark}
use gossipcache.Control.Session.Subscriptions.{validate_hello_iff, validate_subscribe_iff}
use gossipcache.Control.Convert.ToProto.{
  proto_watermark, proto_hello, proto_subscribe, proto_stream_acknowledgement, proto_replay_request,
  proto_invalidate_confirm,
}
use gossipcache.Control.Convert.Envelope.{
  ClientValue, proto_client_message, from_proto_client_message,
}
use gossipcache.Control.Convert.Streams.{IsClientPayload, by_value, from_proto_client_message_iff}
use gossipcache.Control.Convert.Payloads.{IsGoWatermark, IsGoClient}
use Prim.Native.String.{len}

-- The bytes of the one field whose length no check bounds.
abbrev pub cluster_bytes : ClientValue → ℕ
cluster_bytes (ClientValue.hello m) = len m.cluster_id
cluster_bytes v = 0

module _ (pb : ProtobufSize) where
  open pb use {
    size_varint, size_client, size_watermark, size_hello, size_subscribe, size_acknowledgement,
    size_request, size_confirm, varint_last, watermark_fields, hello_fields, subscribe_fields,
    acknowledgement_fields, request_fields, confirm_fields, client_hello, client_subscribe,
    client_acknowledgement, client_request, client_confirm,
  }

  watermarks_bound :
      (ws : List StreamWatermark)
      → All IsGoWatermark ws
      → repeated_field size_varint size_watermark (map proto_watermark ws) ≤ 30 * length ws
  unfolding proto_watermark
  watermarks_bound [] g = omega arith
  watermarks_bound (s ∷ ws) ((stream, applied, generation), gs) =
      let message : Pb.StreamWatermark = record {
        stream_id = s.stream_id;
        applied_through = s.applied_through;
        hub_generation = s.hub_generation;
      } in
      let size : size_watermark message ≤ 28 = omega (
        arith,
        watermark_fields message,
        number_field_uint32 pb s.stream_id stream,
        number_field_uint64 pb s.applied_through applied,
        number_field_uint64 pb s.hub_generation generation,
      ) in
      omega (arith, size, varint_last (size_watermark message), watermarks_bound ws gs)

  packed_bound : (ids : List ℕ) → All (IsUint 32) ids → packed size_varint ids ≤ 5 * length ids
  packed_bound [] g = omega arith
  packed_bound (id ∷ ids) (g, gs) = omega (arith, size_varint_uint32 pb id g, packed_bound ids gs)

  text_bound : (n : ℕ) → IsUint 64 n → bytes_field size_varint n ≤ 11 + n
  text_bound n h = ground (arith, size_varint-IsUint pb n)

  client_payload_bound :
      (p : Pb.ControlClientMessage) (v : ClientValue)
      → IsGoClient v
      → IsClientPayload v
      → proto_client_message (by_value v) ≡ ok p
      → size_client p ≤ 2 ^ 17 + cluster_bytes v
  client_payload_bound p (ClientValue.hello m) (node, version, minimum, ws, cluster, generation)
        valid made =
      let message = proto_hello m in
      let size : size_hello message ≤ 30 * 4096 + 64 + len m.cluster_id =
        unfold proto_hello in
        ground (
          arith,
          hello_fields message,
          ((validate_hello_iff m).0 valid.0).few,
          number_field_uint64 pb m.node_id node,
          number_field_uint32 pb m.protocol.version,
          number_field_uint32 pb m.protocol.min_supported,
          watermarks_bound m.subscriptions ws,
          text_bound (len m.cluster_id),
          number_field_uint64 pb m.expected_hub_generation generation,
        ) in
      unfold proto_client_message in
      ground
        (arith, size, cluster, client_hello message, size_varint-IsUint pb (size_hello message))
  client_payload_bound p (ClientValue.subscribe m) (generation, ids) valid made =
      let message = proto_subscribe m in
      let size : size_subscribe message ≤ 5 * 4096 + 22 =
        unfold proto_subscribe in
        ground (
          arith,
          subscribe_fields message,
          (validate_subscribe_iff m).0 valid,
          number_field_uint64 pb m.hub_generation generation,
          packed_bound m.stream_ids ids,
          text_bound (packed size_varint m.stream_ids),
        ) in
      unfold proto_client_message in
      ground (arith, size, client_subscribe message, size_varint-IsUint pb (size_subscribe message))
  client_payload_bound p (ClientValue.stream_acknowledgement m) (stream, applied) valid made =
      let message = proto_stream_acknowledgement m in
      let size : size_acknowledgement message ≤ 17 =
        unfold proto_stream_acknowledgement in
        omega (
          arith,
          acknowledgement_fields message,
          number_field_uint32 pb m.stream_id stream,
          number_field_uint64 pb m.applied_through applied,
        ) in
      unfold proto_client_message in
      ground
        (arith, size, client_acknowledgement message, varint_last (size_acknowledgement message))
  client_payload_bound p (ClientValue.replay_request m) (stream, from, to) valid made =
      let message = proto_replay_request m in
      let size : size_request message ≤ 28 =
        unfold proto_replay_request in
        omega (
          arith,
          request_fields message,
          number_field_uint32 pb m.stream_id stream,
          number_field_uint64 pb m.from_sequence from,
          number_field_uint64 pb m.to_sequence to,
        ) in
      unfold proto_client_message in
      ground (arith, size, client_request message, varint_last (size_request message))
  client_payload_bound p (ClientValue.invalidate_confirm m) (stream, sequence, node) valid made =
      let message = proto_invalidate_confirm m in
      let size : size_confirm message ≤ 28 =
        unfold proto_invalidate_confirm in
        omega (
          arith,
          confirm_fields message,
          number_field_uint32 pb m.stream_id stream,
          number_field_uint64 pb m.stream_sequence sequence,
          number_field_uint64 pb m.node_id node,
        ) in
      unfold proto_client_message in
      ground (arith, size, client_confirm message, varint_last (size_confirm message))

  -- Every message that a hub accepts from a node, whose payload has its fields in the ranges of
  -- their types, takes at most 2 ^ 17 bytes on the wire beside the bytes of a hello's cluster id.
  -- That id is the one part that no check bounds.
  pub client_message_bound :
      (p : Pb.ControlClientMessage) (v : ClientValue)
      → IsGoClient v
      → from_proto_client_message (some p) ≡ (some v, none)
      → size_client p ≤ 2 ^ 17 + cluster_bytes v
  client_message_bound p v g read =
      let sent = (from_proto_client_message_iff p v).0 read in
      client_payload_bound p v g sent.0 sent.1
