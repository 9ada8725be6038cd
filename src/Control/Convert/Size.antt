-- ===== src/Control/Convert/Size.antt =====
-- The messages of the control stream fit the limit that internal/control/types.go puts on them:
-- `EstimatedEncodedSize` is no less than the size of the encoded batch.
use gossipcache.Common.{
  ℕ, pos, ◌+◌, ◌*◌, ◌≤◌, ◌≡◌, none, some, List, [], ◌∷◌, map, length, All, IsUint, arith,
}
use gossipcache.Errors.{ok}
use gossipcache.Wire.Requests.{copy_bytes}
use gossipcache.Encoding.{ProtobufSize, enum_field, message_field, repeated_field}
use gossipcache.Encoding.Varint.{
  size_varint_message, size_varint_key, bytes_field_bound, id_bound, number_field_uint64,
  number_field_uint32,
}
use gossipcache.Pb
use gossipcache.Control.Batch.{
  InvalidationEvent, InvalidationBatch, validate_batch, estimated_encoded_size,
  max_control_message_bytes,
}
use gossipcache.Control.Batch.Types.{IsGoEvent, IsGoBatch}
use gossipcache.Control.Batch.Contiguity.{
  IsEvent, IsUint64, encoded, validate_batch_iff, events_size-encoded,
}
use gossipcache.Control.Convert.Envelope.{ServerArgument, proto_server_message}
use gossipcache.Control.Convert.ToProto.{proto_event, proto_invalidation_batch}

module _ (pb : ProtobufSize) where
  open pb use {
    size_varint, size_version, size_id, size_event, size_batch, size_server, version_fields,
    id_fields, event_fields, batch_fields, server_batch, varint_last,
  }

  version_bound :
      (v : Pb.VersionTag)
      → IsUint 32 v.partition_id
      → IsUint 64 v.sequence
      → message_field size_varint (size_version v) ≤ 19
  version_bound v p q =
      let size : size_version v ≤ 17 = omega (
        arith,
        version_fields v,
        number_field_uint32 pb v.partition_id p,
        number_field_uint64 pb v.sequence q,
      ) in
      omega (arith, size, varint_last (size_version v))

  kind_bound :
      (e : InvalidationEvent) (stream_id : ℕ)
      → IsEvent stream_id e
      → enum_field size_varint (pos e.kind) ≤ 2
  kind_bound e stream_id v = ground (arith, v.kind, varint_last e.kind)

  -- An event takes at most 58 bytes in addition to its key, six less than the code reckons with.
  event_bound :
      (stream_id : ℕ) (e : InvalidationEvent)
      → IsGoEvent e
      → IsEvent stream_id e
      → repeated_field size_varint size_event (proto_event e ∷ []) ≤ 58 + length e.key
  unfolding proto_event
  event_bound stream_id e g v =
      let version : Pb.VersionTag = record {
        partition_id = e.version.partition_id;
        sequence = e.version.sequence;
      } in
      let id : Pb.MutationId = record { id = e.mutation_id } in
      let message : Pb.InvalidationEvent = record {
        stream_sequence = e.stream_sequence;
        key = copy_bytes e.key;
        version = some version;
        kind = pos e.kind;
        mutation_id = some id;
      } in
      let size : size_event message ≤ 55 + length e.key = omega (
        arith,
        event_fields message,
        number_field_uint64 pb e.stream_sequence g.number,
        bytes_field_bound pb (length e.key) (omega (arith, v.key)),
        version_bound version g.partition g.sequence,
        kind_bound e stream_id v,
        id_bound pb id g.id_length,
      ) in
      omega (arith, size, v.key, size_varint_key pb (size_event message))

  events_bound :
      (stream_id : ℕ) (events : List InvalidationEvent)
      → All IsGoEvent events
      → All (IsEvent stream_id) events
      → repeated_field size_varint size_event (map proto_event events) + 6 * length events
        ≤ encoded events
  unfolding proto_event
  events_bound stream_id [] g v = omega arith
  events_bound stream_id (e ∷ events) (g, gs) (v, vs) =
      omega (arith, event_bound stream_id e g v, events_bound stream_id events gs vs)

  events-IsUint64 : (events : List InvalidationEvent) → All IsGoEvent events → All IsUint64 events
  events-IsUint64 [] g = tt
  events-IsUint64 (e ∷ events) (g, gs) = (g.number, events-IsUint64 events gs)

  -- An accepted batch, with its fields in the ranges of their types, takes no more bytes as a
  -- message of the stream than `EstimatedEncodedSize` says, and that is at most 3 MiB.
  pub estimated_encoded_size_bounds :
      (m : InvalidationBatch) (p : Pb.ControlServerMessage)
      → IsGoBatch m
      → validate_batch m ≡ none
      → proto_server_message (ServerArgument.invalidation_batch m) ≡ ok p
      → (size_server p ≤ estimated_encoded_size m)
        × (estimated_encoded_size m ≤ max_control_message_bytes)
  unfolding proto_server_message proto_invalidation_batch estimated_encoded_size
  estimated_encoded_size_bounds m p g valid made =
      let batch = (validate_batch_iff m (events-IsUint64 m.events g.events)).0 valid in
      let message = proto_invalidation_batch m in
      let size : size_batch message ≤ 17 + encoded m.events = omega (
        arith,
        batch_fields message,
        number_field_uint32 pb m.stream_id g.stream,
        number_field_uint64 pb m.hub_generation g.generation,
        events_bound m.stream_id m.events g.events batch.events,
      ) in
      ground (
        arith,
        size,
        batch.small,
        server_batch message,
        size_varint_message pb (size_batch message),
        events_size-encoded m.events 128,
      )
