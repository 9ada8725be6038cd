-- ===== src/Control/Convert/ToProto.antt =====
-- The messages of internal/control/convert.go, to protobuf.
use gossipcache.Common.{Option, some, map, pos}
use gossipcache.Wire.Requests.{copy_bytes}
use gossipcache.Control.Session.{StreamWatermark, Hello, Subscribe}
use gossipcache.Control.Batch.{InvalidationEvent, InvalidationBatch}
use gossipcache.Control.Delivery.{
  StreamAcknowledgement, StreamCheckpoint, ReplayRequest, ReplayUnavailable, InvalidateConfirm,
  ControlError,
}
use gossipcache.Pb

-- The body of the loop of `ProtoHello`.
unfoldable pub proto_watermark : StreamWatermark → Option Pb.StreamWatermark
proto_watermark s = some (record {
  stream_id = s.stream_id;
  applied_through = s.applied_through;
  hub_generation = s.hub_generation;
})

unfoldable pub proto_hello : Hello → Pb.Hello
proto_hello m = record {
  node_id = m.node_id;
  protocol_version = m.protocol.version;
  min_supported_version = m.protocol.min_supported;
  subscriptions = map proto_watermark m.subscriptions;
  cluster_id = m.cluster_id;
  expected_hub_generation = m.expected_hub_generation;
}

unfoldable pub proto_control_error : ControlError → Pb.ControlError
proto_control_error m = record { status = pos m.status; detail = m.detail }

unfoldable pub proto_subscribe : Subscribe → Pb.Subscribe
proto_subscribe m = record {
  hub_generation = m.hub_generation;
  stream_ids = copy_bytes m.stream_ids;
}

-- The body of the loop of `ProtoInvalidationBatch`.
unfoldable pub proto_event : InvalidationEvent → Option Pb.InvalidationEvent
proto_event e = some (record {
  stream_sequence = e.stream_sequence;
  key = copy_bytes e.key;
  version = some (record { partition_id = e.version.partition_id; sequence = e.version.sequence });
  kind = pos e.kind;
  mutation_id = some (record { id = e.mutation_id });
})

unfoldable pub proto_invalidation_batch : InvalidationBatch → Pb.InvalidationBatch
proto_invalidation_batch m = record {
  stream_id = m.stream_id;
  hub_generation = m.hub_generation;
  events = map proto_event m.events;
}

unfoldable pub proto_stream_acknowledgement : StreamAcknowledgement → Pb.StreamAcknowledgement
proto_stream_acknowledgement m = record {
  stream_id = m.stream_id;
  applied_through = m.applied_through;
}

unfoldable pub proto_stream_checkpoint : StreamCheckpoint → Pb.StreamCheckpoint
proto_stream_checkpoint m = record {
  stream_id = m.stream_id;
  hub_generation = m.hub_generation;
  stream_head = m.stream_head;
}

unfoldable pub proto_replay_request : ReplayRequest → Pb.ReplayRequest
proto_replay_request m = record {
  stream_id = m.stream_id;
  from_sequence = m.from_sequence;
  to_sequence = m.to_sequence;
}

unfoldable pub proto_replay_unavailable : ReplayUnavailable → Pb.ReplayUnavailable
proto_replay_unavailable m = record {
  stream_id = m.stream_id;
  hub_generation = m.hub_generation;
  requested_from = m.requested_from;
  oldest_available = m.oldest_available;
  stream_head = m.stream_head;
}

unfoldable pub proto_invalidate_confirm : InvalidateConfirm → Pb.InvalidateConfirm
proto_invalidate_confirm m = record {
  stream_id = m.stream_id;
  stream_sequence = m.stream_sequence;
  node_id = m.node_id;
}
