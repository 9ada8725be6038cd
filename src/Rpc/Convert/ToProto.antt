-- ===== src/Rpc/Convert/ToProto.antt =====
-- The messages of internal/rpc/convert.go, to protobuf.
use gossipcache.Common.{some}
use gossipcache.Wire.Requests.{copy_bytes}
use gossipcache.Rpc.Handshake.{HandshakeRequest, Handshake, HubStatusRequest, HubStatus}
use gossipcache.Rpc.Read.{GetRequest, GetResponse}
use gossipcache.Rpc.Mutation.{MutationRequest}
use gossipcache.Rpc.Mutation.{MutationResponse}
use gossipcache.Pb
use gossipcache.Rpc.Convert.Enums.{
  proto_version_tag, proto_mutation_id, proto_status, proto_record_kind, proto_write_mode,
  proto_storage_profile, proto_confirm_level, proto_mutation_op,
}
use mathlib.Core.Option

unfoldable pub proto_handshake_request : HandshakeRequest → Pb.HandshakeRequest
proto_handshake_request m = record {
  protocol_version = m.protocol.version;
  min_supported_version = m.protocol.min_supported;
  cluster_id = m.cluster_id;
  expected_hub_generation = m.expected_hub_generation;
}

unfoldable pub proto_handshake : Handshake → Pb.HandshakeResponse
proto_handshake m = record {
  protocol_version = m.protocol_version;
  hub_generation = m.hub_generation;
  partition_count = m.partition_count;
  storage_profile = proto_storage_profile m.storage_profile;
  durable_healthy = m.durable_healthy;
  cluster_id = m.cluster_id;
}

unfoldable pub proto_hub_status_request : HubStatusRequest → Pb.HubStatusRequest
proto_hub_status_request m = record { hub_generation = m.hub_generation }

unfoldable pub proto_hub_status : HubStatus → Pb.HubStatusResponse
proto_hub_status m = record {
  hub_generation = m.hub_generation;
  storage_profile = proto_storage_profile m.storage_profile;
  durable_healthy = m.durable_healthy;
  status = proto_status m.status;
}

unfoldable pub proto_get_request : GetRequest → Pb.GetRequest
proto_get_request m = record {
  key = copy_bytes m.key;
  min_version = Option.map proto_version_tag m.min_version;
  hub_generation = m.hub_generation;
}

unfoldable pub proto_get_response : GetResponse → Pb.GetResponse
proto_get_response m = record {
  status = proto_status m.status;
  hub_generation = m.hub_generation;
  version = some (proto_version_tag m.version);
  value = copy_bytes m.value;
  ttl_millis = m.ttl_millis;
  kind = proto_record_kind m.kind;
}

unfoldable pub proto_mutation_request : MutationRequest → Pb.MutationRequest
proto_mutation_request m = record {
  op = proto_mutation_op m.op;
  key = copy_bytes m.key;
  value = copy_bytes m.value;
  ttl_millis = m.ttl_millis;
  mutation_id = some (proto_mutation_id m.mutation_id);
  mode = proto_write_mode m.mode;
  w = m.w;
  confirm = proto_confirm_level m.confirm;
  timeout_millis = m.timeout;
  hub_generation = m.hub_generation;
}

unfoldable pub proto_mutation_response : MutationResponse → Pb.MutationResponse
proto_mutation_response m = record {
  status = proto_status m.status;
  hub_generation = m.hub_generation;
  version = some (proto_version_tag m.version);
}
