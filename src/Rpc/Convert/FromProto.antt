-- ===== src/Rpc/Convert/FromProto.antt =====
-- The messages of internal/rpc/convert.go, from protobuf. A conversion answers a value and an
-- error; beside the error of the final validation stands the converted value.
use gossipcache.Common.{ℕ, ltb, if◌then◌else◌, ◌%◌, ◌^◌, false, Option, none, some, [], replicate}
use gossipcache.Errors.{
  Check, of_wire, message, Result, ok, err, ◌>>=◌, conclude, invalid_write_timeout,
}
use gossipcache.Wire.Version.{zero_version}
use gossipcache.Wire.Requests.{copy_bytes}
use gossipcache.Rpc.Handshake.{
  HandshakeRequest, validate_handshake_request, Handshake, validate_handshake, HubStatusRequest,
  validate_hub_status_request, HubStatus, validate_hub_status,
}
use gossipcache.Rpc.Read.{GetRequest, validate_get, GetResponse, validate_get_response}
use gossipcache.Rpc.Mutation.{MutationRequest, validate_mutation_request}
use gossipcache.Rpc.Mutation.{MutationResponse, validate_mutation_response}
use gossipcache.Pb
use gossipcache.Rpc.Convert.Enums.{
  from_proto_version_tag, from_proto_mutation_id, from_proto_status, from_proto_record_kind,
  from_proto_write_mode, from_proto_storage_profile, from_proto_confirm_level,
  from_proto_mutation_op, max_uint16, protocol_version_from_uint32,
}
use mathlib.Core.Option

-- `HandshakeRequest{}`, and so for the others.
abbrev pub zero_handshake_request : HandshakeRequest
zero_handshake_request = record {
  protocol = record { version = 0; min_supported = 0 };
  cluster_id = "";
  expected_hub_generation = 0;
}

unfoldable pub from_proto_handshake_request : Option Pb.HandshakeRequest → HandshakeRequest × Check
from_proto_handshake_request none = (zero_handshake_request, some (message "nil handshake request"))
from_proto_handshake_request (some m) =
    conclude zero_handshake_request validate_handshake_request (do
      version ← protocol_version_from_uint32 m.protocol_version
      minimum ← protocol_version_from_uint32 m.min_supported_version
      ok (record {
        protocol = record { version = version; min_supported = minimum };
        cluster_id = m.cluster_id;
        expected_hub_generation = m.expected_hub_generation;
      }))

abbrev pub zero_handshake : Handshake
zero_handshake = record {
  protocol_version = 0;
  hub_generation = 0;
  partition_count = 0;
  storage_profile = 0;
  durable_healthy = false;
  cluster_id = "";
}

unfoldable pub from_proto_handshake : Option Pb.HandshakeResponse → Handshake × Check
from_proto_handshake none = (zero_handshake, some (message "nil handshake response"))
from_proto_handshake (some m) = conclude zero_handshake validate_handshake (do
  version ← protocol_version_from_uint32 m.protocol_version
  profile ← from_proto_storage_profile m.storage_profile
  ok (record {
    protocol_version = version;
    hub_generation = m.hub_generation;
    partition_count = m.partition_count;
    storage_profile = profile;
    durable_healthy = m.durable_healthy;
    cluster_id = m.cluster_id;
  }))

unfoldable pub from_proto_hub_status_request : Option Pb.HubStatusRequest → HubStatusRequest × Check
from_proto_hub_status_request none =
    (record { hub_generation = 0 }, some (message "nil hub status request"))
from_proto_hub_status_request (some m) =
    let out : HubStatusRequest = record { hub_generation = m.hub_generation } in
    (out, validate_hub_status_request out)

abbrev pub zero_hub_status : HubStatus
zero_hub_status = record {
  hub_generation = 0;
  storage_profile = 0;
  durable_healthy = false;
  status = 0;
}

unfoldable pub from_proto_hub_status : Option Pb.HubStatusResponse → HubStatus × Check
from_proto_hub_status none = (zero_hub_status, some (message "nil hub status"))
from_proto_hub_status (some m) = conclude zero_hub_status validate_hub_status (do
  status ← from_proto_status m.status
  profile ← from_proto_storage_profile m.storage_profile
  ok (record {
    hub_generation = m.hub_generation;
    storage_profile = profile;
    durable_healthy = m.durable_healthy;
    status = status;
  }))

unfoldable pub from_proto_get_request : Option Pb.GetRequest → GetRequest × Check
from_proto_get_request none =
    (record { key = []; min_version = none; hub_generation = 0 }, some (message "nil get request"))
from_proto_get_request (some m) =
    let out : GetRequest = record {
      key = copy_bytes m.key;
      min_version = Option.map (λ v. from_proto_version_tag (some v)) m.min_version;
      hub_generation = m.hub_generation;
    } in
    (out, validate_get out)

abbrev pub zero_get_response : GetResponse
zero_get_response = record {
  status = 0;
  hub_generation = 0;
  version = zero_version;
  value = [];
  ttl_millis = 0;
  kind = 0;
}

unfoldable pub from_proto_get_response : Option Pb.GetResponse → GetResponse × Check
from_proto_get_response none = (zero_get_response, some (message "nil get response"))
from_proto_get_response (some m) = conclude zero_get_response validate_get_response (do
  status ← from_proto_status m.status
  kind ← from_proto_record_kind m.kind
  ok (record {
    status = status;
    hub_generation = m.hub_generation;
    version = from_proto_version_tag m.version;
    value = copy_bytes m.value;
    ttl_millis = m.ttl_millis;
    kind = kind;
  }))

abbrev pub zero_mutation_request : MutationRequest
zero_mutation_request = record {
  op = 0;
  key = [];
  value = [];
  ttl_millis = 0;
  mutation_id = replicate 16 0;
  mode = 0;
  w = 0;
  confirm = 0;
  timeout = 0;
  hub_generation = 0;
}

-- `if m.GetW() > math.MaxUint16 { … }`, and `uint16(m.GetW())` further down.
unfoldable pub w_from_uint32 : ℕ → Result ℕ
w_from_uint32 w = if ltb max_uint16 w then err (of_wire invalid_write_timeout) else ok (w % 2 ^ 16)

unfoldable pub from_proto_mutation_request : Option Pb.MutationRequest → MutationRequest × Check
unfolding w_from_uint32
from_proto_mutation_request none = (zero_mutation_request, some (message "nil mutation request"))
from_proto_mutation_request (some m) = conclude zero_mutation_request validate_mutation_request (do
  id ← from_proto_mutation_id m.mutation_id
  w ← w_from_uint32 m.w
  op ← from_proto_mutation_op m.op
  mode ← from_proto_write_mode m.mode
  confirm ← from_proto_confirm_level m.confirm
  ok (record {
    op = op;
    key = copy_bytes m.key;
    value = copy_bytes m.value;
    ttl_millis = m.ttl_millis;
    mutation_id = id;
    mode = mode;
    w = w;
    confirm = confirm;
    timeout = m.timeout_millis;
    hub_generation = m.hub_generation;
  }))

abbrev pub zero_mutation_response : MutationResponse
zero_mutation_response = record { status = 0; hub_generation = 0; version = zero_version }

unfoldable pub from_proto_mutation_response : Option Pb.MutationResponse → MutationResponse × Check
from_proto_mutation_response none = (zero_mutation_response, some (message "nil mutation response"))
from_proto_mutation_response (some m) =
    conclude zero_mutation_response validate_mutation_response (do
      status ← from_proto_status m.status
      ok (record {
        status = status;
        hub_generation = m.hub_generation;
        version = from_proto_version_tag m.version;
      }))
