-- ===== src/Control/Convert/Tests.antt =====
-- Runs of the conversions and limits of internal/control.
use gossipcache.Common.{ℕ, ◌+◌, ◌^◌, ◌≤◌, ◌≡◌, ◌↔◌, refl, none, some, [], ◌∷◌, pos, negsuc, arith}
use gossipcache.Errors.{ok}
use gossipcache.Encoding.Concrete.{summed}
use gossipcache.Pb
use gossipcache.Wire.Record.{record_value}
use gossipcache.Wire.Status.{status_err_internal}
use gossipcache.Rpc.Convert.Enums.{
  from_proto_mutation_id, from_proto_version_tag, from_proto_status, from_proto_record_kind,
  protocol_version_from_uint32 as rpc_version_from_uint32,
}
use gossipcache.Control.Batch.{estimated_encoded_size, max_control_message_bytes}
use gossipcache.Control.Batch.Types.{IsGoBatch}
use gossipcache.Control.Convert.Values.{
  mutation_id_from_proto, record_kind_from_proto, status_from_proto, protocol_version_from_uint32,
  version_from_proto,
}
use gossipcache.Control.Convert.ToProto.{proto_hello}
use gossipcache.Control.Convert.Envelope.{
  ClientValue, ServerValue, proto_client_message, proto_server_message, from_proto_client_message,
  from_proto_server_message,
}
use gossipcache.Control.Convert.Streams.{
  from_proto_client_message_iff, from_proto_server_message_iff,
}
use gossipcache.Control.Convert.Agreement.{converters_agree}
use gossipcache.Control.Convert.Size.{estimated_encoded_size_bounds}
use gossipcache.Control.Convert.Limits.{server_message_bound}
use gossipcache.Control.Convert.ClientLimits.{client_message_bound, cluster_bytes}
use gossipcache.Control.Convert.Payloads.{IsGoClient}
use gossipcache.Control.Tests.{pair, pair-valid, greeting, greeting-valid, published}

abbrev size_server : Pb.ControlServerMessage → ℕ
size_server = summed.size_server

abbrev size_client : Pb.ControlClientMessage → ℕ
size_client = summed.size_client

abbrev short_id : Pb.MutationId
short_id = record { id = 1 ∷ 2 ∷ [] }

converters_agree_example :
    (mutation_id_from_proto (some short_id) ≡ from_proto_mutation_id (some short_id))
    × (version_from_proto none ≡ from_proto_version_tag none)
    × (protocol_version_from_uint32 70000 ≡ rpc_version_from_uint32 70000)
    × ((status_from_proto (pos 8) ≡ ok status_err_internal)
        ↔ (from_proto_status (pos 8) ≡ ok status_err_internal))
    × ((record_kind_from_proto (negsuc 0) ≡ ok record_value)
        ↔ (from_proto_record_kind (negsuc 0) ≡ ok record_value))
converters_agree_example =
    converters_agree (some short_id) none 70000 (pos 8) status_err_internal (negsuc 0) record_value

pair-IsGoBatch : IsGoBatch pair
pair-IsGoBatch = omega arith

estimated_encoded_size_bounds_example :
    (size_server published ≤ estimated_encoded_size pair)
    × (estimated_encoded_size pair ≤ max_control_message_bytes)
unfolding proto_server_message
estimated_encoded_size_bounds_example =
    estimated_encoded_size_bounds summed pair published pair-IsGoBatch pair-valid refl

published-accepted :
    from_proto_server_message (some published) ≡ (some (ServerValue.invalidation_batch pair), none)
unfolding proto_server_message
published-accepted =
    (from_proto_server_message_iff published (ServerValue.invalidation_batch pair)).1
      ((pair-valid, (refl, (refl, tt))), refl)

server_message_bound_example : size_server published ≤ max_control_message_bytes
server_message_bound_example =
    server_message_bound summed published (ServerValue.invalidation_batch pair) pair-IsGoBatch
      published-accepted

abbrev opening : Pb.ControlClientMessage
opening = record { body = some (Pb.ClientBody.hello (some (proto_hello greeting))) }

opening-accepted :
    from_proto_client_message (some opening) ≡ (some (ClientValue.hello greeting), none)
unfolding proto_client_message
opening-accepted =
    (from_proto_client_message_iff opening (ClientValue.hello greeting)).1
      ((greeting-valid, omega arith, omega arith), refl)

greeting-IsGoClient : IsGoClient (ClientValue.hello greeting)
greeting-IsGoClient = omega arith

client_message_bound_example :
    size_client opening ≤ 2 ^ 17 + cluster_bytes (ClientValue.hello greeting)
client_message_bound_example =
    client_message_bound summed opening (ClientValue.hello greeting) greeting-IsGoClient
      opening-accepted
