-- ===== src/Rpc/Tests.antt =====
-- Runs of internal/rpc on the inputs of its tests and on inputs like them.
use gossipcache.Common.{
  ℕ, ◌<◌, ◌≡◌, ◌≢◌, refl, ◌↔◌, ◌⊎◌, true, false, none, some, [], ◌∷◌, codes, arith, inl, is_blank,
  trim_space, is_space,
}
use gossipcache.Errors.{ok}
use gossipcache.Wire.Protocol.{ProtocolRange, negotiate, current_protocol_range}
use gossipcache.Wire.Version.{zero_version}
use gossipcache.Wire.Status.{status_ok, status_err_rate_limited}
use gossipcache.Wire.Status.{status_class, success}
use gossipcache.Wire.MutationId.{mutation_id_is_zero}
use gossipcache.Wire.Record.{record_value, validate_get_record}
use gossipcache.Wire.Options.{
  write_sync, confirm_invalidate_applied, storage_durable, validate_write_options,
  storage_profile_valid,
}
use gossipcache.Wire.Requests.{validate_set_request, validate_delete_request, validate_key}
use gossipcache.Wire.Requests.Bounds.{IsKey, IsRouted}
use gossipcache.Rpc.Status.{retry_same_mutation_id}
use gossipcache.Rpc.Handshake.{
  Handshake, validate_handshake, validate_cluster_id, HubStatus, validate_hub_status,
}
use gossipcache.Rpc.Handshake.Session.{IsSession, validate_handshake_iff}
use gossipcache.Rpc.Read.{
  GetRequest, GetResponse, validate_get, validate_key as validate_read_key, validate_for_partitions,
  validate_get_response,
}
use gossipcache.Rpc.Read.Answers.{validate_for_partitions_iff}
use gossipcache.Rpc.Mutation.{
  op_set, MutationRequest, MutationResponse, write_options, validate_mutation_request,
  validate_mutation_response,
}
use gossipcache.Rpc.Mutation.Content.{
  IsMutation, validate_mutation_request_iff, validate_mutation_response_retry,
}
use gossipcache.Rpc.Dedup.{fingerprint, check_match}
use gossipcache.Rpc.Dedup.Matching.{check_match-fingerprint_iff}
use gossipcache.Rpc.Convert.ToProto.{
  proto_mutation_request, proto_get_response, proto_handshake, proto_hub_status, proto_get_request,
}
use gossipcache.Rpc.Convert.FromProto.{
  from_proto_mutation_request, from_proto_get_response, from_proto_handshake, from_proto_hub_status,
  from_proto_get_request,
}
use gossipcache.Rpc.Convert.Enums.{proto_version_tag}
use gossipcache.Rpc.Convert.Requests.{from_proto_mutation_request_iff, from_proto_get_request_iff}
use gossipcache.Rpc.Convert.Sessions.{from_proto_handshake_iff, from_proto_hub_status_iff}
use gossipcache.Rpc.Convert.Responses.{from_proto_get_response_iff}
use gossipcache.Pb
use gossipcache.Rpc.Convert.Types.{IsGoMutation}
use gossipcache.Common.{◌+◌, ◌^◌, ◌≤◌}
use gossipcache.Encoding.Concrete.{summed}
use gossipcache.Rpc.Convert.Size.{proto_mutation_request_bound}
use gossipcache.Rpc.Convert.Retries.{IsResend, received_retry_iff}

-- A set, and a retry of it that waits longer.
abbrev written : ℕ → MutationRequest
written timeout = record {
  op = op_set;
  key = codes "user:1";
  value = 1 ∷ 2 ∷ [];
  ttl_millis = 1500;
  mutation_id = 0 ∷ 0 ∷ 0 ∷ 0 ∷ 0 ∷ 0 ∷ 0 ∷ 1 ∷ 0 ∷ 0 ∷ 0 ∷ 0 ∷ 0 ∷ 0 ∷ 0 ∷ 3 ∷ [];
  mode = write_sync;
  w = 2;
  confirm = confirm_invalidate_applied;
  timeout = timeout;
  hub_generation = 4;
}

written-valid : validate_mutation_request (written 250) ≡ none
unfolding validate_mutation_request validate_set_request validate_delete_request
    validate_write_options write_options mutation_id_is_zero validate_key
written-valid = refl

validate_mutation_request_iff_example : IsMutation (written 250)
validate_mutation_request_iff_example =
    (validate_mutation_request_iff (written 250) (omega arith)).0 written-valid

from_proto_mutation_request_iff_example :
    from_proto_mutation_request (some (proto_mutation_request (written 250))) ≡ (written 250, none)
from_proto_mutation_request_iff_example =
    (from_proto_mutation_request_iff (some (proto_mutation_request (written 250))) (written 250)).1
      (written-valid, omega arith, refl, refl)

check_match-fingerprint_iff_example :
    check_match (fingerprint (written 250)) (fingerprint (written 900)) ≡ none
check_match-fingerprint_iff_example =
    (check_match-fingerprint_iff (written 250) (written 900)).1 refl

abbrev refused : MutationResponse
refused = record { status = status_err_rate_limited; hub_generation = 4; version = zero_version }

refused-valid : validate_mutation_response refused ≡ none
unfolding validate_mutation_response
refused-valid = refl

validate_mutation_response_retry_example :
    ((status_class refused.status ≡ success) ↔ (0 < refused.version.sequence))
    × ((retry_same_mutation_id refused.status ≡ false) ⊎ (refused.version ≡ zero_version))
validate_mutation_response_retry_example = validate_mutation_response_retry refused refused-valid

abbrev asked : GetRequest
asked = record { key = codes "a"; min_version = none; hub_generation = 4 }

validate_for_partitions_iff_example :
    (validate_for_partitions asked 257 ≢ none)
    × ((validate_for_partitions asked 257 ≡ some none) ↔ (
        (0 < asked.hub_generation)
        × IsKey asked.key
        × (0 < 257)
        × IsRouted asked.key 257 asked.min_version))
validate_for_partitions_iff_example = validate_for_partitions_iff asked 257

abbrev found : GetResponse
found = record {
  status = status_ok;
  hub_generation = 3;
  version = record { partition_id = 7; sequence = 9 };
  value = 1 ∷ 2 ∷ [];
  ttl_millis = 1500;
  kind = record_value;
}

found-valid : validate_get_response found ≡ none
unfolding validate_get_response validate_get_record
found-valid = refl

from_proto_get_response_iff_example :
    from_proto_get_response (some (proto_get_response found)) ≡ (found, none)
unfolding proto_get_response
from_proto_get_response_iff_example =
    (from_proto_get_response_iff (some (proto_get_response found)) found).1
      (found-valid, (some (proto_version_tag found.version), inl refl, refl))

abbrev accepted : Handshake
accepted = record {
  protocol_version = 1;
  hub_generation = 3;
  partition_count = 257;
  storage_profile = storage_durable;
  durable_healthy = true;
  cluster_id = "cluster-a";
}

accepted-valid : validate_handshake accepted ≡ none
unfolding validate_handshake validate_cluster_id is_blank trim_space is_space
accepted-valid = refl

validate_handshake_iff_example :
    ((peer : ProtocolRange) × (negotiate current_protocol_range peer
        ≡ ok accepted.protocol_version))
    × IsSession accepted
validate_handshake_iff_example = (validate_handshake_iff accepted).0 accepted-valid

written-IsGoMutation : IsGoMutation (written 250)
written-IsGoMutation = omega arith

again-valid : validate_mutation_request (written 900) ≡ none
unfolding validate_mutation_request validate_set_request validate_delete_request
    validate_write_options write_options mutation_id_is_zero validate_key
again-valid = refl

sent :
    from_proto_mutation_request (some (proto_mutation_request (written 250))) ≡ (written 250, none)
sent =
    (from_proto_mutation_request_iff (some (proto_mutation_request (written 250))) (written 250)).1
      (written-valid, omega arith, refl, refl)

resent :
    from_proto_mutation_request (some (proto_mutation_request (written 900))) ≡ (written 900, none)
resent =
    (from_proto_mutation_request_iff (some (proto_mutation_request (written 900))) (written 900)).1
      (again-valid, omega arith, refl, refl)

received_retry_iff_example :
    (check_match (fingerprint (written 250)) (fingerprint (written 900)) ≡ none)
    ↔ IsResend (proto_mutation_request (written 250)) (proto_mutation_request (written 900))
received_retry_iff_example =
    received_retry_iff (proto_mutation_request (written 250)) (proto_mutation_request (written 900))
      (written 250) (written 900) sent resent

-- The size of a mutation by the sums of its fields.
abbrev size_mutation : Pb.MutationRequest → ℕ
size_mutation = summed.size_mutation

proto_mutation_request_bound_example :
    size_mutation (proto_mutation_request (written 250)) ≤ 2 ^ 20 + 2 ^ 12 + 68
proto_mutation_request_bound_example =
    proto_mutation_request_bound summed (written 250) written-IsGoMutation written-valid

from_proto_handshake_iff_example :
    from_proto_handshake (some (proto_handshake accepted)) ≡ (accepted, none)
from_proto_handshake_iff_example =
    (from_proto_handshake_iff accepted (some (proto_handshake accepted))).1 (accepted-valid, refl)

abbrev report : HubStatus
report = record {
  hub_generation = 3;
  storage_profile = storage_durable;
  durable_healthy = true;
  status = status_ok;
}

report-valid : validate_hub_status report ≡ none
unfolding validate_hub_status
report-valid = refl

from_proto_hub_status_iff_example :
    from_proto_hub_status (some (proto_hub_status report)) ≡ (report, none)
unfolding storage_profile_valid
from_proto_hub_status_iff_example =
    (from_proto_hub_status_iff (some (proto_hub_status report)) report).1 (report-valid, refl, refl)

abbrev ceiling : GetRequest
ceiling = record {
  key = codes "a";
  min_version = some (record { partition_id = 9; sequence = 4 });
  hub_generation = 4;
}

ceiling-valid : validate_get ceiling ≡ none
unfolding validate_get validate_read_key
ceiling-valid = refl

from_proto_get_request_iff_example :
    from_proto_get_request (some (proto_get_request ceiling)) ≡ (ceiling, none)
from_proto_get_request_iff_example =
    (from_proto_get_request_iff (some (proto_get_request ceiling)) ceiling).1 (ceiling-valid, refl)
