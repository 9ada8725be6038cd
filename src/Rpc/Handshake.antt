-- ===== src/Rpc/Handshake.antt =====
-- The session and status messages of internal/rpc/types.go.
pub mod Session
use gossipcache.Common.{ℕ, Bool, ltb, ◌==◌, ◌&&◌, ◌||◌, not, if◌then◌else◌, some, none, is_blank}
use gossipcache.Errors.{Check, of_wire, of_rpc, fail_if, ◌>>◌, RpcSentinel}
use gossipcache.Errors.{incompatible_protocol_ranges, invalid_storage_profile}
use gossipcache.Errors.{invalid_partition_count, invalid_durable_health, invalid_status}
use gossipcache.Wire.Protocol.{ProtocolRange, validate_protocol_range}
use gossipcache.Wire.Protocol.{current_protocol_version, min_supported_protocol_version}
use gossipcache.Wire.Options.{StorageProfile, storage_memory, storage_profile_valid}
use gossipcache.Wire.Status.{Status, status_ok, status_err_bad_generation}
use gossipcache.Wire.Status.{status_err_invalid_argument, status_valid}
use Prim.Native.String.{String}

unfoldable pub validate_cluster_id : String → Check
validate_cluster_id id = fail_if (is_blank id) (of_rpc RpcSentinel.invalid_cluster_id)

-- An expected generation of zero is a bootstrap.
pub record HandshakeRequest : Type 0 where
  pub protocol : ProtocolRange
  pub cluster_id : String
  pub expected_hub_generation : ℕ

unfoldable pub validate_handshake_request : HandshakeRequest → Check
validate_handshake_request m = do
  validate_protocol_range m.protocol
  validate_cluster_id m.cluster_id

pub record Handshake : Type 0 where
  pub protocol_version : ℕ
  pub hub_generation : ℕ
  pub partition_count : ℕ
  pub storage_profile : StorageProfile
  pub durable_healthy : Bool
  pub cluster_id : String

unfoldable pub validate_handshake : Handshake → Check
unfolding storage_profile_valid
validate_handshake m = do
  fail_if
      (ltb m.protocol_version min_supported_protocol_version
        || ltb current_protocol_version m.protocol_version)
      (of_wire incompatible_protocol_ranges)
  fail_if (m.hub_generation == 0) (of_rpc RpcSentinel.invalid_hub_generation)
  fail_if (m.partition_count == 0) invalid_partition_count
  fail_if (not (storage_profile_valid m.storage_profile)) (of_wire invalid_storage_profile)
  fail_if (m.storage_profile == storage_memory && m.durable_healthy) (of_rpc invalid_durable_health)
  validate_cluster_id m.cluster_id

pub record HubStatusRequest : Type 0 where
  pub hub_generation : ℕ

unfoldable pub validate_hub_status_request : HubStatusRequest → Check
validate_hub_status_request m =
    fail_if (m.hub_generation == 0) (of_rpc RpcSentinel.invalid_hub_generation)

pub record HubStatus : Type 0 where
  pub hub_generation : ℕ
  pub storage_profile : StorageProfile
  pub durable_healthy : Bool
  pub status : Status

unfoldable pub validate_hub_status : HubStatus → Check
unfolding storage_profile_valid status_valid
validate_hub_status m = do
  fail_if (m.hub_generation == 0) (of_rpc RpcSentinel.invalid_hub_generation)
  fail_if (not (status_valid m.status)) (of_rpc invalid_status)
  if m.status == status_ok
      then (do
        fail_if (not (storage_profile_valid m.storage_profile)) (of_wire invalid_storage_profile)
        fail_if (m.storage_profile == storage_memory && m.durable_healthy)
            (of_rpc invalid_durable_health)
        none)
      else (if m.status == status_err_bad_generation || m.status == status_err_invalid_argument
          then none
          else some (of_rpc invalid_status))
