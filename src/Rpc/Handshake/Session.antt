-- ===== src/Rpc/Handshake/Session.antt =====
-- The handshakes and hub reports that internal/rpc/types.go accepts.
use gossipcache.Common.{◌<◌, ◌≡◌, ◌↔◌, ◌⊎◌, Bool, false, none, arith, AllSpace, codes, is_blank_iff}
use gossipcache.Errors.{ok}
use gossipcache.Wire.Protocol.{validate_protocol_range, negotiate, current_protocol_range}
use gossipcache.Wire.Protocol.{ProtocolRange}
use gossipcache.Wire.Protocol.Negotiation.{IsRange, validate_protocol_range_iff}
use gossipcache.Wire.Options.{StorageProfile, storage_memory, storage_durable}
use gossipcache.Wire.Status.{status_ok, status_err_bad_generation, status_err_invalid_argument}
use Prim.Native.String.{String}
use gossipcache.Rpc.Handshake.{
  validate_cluster_id, HandshakeRequest, validate_handshake_request, Handshake, validate_handshake,
  HubStatus, validate_hub_status,
}

-- Some code point of the cluster's name is no space.
abbrev pub IsClusterId : String → Type 0
IsClusterId id = ¬ (AllSpace (codes id))

pub validate_cluster_id_iff : (id : String) → (validate_cluster_id id ≡ none) ↔ IsClusterId id
unfolding validate_cluster_id
validate_cluster_id_iff id = ground (arith, is_blank_iff id)

-- Only a hub with durable storage reports that the storage is healthy.
abbrev pub IsStorage : StorageProfile → Bool → Type 0
IsStorage profile healthy =
    ((profile ≡ storage_memory) × (healthy ≡ false)) ⊎ (profile ≡ storage_durable)

-- The fields of a handshake other than the version.
pub record IsSession (m : Handshake) : Type 0 where
  pub generation : 0 < m.hub_generation
  pub partitions : 0 < m.partition_count
  pub storage : IsStorage m.storage_profile m.durable_healthy
  pub cluster : IsClusterId m.cluster_id

-- A handshake request passes exactly when its range is valid and its cluster id is not blank; any
-- expected generation passes, the zero of a bootstrap too.
pub validate_handshake_request_iff :
    (m : HandshakeRequest)
    → (validate_handshake_request m ≡ none) ↔ (IsRange m.protocol × IsClusterId m.cluster_id)
unfolding validate_handshake_request
validate_handshake_request_iff m =
    ground (arith, validate_protocol_range_iff m.protocol, validate_cluster_id_iff m.cluster_id)

-- A node accepts a handshake exactly when its version is one that this implementation's range
-- negotiates with some peer, and its other fields describe a session.
pub validate_handshake_iff :
    (m : Handshake)
    → (validate_handshake m ≡ none) ↔ (
        ((peer : ProtocolRange) × (negotiate current_protocol_range peer ≡ ok m.protocol_version))
        × IsSession m)
unfolding validate_handshake negotiate validate_protocol_range current_protocol_range
validate_handshake_iff m = (
  λ e. (
    (record { version = m.protocol_version; min_supported = m.protocol_version }, ground arith),
    ground (arith, validate_cluster_id_iff m.cluster_id),
  ),
  λ ((peer, agreed), s). ground (arith, agreed, s, validate_cluster_id_iff m.cluster_id),
)

-- A hub report passes exactly when it has a generation and is either an OK with a storage report,
-- or one of the two refusals that the status probe knows.
pub validate_hub_status_iff :
    (m : HubStatus)
    → (validate_hub_status m ≡ none) ↔ (
        (0 < m.hub_generation)
        × (((m.status ≡ status_ok) × IsStorage m.storage_profile m.durable_healthy)
            ⊎ (m.status ≡ status_err_bad_generation)
            ⊎ (m.status ≡ status_err_invalid_argument)))
unfolding validate_hub_status
validate_hub_status_iff m = ground arith
