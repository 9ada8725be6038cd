-- ===== src/Rpc/Convert/Sessions.antt =====
-- The session messages of internal/rpc/convert.go, there and back.
use gossipcache.Common.{ap, true, ◌<◌, ◌^◌, ◌≡◌, ◌≢◌, ◌↔◌, Option, none, some, arith}
use gossipcache.Wire.Options.{storage_profile_valid}
use gossipcache.Wire.Status.{status_valid}
use gossipcache.Rpc.Handshake.{
  HandshakeRequest, validate_handshake_request, Handshake, validate_handshake, HubStatus,
  validate_hub_status,
}
use gossipcache.Pb
use gossipcache.Rpc.Convert.Enums.{proto_storage_profile}
use gossipcache.Rpc.Convert.Values.{
  protocol_version_from_uint32_iff, from_proto_storage_profile_iff, from_proto_status_iff,
}
use gossipcache.Rpc.Convert.ToProto.{proto_handshake_request, proto_handshake, proto_hub_status}
use gossipcache.Rpc.Convert.FromProto.{
  from_proto_handshake_request, from_proto_handshake, from_proto_hub_status,
}

validate_hub_status-defined :
    (m : HubStatus) → validate_hub_status m ≡ none → status_valid m.status ≡ true
unfolding validate_hub_status
validate_hub_status-defined m e = ground arith

module _ (m : Handshake) where
  validate_handshake-defined :
      validate_handshake m ≡ none
      → (storage_profile_valid m.storage_profile ≡ true) × (m.protocol_version < 2 ^ 16)
  unfolding validate_handshake
  validate_handshake-defined e = ground arith

  from_proto_handshake_sound :
      (q : Pb.HandshakeResponse)
      → from_proto_handshake (some q) ≡ (m, none)
      → (validate_handshake m ≡ none) × (q ≡ proto_handshake m)
  unfolding from_proto_handshake proto_handshake
  from_proto_handshake_sound q e = ground (
    arith,
    protocol_version_from_uint32_iff q.protocol_version m.protocol_version,
    from_proto_storage_profile_iff q.storage_profile m.storage_profile,
  )

  from_proto_handshake_complete :
      validate_handshake m ≡ none → from_proto_handshake (some (proto_handshake m)) ≡ (m, none)
  unfolding from_proto_handshake proto_handshake
  from_proto_handshake_complete e = ground (
    arith,
    validate_handshake-defined e,
    protocol_version_from_uint32_iff m.protocol_version m.protocol_version,
    from_proto_storage_profile_iff (proto_storage_profile m.storage_profile) m.storage_profile,
  )

  from_proto_handshake-nil : from_proto_handshake none ≢ (m, none)
  unfolding from_proto_handshake
  from_proto_handshake-nil = ground arith

  -- A message converts back to the handshake with no error exactly when the handshake is valid and
  -- the message is what it converts to; so a version above 16 bits never passes for a smaller one, and
  -- nil is refused.
  pub from_proto_handshake_iff :
      (p : Option Pb.HandshakeResponse)
      → (from_proto_handshake p ≡ (m, none))
        ↔ ((validate_handshake m ≡ none) × (p ≡ some (proto_handshake m)))
  from_proto_handshake_iff none = (λ e. absurd (from_proto_handshake-nil e), λ (_, none_some). cc)
  from_proto_handshake_iff (some q) = (
    λ e. let (v, same) = from_proto_handshake_sound q e in (v, ap some same),
    λ (v, same). rw same (from_proto_handshake_complete v),
  )

-- The same of a handshake request, whose two versions must have 16 bits.
pub from_proto_handshake_request_iff :
    (p : Option Pb.HandshakeRequest) (m : HandshakeRequest)
    → (from_proto_handshake_request p ≡ (m, none)) ↔ (
        (validate_handshake_request m ≡ none)
        × (m.protocol.version < 2 ^ 16)
        × (m.protocol.min_supported < 2 ^ 16)
        × (p ≡ some (proto_handshake_request m)))
unfolding from_proto_handshake_request proto_handshake_request
from_proto_handshake_request_iff none m = ground arith
from_proto_handshake_request_iff (some q) m = ground (
  arith,
  protocol_version_from_uint32_iff q.protocol_version m.protocol.version,
  protocol_version_from_uint32_iff q.min_supported_version m.protocol.min_supported,
)

-- A message converts back to the hub report `m` with no error exactly when `m` is valid, its storage
-- profile is defined, also where the report is a refusal, and the message is what it converts to.
-- Nil is refused.
pub from_proto_hub_status_iff :
    (p : Option Pb.HubStatusResponse) (m : HubStatus)
    → (from_proto_hub_status p ≡ (m, none)) ↔ (
        (validate_hub_status m ≡ none)
        × (storage_profile_valid m.storage_profile ≡ true)
        × (p ≡ some (proto_hub_status m)))
unfolding from_proto_hub_status proto_hub_status
from_proto_hub_status_iff none m = ground arith
from_proto_hub_status_iff (some q) m = ground (
  arith,
  from_proto_status_iff q.status m.status,
  from_proto_storage_profile_iff q.storage_profile m.storage_profile,
  validate_hub_status-defined m,
)
