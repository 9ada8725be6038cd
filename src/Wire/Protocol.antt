-- ===== src/Wire/Protocol.antt =====
-- internal/wire/protocol.go: the protocol range and its negotiation. A version is a uint16.
pub mod Negotiation
use gossipcache.Common.{ℕ, ltb, ◌==◌, if◌then◌else◌, ◌||◌, none, some, min, max}
use gossipcache.Errors.{Check, of_wire, fail_if, Result, ok, err}
use gossipcache.Errors.{invalid_protocol_range, incompatible_protocol_ranges}

pub record ProtocolRange : Type 0 where
  pub version : ℕ
  pub min_supported : ℕ

abbrev pub current_protocol_version : ℕ
current_protocol_version = 1

abbrev pub min_supported_protocol_version : ℕ
min_supported_protocol_version = 1

unfoldable pub current_protocol_range : ProtocolRange
current_protocol_range = record {
  version = current_protocol_version;
  min_supported = min_supported_protocol_version;
}

unfoldable pub validate_protocol_range : ProtocolRange → Check
validate_protocol_range r =
    fail_if (r.min_supported == 0 || r.version == 0 || ltb r.version r.min_supported)
      (of_wire invalid_protocol_range)

-- The highest version that both sides support.
unfoldable pub negotiate : ProtocolRange → ProtocolRange → Result ℕ
negotiate r peer = elim (validate_protocol_range r) [
  | some e ↦ err e
  | none ↦ elim (validate_protocol_range peer) [
    | some e ↦ err e
    | none ↦
        let version = min r.version peer.version in
        let minimum = max r.min_supported peer.min_supported in
        if ltb version minimum then err (of_wire incompatible_protocol_ranges) else ok version
  ]
]
