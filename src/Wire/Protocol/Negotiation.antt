-- ===== src/Wire/Protocol/Negotiation.antt =====
-- What `Validate` and `Negotiate` of internal/wire/protocol.go decide.
use gossipcache.Common.{ℕ, ◌≤◌, ◌<◌, ◌≡◌, ◌↔◌, none, min, arith}
use gossipcache.Errors.{of_wire, ok, err, incompatible_protocol_ranges}
use gossipcache.Wire.Protocol.{ProtocolRange, validate_protocol_range, negotiate}

abbrev pub IsRange : ProtocolRange → Type 0
IsRange r = (0 < r.min_supported) × (r.min_supported ≤ r.version)

abbrev pub Supports : ProtocolRange → ℕ → Type 0
Supports r v = (r.min_supported ≤ v) × (v ≤ r.version)

-- The highest version in two ranges.
pub record IsAgreed (r peer : ProtocolRange) (v : ℕ) : Type 0 where
  pub range : IsRange r
  pub peer_range : IsRange peer
  pub supported : Supports r v
  pub peer_supported : Supports peer v
  pub highest : (u : ℕ) → Supports r u → Supports peer u → u ≤ v

pub validate_protocol_range_iff :
    (r : ProtocolRange) → (validate_protocol_range r ≡ none) ↔ IsRange r
unfolding validate_protocol_range
validate_protocol_range_iff r = ground arith

module _ (r peer : ProtocolRange) where
  negotiate_sound : (v : ℕ) → negotiate r peer ≡ ok v → IsAgreed r peer v
  unfolding negotiate validate_protocol_range
  negotiate_sound v e = record {
    range = ground arith;
    peer_range = ground arith;
    supported = ground arith;
    peer_supported = ground arith;
    highest = λ u p q. ground arith;
  }

  negotiate_complete : (v : ℕ) → IsAgreed r peer v → negotiate r peer ≡ ok v
  unfolding negotiate validate_protocol_range
  negotiate_complete v a = ground (
    arith,
    a.range,
    a.peer_range,
    a.supported,
    a.peer_supported,
    a.highest (min r.version peer.version),
  )

  -- A negotiation ends in `v` exactly when both ranges are valid and `v` is the highest version
  -- that both support.
  pub negotiate_iff : (v : ℕ) → (negotiate r peer ≡ ok v) ↔ IsAgreed r peer v
  negotiate_iff v = (negotiate_sound v, negotiate_complete v)

  -- Two valid ranges are refused as incompatible exactly when they have no version in common.
  pub negotiate-incompatible_iff :
      IsRange r
      → IsRange peer
      → (negotiate r peer ≡ err (of_wire incompatible_protocol_ranges))
        ↔ ((v : ℕ) → Supports r v → ¬ (Supports peer v))
  unfolding negotiate validate_protocol_range
  negotiate-incompatible_iff h k =
      (λ e v p q. ground arith, λ apart. ground (arith, apart (min r.version peer.version)))

  -- Both sides of a handshake come to the same answer, errors included.
  pub negotiate_comm : negotiate r peer ≡ negotiate peer r
  unfolding negotiate validate_protocol_range
  negotiate_comm = ground arith
