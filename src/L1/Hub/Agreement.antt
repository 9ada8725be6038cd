-- ===== src/L1/Hub/Agreement.antt =====
-- internal/l1/hub.go and internal/rpc/types.go check one answer alike.
use gossipcache.Common.{◌<◌, ◌≡◌, IsInt64, arith}
use gossipcache.Errors.{ok}
use gossipcache.Wire.Options.{ttl_millis}
use gossipcache.Wire.Options.Policy.{ttl_millis_iff}
use gossipcache.Rpc.Read.{GetResponse, validate_get_response}
use gossipcache.L1.Hub.{GetResult, validate_get_result}

-- The node's result and the RPC's answer say the same. `TTLMillis` turns the TTL of the one, an
-- int64 of nanoseconds, into that of the other.
pub record Says (r : GetResult) (m : GetResponse) : Type 0 where
  pub value : r.value ≡ m.value
  pub generation : r.hub_generation ≡ m.hub_generation
  pub version : r.version ≡ m.version
  pub kind : r.kind ≡ m.kind
  pub status : r.status ≡ m.status
  pub duration : IsInt64 r.ttl
  pub ttl : ttl_millis r.ttl ≡ ok m.ttl_millis

-- If a result and an answer with a generation say the same, with the TTL of the one, an int64, being
-- that of the other by `TTLMillis`, then the node's check of the result and the RPC's of the
-- answer have one outcome: the same error, or none.
pub validate_get_result-validate_get_response :
    (r : GetResult) (m : GetResponse)
    → Says r m
    → 0 < m.hub_generation
    → validate_get_result r ≡ validate_get_response m
unfolding validate_get_result validate_get_response
validate_get_result-validate_get_response r m s h =
    let whole = (ttl_millis_iff r.ttl m.ttl_millis s.duration).0 s.ttl in
    ground (arith, s.value, s.version, s.kind, s.status, whole)
