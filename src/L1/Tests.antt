-- ===== src/L1/Tests.antt =====
-- A run of the two checks of internal/l1/hub.go and internal/rpc/types.go on one answer.
use gossipcache.Common.{◌*◌, ◌≡◌, refl, ◌∷◌, [], pos, arith}
use gossipcache.Wire.Options.{millisecond, ttl_millis}
use gossipcache.Wire.Status.{status_ok}
use gossipcache.Wire.Record.{record_value}
use gossipcache.Rpc.Read.{GetResponse, validate_get_response}
use gossipcache.L1.Hub.{GetResult, validate_get_result}
use gossipcache.L1.Hub.Agreement.{Says, validate_get_result-validate_get_response}

abbrev live : GetResponse
live = record {
  status = status_ok;
  hub_generation = 3;
  version = record { partition_id = 7; sequence = 9 };
  value = 1 ∷ 2 ∷ [];
  ttl_millis = 1500;
  kind = record_value;
}

abbrev kept : GetResult
kept = record {
  value = 1 ∷ 2 ∷ [];
  hub_generation = 3;
  version = record { partition_id = 7; sequence = 9 };
  ttl = pos (1500 * millisecond);
  kind = record_value;
  status = status_ok;
}

kept-live : Says kept live
unfolding ttl_millis
kept-live = record {
  value = refl;
  generation = refl;
  version = refl;
  kind = refl;
  status = refl;
  duration = omega arith;
  ttl = refl;
}

validate_get_result-validate_get_response_example :
    validate_get_result kept ≡ validate_get_response live
validate_get_result-validate_get_response_example =
    validate_get_result-validate_get_response kept live kept-live (omega arith)
