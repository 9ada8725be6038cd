-- ===== src/L1/Hub.antt =====
-- `GetResult` of internal/l1/hub.go: an authoritative read as the node's cache sees it.
pub mod Agreement
use gossipcache.Common.{ℕ, ◌!=◌, ◌&&◌, not, none, List, ℤ, pos, is_negative, eqb_ℤ}
use gossipcache.Errors.{Check, of_record, fail_if, ◌>>◌, invalid_result_ttl}
use gossipcache.Wire.Version.{VersionTag}
use gossipcache.Wire.Status.{Status, status_ok}
use gossipcache.Wire.Record.{RecordKind, validate_get_record}

pub record GetResult : Type 0 where
  pub value : List ℕ
  pub hub_generation : ℕ
  pub version : VersionTag
  pub ttl : ℤ
  pub kind : RecordKind
  pub status : Status

unfoldable pub validate_get_result : GetResult → Check
validate_get_result r = do
  fail_if (is_negative r.ttl) (of_record invalid_result_ttl)
  validate_get_record
      (record { status = r.status; version = r.version; kind = r.kind; value = r.value })
  fail_if (r.status != status_ok && not (eqb_ℤ r.ttl (pos 0))) (of_record invalid_result_ttl)
  none
