-- ===== src/L1/Contract.antt =====
-- The seams of internal/l1, over a type S of states: `HubClient` of hub.go, which a hub's client
-- implements, and `FakeHooks` of fake_contract.go, which a test hands to a fake. A call takes a
-- state and returns the next one with its results. The `context.Context` of a call is left out.
use gossipcache.Common.{ℕ, ℤ, Option, List}
use gossipcache.Errors.{Error, Check, of_record}
use gossipcache.Errors.{
  invalid_get_status, missing_version, unexpected_version, unexpected_value, invalid_result_ttl,
  RecordSentinel,
}
use gossipcache.Wire.Options.{WriteOptions}
use gossipcache.Wire.Version.{VersionTag}
use gossipcache.L1.Hub.{GetResult}
use gossipcache.L1.Clones.{FakeOp, Mutation}

-- The errors that the package names anew.
abbrev pub err_invalid_get_status : Error
err_invalid_get_status = of_record invalid_get_status

abbrev pub err_missing_version : Error
err_missing_version = of_record missing_version

abbrev pub err_unexpected_version : Error
err_unexpected_version = of_record unexpected_version

abbrev pub err_unexpected_value : Error
err_unexpected_value = of_record unexpected_value

abbrev pub err_invalid_record_kind : Error
err_invalid_record_kind = of_record RecordSentinel.invalid_record_kind

abbrev pub err_invalid_result_ttl : Error
err_invalid_result_ttl = of_record invalid_result_ttl

pub record HubClient (S : Type 0) : Type 0 where
  pub get : S → List ℕ → Option VersionTag → S × GetResult × Check
  pub set : S → List ℕ → List ℕ → ℤ → WriteOptions → S × VersionTag × Check
  pub delete : S → List ℕ → WriteOptions → S × VersionTag × Check

-- A hook may be nil. A barrier returns the function that the fake calls to wait.
pub record FakeHooks (S : Type 0) : Type 0 where
  pub before_get_return : Option (S → List ℕ → S × (S → S))
  pub before_commit : Option (S → Mutation → S × (S → S))
  pub fail_next : Option (S → FakeOp → S × Check)
