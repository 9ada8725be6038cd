-- ===== src/Wire/Version.antt =====
-- `VersionTag` of internal/wire/types.go, and its check in internal/wire/record.go.
-- A partition id is a uint32 and a sequence a uint64.
pub mod Order
use gossipcache.Common.{ℕ, Bool, ltb, ◌==◌, ◌&&◌}
use gossipcache.Errors.{Check, of_record, fail_if, missing_version}

pub record VersionTag : Type 0 where
  pub partition_id : ℕ
  pub sequence : ℕ

-- `VersionTag{}`
abbrev pub zero_version : VersionTag
zero_version = record { partition_id = 0; sequence = 0 }

unfoldable pub version_is_zero : VersionTag → Bool
version_is_zero v = v.partition_id == 0 && v.sequence == 0

unfoldable pub is_newer : VersionTag → VersionTag → Bool
is_newer v other = v.partition_id == other.partition_id && ltb other.sequence v.sequence

unfoldable pub validate_committed : VersionTag → Check
validate_committed v = fail_if (v.sequence == 0) (of_record missing_version)
