-- ===== src/Pb/Common.antt =====
-- common.pb.go
use gossipcache.Common.{ℕ, ℤ, pos, List}

abbrev pub Status : Type 0
Status = ℤ

abbrev pub status_ok : Status
status_ok = pos 0

abbrev pub status_not_found : Status
status_not_found = pos 1

abbrev pub status_not_caught_up : Status
status_not_caught_up = pos 2

abbrev pub status_err_durability_unavailable : Status
status_err_durability_unavailable = pos 3

abbrev pub status_err_bad_generation : Status
status_err_bad_generation = pos 4

abbrev pub status_err_rate_limited : Status
status_err_rate_limited = pos 5

abbrev pub status_err_invalid_argument : Status
status_err_invalid_argument = pos 6

abbrev pub status_err_write_confirm_timeout : Status
status_err_write_confirm_timeout = pos 7

abbrev pub status_err_internal : Status
status_err_internal = pos 8

abbrev pub RecordKind : Type 0
RecordKind = ℤ

abbrev pub record_kind_value : RecordKind
record_kind_value = pos 0

abbrev pub record_kind_tombstone : RecordKind
record_kind_tombstone = pos 1

abbrev pub WriteMode : Type 0
WriteMode = ℤ

abbrev pub write_mode_fast : WriteMode
write_mode_fast = pos 0

abbrev pub write_mode_sync : WriteMode
write_mode_sync = pos 1

abbrev pub StorageProfile : Type 0
StorageProfile = ℤ

abbrev pub storage_profile_memory : StorageProfile
storage_profile_memory = pos 0

abbrev pub storage_profile_durable : StorageProfile
storage_profile_durable = pos 1

abbrev pub ConfirmLevel : Type 0
ConfirmLevel = ℤ

abbrev pub confirm_level_invalidate_applied : ConfirmLevel
confirm_level_invalidate_applied = pos 0

pub record VersionTag : Type 0 where
  pub partition_id : ℕ
  pub sequence : ℕ

pub record MutationId : Type 0 where
  pub id : List ℕ
