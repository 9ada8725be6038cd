-- ===== src/Wire/Options.antt =====
-- The write policy of internal/wire/types.go: write mode, storage profile, confirmation level and
-- `WriteOptions`; and `TTLMillis`, which checks a duration in the same way.
-- A `time.Duration` is an int64 of nanoseconds. The enumerations are uint8, and `W` is a uint16.
pub mod Policy
use gossipcache.Common.{
  ℕ, ◌-◌, ◌^◌, Bool, ◌==◌, ◌&&◌, ◌||◌, not, if◌then◌else◌, none, ℤ, pos, is_negative, quo, rem,
  eqb_ℤ, ℕ_ltb_ℤ, uint64,
}
use gossipcache.Errors.{Check, of_wire, message, fail_if, ◌>>◌, Result, ok, err}
use gossipcache.Errors.{invalid_write_mode, invalid_confirm_level, invalid_storage_profile}
use gossipcache.Errors.{persistence_config_required, invalid_write_timeout}
use gossipcache.Errors.{timeout_not_whole_millis, write_timeout_too_large}
use gossipcache.Errors.{ttl_not_whole_milliseconds}

abbrev pub WriteMode : Type 0
WriteMode = ℕ

abbrev pub write_fast : WriteMode
write_fast = 0

abbrev pub write_sync : WriteMode
write_sync = 1

unfoldable pub write_mode_valid : WriteMode → Bool
write_mode_valid m = m == write_fast || m == write_sync

abbrev pub StorageProfile : Type 0
StorageProfile = ℕ

abbrev pub storage_memory : StorageProfile
storage_memory = 0

abbrev pub storage_durable : StorageProfile
storage_durable = 1

unfoldable pub storage_profile_valid : StorageProfile → Bool
storage_profile_valid p = p == storage_memory || p == storage_durable

unfoldable pub validate_storage_profile : StorageProfile → Bool → Check
unfolding storage_profile_valid
validate_storage_profile p persistence_configured = do
  fail_if (not (storage_profile_valid p)) (of_wire invalid_storage_profile)
  fail_if (p == storage_durable && not persistence_configured) (of_wire persistence_config_required)
  none

abbrev pub ConfirmLevel : Type 0
ConfirmLevel = ℕ

abbrev pub confirm_invalidate_applied : ConfirmLevel
confirm_invalidate_applied = 0

unfoldable pub confirm_level_valid : ConfirmLevel → Bool
confirm_level_valid c = c == confirm_invalidate_applied

-- `time.Millisecond`, in nanoseconds
abbrev pub millisecond : ℕ
millisecond = 1_000_000

-- `math.MaxUint32`
abbrev pub max_write_timeout_millis : ℕ
max_write_timeout_millis = 2 ^ 32 - 1

pub record WriteOptions : Type 0 where
  pub w : ℕ
  pub mode : WriteMode
  pub confirm_level : ConfirmLevel
  pub timeout : ℤ

unfoldable pub validate_write_options : WriteOptions → Check
unfolding write_mode_valid confirm_level_valid
validate_write_options o = do
  fail_if (not (write_mode_valid o.mode)) (of_wire invalid_write_mode)
  fail_if (not (confirm_level_valid o.confirm_level)) (of_wire invalid_confirm_level)
  fail_if (is_negative o.timeout) (of_wire invalid_write_timeout)
  fail_if (not (eqb_ℤ (rem o.timeout millisecond) (pos 0))) (of_wire timeout_not_whole_millis)
  fail_if (ℕ_ltb_ℤ max_write_timeout_millis (quo o.timeout millisecond))
      (of_wire write_timeout_too_large)
  none

-- The TTL of a value that does not expire.
abbrev pub ttl_none : ℕ
ttl_none = 0

unfoldable pub ttl_millis : ℤ → Result ℕ
ttl_millis ttl =
    if is_negative ttl
    then err (message "ttl must not be negative")
    else if not (eqb_ℤ (rem ttl millisecond) (pos 0))
    then err (of_wire ttl_not_whole_milliseconds)
    else ok (uint64 (quo ttl millisecond))
