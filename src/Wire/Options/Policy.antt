-- ===== src/Wire/Options/Policy.antt =====
-- The write policies and durations that internal/wire/types.go accepts.
use gossipcache.Common.{
  ℕ, ◌*◌, ◌/◌, ◌^◌, ◌<◌, ◌≡◌, ◌↔◌, ◌⊎◌, Bool, true, false, none, arith, ℤ, pos, negsuc, rem, quo,
  is_negative, IsInt64, eqb_ℤ, ℕ_ltb_ℤ,
}
use gossipcache.Errors.{ok}
use gossipcache.Wire.Options.{
  WriteOptions, write_fast, write_sync, confirm_invalidate_applied, max_write_timeout_millis,
  millisecond, storage_memory, storage_durable, StorageProfile, validate_write_options,
  validate_storage_profile, ttl_millis,
}

-- A duration of t whole milliseconds.
abbrev pub millis : ℕ → ℤ
millis t = pos (t * millisecond)

pub record IsPolicy (o : WriteOptions) : Type 0 where
  pub mode : (o.mode ≡ write_fast) ⊎ (o.mode ≡ write_sync)
  pub level : o.confirm_level ≡ confirm_invalidate_applied
  pub timeout : (t : ℕ) × (o.timeout ≡ millis t) × (t < 2 ^ 32)

whole_millis :
    (o : WriteOptions)
    → validate_write_options o ≡ none
    → (t : ℕ) × (o.timeout ≡ millis t) × (t < 2 ^ 32)
unfolding validate_write_options
whole_millis o e = millis_of o.timeout (ground arith) (ground arith) (ground arith)
  where
    millis_of :
        (d : ℤ)
        → is_negative d ≡ false
        → eqb_ℤ (rem d millisecond) (pos 0) ≡ true
        → ℕ_ltb_ℤ max_write_timeout_millis (quo d millisecond) ≡ false
        → (t : ℕ) × (d ≡ millis t) × (t < 2 ^ 32)
    millis_of (pos n) s r q = (n / millisecond, ground arith, ground arith)
    millis_of (negsuc n) s r q = cc

-- The policy is accepted exactly when its mode and level are defined and its timeout is a whole
-- number of milliseconds that fits the uint32 of the RPC field.
pub validate_write_options_iff : (o : WriteOptions) → (validate_write_options o ≡ none) ↔ IsPolicy o
unfolding validate_write_options
validate_write_options_iff o = (
  λ e. record { mode = ground arith; level = ground arith; timeout = whole_millis o e },
  λ p. let (t, same, fits) = p.timeout in ground (arith, p.mode, p.level, same, fits),
)

-- A TTL of an int64 converts to t milliseconds exactly when it is t whole milliseconds.
pub ttl_millis_iff : (ttl : ℤ) (t : ℕ) → IsInt64 ttl → (ttl_millis ttl ≡ ok t) ↔ (ttl ≡ millis t)
unfolding ttl_millis
ttl_millis_iff ttl t h = ground arith

pub validate_storage_profile_iff :
    (p : StorageProfile) (persistence : Bool)
    → (validate_storage_profile p persistence ≡ none)
      ↔ ((p ≡ storage_memory) ⊎ ((p ≡ storage_durable) × (persistence ≡ true)))
unfolding validate_storage_profile
validate_storage_profile_iff p persistence = ground arith
