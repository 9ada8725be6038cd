-- ===== src/Wire/Status.antt =====
-- internal/wire/status.go: the data-plane result codes, a uint16 with nine defined values, and
-- their text. The text of an undefined code needs `strconv.FormatUint`, here `format_uint`.
pub mod Classes
pub mod Text
use gossipcache.Common.{ℕ, zero, suc, ◌/◌, ◌%◌, ◌+◌, Bool, true, false, leb, ◌==◌, if◌then◌else◌}
use gossipcache.Common.{List, [], ◌∷◌, ◌++◌, ◌||◌, codes}

abbrev pub Status : Type 0
Status = ℕ

abbrev pub status_ok : Status
status_ok = 0

abbrev pub status_not_found : Status
status_not_found = 1

abbrev pub status_not_caught_up : Status
status_not_caught_up = 2

abbrev pub status_err_durability_unavailable : Status
status_err_durability_unavailable = 3

abbrev pub status_err_bad_generation : Status
status_err_bad_generation = 4

abbrev pub status_err_rate_limited : Status
status_err_rate_limited = 5

abbrev pub status_err_invalid_argument : Status
status_err_invalid_argument = 6

abbrev pub status_err_write_confirm_timeout : Status
status_err_write_confirm_timeout = 7

abbrev pub status_err_internal : Status
status_err_internal = 8

pub data StatusClass : Type 0 where
  success retryable terminal : StatusClass

unfoldable pub status_valid : Status → Bool
status_valid s = leb s status_err_internal

unfoldable pub status_class : Status → StatusClass
status_class s =
    if s == status_ok || s == status_not_found || s == status_err_write_confirm_timeout
    then success
    else if s == status_not_caught_up || s == status_err_rate_limited
    then retryable
    else terminal

abbrev class_eq : StatusClass → StatusClass → Bool
class_eq success success = true
class_eq retryable retryable = true
class_eq terminal terminal = true
class_eq _ _ = false

unfoldable pub status_retryable : Status → Bool
unfolding status_class
status_retryable s = class_eq (status_class s) retryable

unfoldable pub status_terminal : Status → Bool
unfolding status_class
status_terminal s = class_eq (status_class s) terminal

-- The decimal digits of n, for n < 10 ^ (fuel + 1).
unfoldable pub format_uint : ℕ → ℕ → List ℕ
format_uint zero n = (48 + n % 10) ∷ []
format_uint (suc fuel) n =
    let front = format_uint fuel (n / 10) in
    let digit = 48 + n % 10 in if n / 10 == 0 then digit ∷ [] else front ++ digit ∷ []

-- The code points of `s.String()`. A uint16 has five digits at most.
unfoldable pub status_string : Status → List ℕ
unfolding format_uint
status_string s =
    if s == status_ok
    then codes "OK"
    else if s == status_not_found
    then codes "NOT_FOUND"
    else if s == status_not_caught_up
    then codes "NOT_CAUGHT_UP"
    else if s == status_err_durability_unavailable
    then codes "ERR_DURABILITY_UNAVAILABLE"
    else if s == status_err_bad_generation
    then codes "ERR_BAD_GENERATION"
    else if s == status_err_rate_limited
    then codes "ERR_RATE_LIMITED"
    else if s == status_err_invalid_argument
    then codes "ERR_INVALID_ARGUMENT"
    else if s == status_err_write_confirm_timeout
    then codes "ERR_WRITE_CONFIRM_TIMEOUT"
    else if s == status_err_internal
    then codes "ERR_INTERNAL"
    else codes "Status(" ++ format_uint 4 s ++ codes ")"
