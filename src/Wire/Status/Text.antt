-- ===== src/Wire/Status/Text.antt =====
-- `Status.String` of internal/wire/status.go tells the codes apart: a reader of the text recovers
-- the code.
use gossipcache.Common.{
  ℕ, zero, suc, ◌+◌, ◌-◌, ◌*◌, ◌/◌, ◌%◌, ◌^◌, ◌<◌, ◌≡◌, ◌↔◌, refl, ap, sym, ◌∙◌, Bool, true, false,
  ◌&&◌, leb, ◌==◌, if◌then◌else◌, List, [], ◌∷◌, ◌++◌, codes, arith,
}
use native.Mathlib.Nat.{pow-suc}
use gossipcache.Wire.Status.{Status, format_uint, status_string}

abbrev digit : ℕ → ℕ → ℕ
digit n c = if leb 48 c && leb c 57 then 10 * n + (c - 48) else n

-- The number that the decimal digits of a text form, behind those read before.
abbrev number : ℕ → List ℕ → ℕ
number n [] = n
number n (c ∷ text) = number (digit n c) text

number-append : (n : ℕ) (a b : List ℕ) → number n (a ++ b) ≡ number (number n a) b
number-append n [] b = refl
number-append n (c ∷ a) b = number-append (digit n c) a b

digit_lem : (n d : ℕ) → d < 10 → digit n (48 + d) ≡ 10 * n + d
digit_lem n d p = ground arith

number-format_uint : (fuel n : ℕ) → n < 10 ^ suc fuel → number 0 (format_uint fuel n) ≡ n
unfolding format_uint
number-format_uint zero n p = omega (arith, digit_lem 0 (n % 10) (omega arith))
number-format_uint (suc fuel) n p = ground (
  arith,
  digit_lem 0 (n % 10) (omega arith),
  digit_lem (n / 10) (n % 10) (omega arith),
  number-format_uint fuel (n / 10) (omega (arith, p, pow-suc 10 (suc fuel))),
  number-append 0 (format_uint fuel (n / 10)) ((48 + n % 10) ∷ []),
)

-- A reader of the text: the nine names begin otherwise than the text of a code without one.
abbrev text_equal : List ℕ → List ℕ → Bool
text_equal [] [] = true
text_equal [] (_ ∷ _) = false
text_equal (_ ∷ _) [] = false
text_equal (a ∷ s) (b ∷ t) = a == b && text_equal s t

abbrev read_status : List ℕ → Status
read_status text =
    if text_equal text (codes "OK")
    then 0
    else if text_equal text (codes "NOT_FOUND")
    then 1
    else if text_equal text (codes "NOT_CAUGHT_UP")
    then 2
    else if text_equal text (codes "ERR_DURABILITY_UNAVAILABLE")
    then 3
    else if text_equal text (codes "ERR_BAD_GENERATION")
    then 4
    else if text_equal text (codes "ERR_RATE_LIMITED")
    then 5
    else if text_equal text (codes "ERR_INVALID_ARGUMENT")
    then 6
    else if text_equal text (codes "ERR_WRITE_CONFIRM_TIMEOUT")
    then 7
    else if text_equal text (codes "ERR_INTERNAL")
    then 8
    else number 0 text

read_status_undefined :
    (s : ℕ) → s < 2 ^ 16 → read_status (codes "Status(" ++ format_uint 4 s ++ codes ")") ≡ s
read_status_undefined s p =
    number-append 0 (format_uint 4 s) (codes ")") ∙ number-format_uint 4 s (omega arith)

status_string_undefined :
    (s : ℕ) → 8 < s → status_string s ≡ codes "Status(" ++ format_uint 4 s ++ codes ")"
unfolding status_string
status_string_undefined s p = ground arith

read_status-status_string : (s : Status) → s < 2 ^ 16 → read_status (status_string s) ≡ s
unfolding status_string
read_status-status_string zero p = refl
read_status-status_string (suc zero) p = refl
read_status-status_string (suc (suc zero)) p = refl
read_status-status_string (suc (suc (suc zero))) p = refl
read_status-status_string (suc (suc (suc (suc zero)))) p = refl
read_status-status_string (suc (suc (suc (suc (suc zero))))) p = refl
read_status-status_string (suc (suc (suc (suc (suc (suc zero)))))) p = refl
read_status-status_string (suc (suc (suc (suc (suc (suc (suc zero))))))) p = refl
read_status-status_string (suc (suc (suc (suc (suc (suc (suc (suc zero)))))))) p = refl
read_status-status_string (suc (suc (suc (suc (suc (suc (suc (suc (suc s))))))))) p =
    ap read_status (
      status_string_undefined (suc (suc (suc (suc (suc (suc (suc (suc (suc s))))))))) (omega arith))
    ∙ read_status_undefined (suc (suc (suc (suc (suc (suc (suc (suc (suc s))))))))) p

-- No two of the 65536 codes, defined or not, have the same text.
pub status_string_injective :
    (s t : Status) → s < 2 ^ 16 → t < 2 ^ 16 → (status_string s ≡ status_string t) ↔ (s ≡ t)
status_string_injective s t p q = (
  λ e. sym (read_status-status_string s p) ∙ ap read_status e ∙ read_status-status_string t q,
  λ e. ap status_string e,
)
