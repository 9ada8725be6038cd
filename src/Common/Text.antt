-- ===== src/Common/Text.antt =====
-- Go strings as far as the program looks into them: `strings.TrimSpace`, over code points.
use Prim.Native.Nat.{ℕ}
use Prim.Native.String.{String}
use Prim.Native.Char.{code}
use mathlib.Core.Path.{◌≡◌}
use mathlib.Core.Logic.{◌↔◌}
use mathlib.Core.Bool.{Bool, true, false, ◌&&◌, ◌||◌}
use mathlib.Core.List.{List, [], ◌∷◌}
use native.Mathlib.Omega.{arith}
use gossipcache.Common.Tests.{leb, ◌==◌, if◌then◌else◌}

-- The code points of a text.
abbrev pub codes : String → List ℕ
codes String.[] = []
codes (String.◌∷◌ c s) = code c ∷ codes s

-- `unicode.IsSpace`
unfoldable pub is_space : ℕ → Bool
is_space c =
    leb 0x09 c && leb c 0x0d
    || c == 0x20
    || c == 0x85
    || c == 0xa0
    || c == 0x1680
    || leb 0x2000 c && leb c 0x200a
    || c == 0x2028
    || c == 0x2029
    || c == 0x202f
    || c == 0x205f
    || c == 0x3000

abbrev is_empty : List ℕ → Bool
is_empty [] = true
is_empty (_ ∷ _) = false

trim_left : List ℕ → List ℕ
trim_left [] = []
trim_left (c ∷ s) = let rest = trim_left s in if is_space c then rest else c ∷ s

trim_right : List ℕ → List ℕ
trim_right [] = []
trim_right (c ∷ s) = let rest = trim_right s in if is_space c && is_empty rest then [] else c ∷ rest

unfoldable pub trim_space : List ℕ → List ℕ
unfolding trim_left trim_right
trim_space s = trim_right (trim_left s)

-- `strings.TrimSpace(s) == ""`
unfoldable pub is_blank : String → Bool
is_blank s = is_empty (trim_space (codes s))

abbrev pub AllSpace : List ℕ → Type 0
AllSpace [] = Unit
AllSpace (c ∷ s) = (is_space c ≡ true) × AllSpace s

trim_right-empty_iff : (s : List ℕ) → (is_empty (trim_right s) ≡ true) ↔ AllSpace s
unfolding trim_right
trim_right-empty_iff [] = ground arith
trim_right-empty_iff (c ∷ s) = ground (arith, trim_right-empty_iff s)

trim_space-empty_iff : (s : List ℕ) → (is_empty (trim_space s) ≡ true) ↔ AllSpace s
unfolding trim_space trim_left trim_right
trim_space-empty_iff [] = ground arith
trim_space-empty_iff (c ∷ s) = ground (arith, trim_space-empty_iff s, trim_right-empty_iff (c ∷ s))

-- A text is blank exactly when each of its code points is a space.
pub is_blank_iff : (s : String) → (is_blank s ≡ true) ↔ AllSpace (codes s)
unfolding is_blank
is_blank_iff s = trim_space-empty_iff (codes s)
