-- ===== src/Common/Words.antt =====
-- Go's uint64 arithmetic, which wraps, and words read from bytes, the lowest first.
use Prim.Native.Nat.{ℕ, ◌+◌, ◌-◌, ◌*◌, ◌/◌, ◌%◌, ◌^◌, bit_xor}
use mathlib.Core.List.{List, [], ◌∷◌}

infixl 65 ◌+64◌ ◌-64◌
infixl 70 ◌*64◌
infixl 60 ◌xor◌
unfoldable pub ◌+64◌ : ℕ → ℕ → ℕ
a +64 b = (a + b) % 2 ^ 64

unfoldable pub ◌-64◌ : ℕ → ℕ → ℕ
a -64 b = (a + 2 ^ 64 - b) % 2 ^ 64

unfoldable pub ◌*64◌ : ℕ → ℕ → ℕ
a *64 b = a * b % 2 ^ 64

unfoldable pub ◌xor◌ : ℕ → ℕ → ℕ
a xor b = bit_xor a b

-- `x >> k`
unfoldable pub shr : ℕ → ℕ → ℕ
shr x k = x / 2 ^ k

-- `bits.RotateLeft64(x, k)` for 0 < k < 64: the two shifted parts have no bit in common.
unfoldable pub rotate_left64 : ℕ → ℕ → ℕ
rotate_left64 x k = x * 2 ^ k % 2 ^ 64 + x / 2 ^ (64 - k)

-- `binary.LittleEndian.Uint64` on eight bytes, and `Uint32` on four.
unfoldable pub get_le : List ℕ → ℕ
get_le [] = 0
get_le (b ∷ bs) = b + 256 * get_le bs
