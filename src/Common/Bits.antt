-- ===== src/Common/Bits.antt =====
-- Laws of the exclusive or at variables, from its lowest digit on: it stays within a word, can be
-- cancelled, and commutes with shifts to the right.
use Prim.Native.Nat.{
  ℕ, zero, suc, ◌+◌, ◌*◌, ◌/◌, ◌%◌, ◌^◌, ◌<◌, ◌≤◌, bit_xor, digits, differ, bit_xor-bitwise,
}
use native.Mathlib.Omega.{arith}
use native.Mathlib.Nat.{pow-succ', div-div-eq-div-mul, div-one}
use mathlib.Core.Path.{◌∙◌, ap, ◌≡◌, refl, subst, sym}
use gossipcache.Common.Words.{◌xor◌}

abbrev xor_digits : ℕ → ℕ → ℕ → ℕ
xor_digits n a b = digits (λ b. b) differ n a b

differ_small : (a b : ℕ) → a < 2 → b < 2 → differ a b < 2
differ_small zero b p q = q
differ_small (suc zero) zero p q = omega arith
differ_small (suc zero) (suc zero) p q = omega arith
differ_small (suc zero) (suc (suc b)) p q = absurd (omega arith)
differ_small (suc (suc a)) b p q = absurd (omega arith)

xor_digits_bound : (k n a b : ℕ) → a < 2 ^ k → b < 2 ^ k → xor_digits n a b < 2 ^ k
xor_digits_bound k zero a b p q = q
xor_digits_bound k (suc n) zero b p q = q
xor_digits_bound zero (suc n) (suc a) b p q = absurd (omega arith)
xor_digits_bound (suc k) (suc n) (suc a) b p q = omega (
  arith,
  xor_digits_bound k n (suc a / 2) (b / 2) (omega arith) (omega arith),
  differ_small (suc a % 2) (b % 2) (omega arith) (omega arith),
)

pub xor_bound : (k a b : ℕ) → a < 2 ^ k → b < 2 ^ k → a xor b < 2 ^ k
unfolding ◌xor◌
xor_bound k a b p q =
    subst (λ x. x < 2 ^ k) (sym (bit_xor-bitwise a b)) (xor_digits_bound k a a b p q)

xor_digits_fuel : (n m a b : ℕ) → a ≤ n → a ≤ m → xor_digits n a b ≡ xor_digits m a b
xor_digits_fuel zero zero a b p q = refl
xor_digits_fuel zero (suc m) zero b p q = refl
xor_digits_fuel zero (suc m) (suc a) b p q = absurd (omega arith)
xor_digits_fuel (suc n) zero zero b p q = refl
xor_digits_fuel (suc n) zero (suc a) b p q = absurd (omega arith)
xor_digits_fuel (suc n) (suc m) zero b p q = refl
xor_digits_fuel (suc n) (suc m) (suc a) b p q =
    omega (arith, xor_digits_fuel n m (suc a / 2) (b / 2) (omega arith) (omega arith))

differ-zero : (b : ℕ) → differ 0 b ≡ b
differ-zero b = refl

zero-xor : (b : ℕ) → bit_xor 0 b ≡ b
zero-xor b = bit_xor-bitwise 0 b

xor_step : (a b : ℕ) → bit_xor a b ≡ bit_xor (a / 2) (b / 2) * 2 + differ (a % 2) (b % 2)
xor_step zero b = omega (arith, zero-xor b, zero-xor (b / 2), differ-zero (b % 2))
xor_step (suc a) b = omega (
  arith,
  bit_xor-bitwise (suc a) b,
  bit_xor-bitwise (suc a / 2) (b / 2),
  xor_digits_fuel a (suc a / 2) (suc a / 2) (b / 2) (omega arith) (omega arith),
)

differ_cases : (a b c : ℕ) → a < 2 → b < 2 → c < 2 → differ a c ≡ differ b c → a ≡ b
differ_cases zero zero c p q r e = refl
differ_cases zero (suc zero) zero p q r e = e
differ_cases zero (suc zero) (suc zero) p q r e = omega arith
differ_cases (suc zero) zero zero p q r e = e
differ_cases (suc zero) zero (suc zero) p q r e = omega arith
differ_cases (suc zero) (suc zero) c p q r e = refl
differ_cases (suc (suc a)) b c p q r e = absurd (omega arith)
differ_cases a (suc (suc b)) c p q r e = absurd (omega arith)
differ_cases a b (suc (suc c)) p q r e = absurd (omega arith)

pub xor_half : (a b : ℕ) → (a xor b) / 2 ≡ (a / 2) xor (b / 2)
unfolding ◌xor◌
xor_half a b = omega (arith, xor_step a b, differ_small (a % 2) (b % 2) (omega arith) (omega arith))

halves-xor : (a b c : ℕ) → a xor c ≡ b xor c → (a / 2) xor (c / 2) ≡ (b / 2) xor (c / 2)
halves-xor a b c e = sym (xor_half a c) ∙ ap (λ x. x / 2) e ∙ xor_half b c

parities-xor : (a b c : ℕ) → a xor c ≡ b xor c → a % 2 ≡ b % 2
unfolding ◌xor◌
parities-xor a b c e =
    differ_cases (a % 2) (b % 2) (c % 2) (omega arith) (omega arith) (omega arith) (
      omega (
        arith,
        e,
        xor_step a c,
        xor_step b c,
        differ_small (a % 2) (c % 2) (omega arith) (omega arith),
        differ_small (b % 2) (c % 2) (omega arith) (omega arith),
      ))

pub xor_cancel : (k a b c : ℕ) → a < 2 ^ k → b < 2 ^ k → a xor c ≡ b xor c → a ≡ b
unfolding ◌xor◌
xor_cancel zero a b c p q e = omega arith
xor_cancel (suc k) a b c p q e = omega (
  arith,
  xor_cancel k (a / 2) (b / 2) (c / 2) (omega arith) (omega arith) (halves-xor a b c e),
  parities-xor a b c e,
)

pub shr_suc : (k a : ℕ) → a / 2 ^ suc k ≡ a / 2 / 2 ^ k
shr_suc k a = ap (λ d. a / d) (pow-succ' 2 k) ∙ sym (div-div-eq-div-mul a 2 (2 ^ k))

pub xor-shr : (k a b : ℕ) → (a xor b) / 2 ^ k ≡ (a / 2 ^ k) xor (b / 2 ^ k)
xor-shr zero a b = cc (div-one (a xor b), div-one a, div-one b)
xor-shr (suc k) a b =
    cc (shr_suc k (a xor b), shr_suc k a, shr_suc k b, xor_half a b, xor-shr k (a / 2) (b / 2))

differ_comm : (a b : ℕ) → differ a b ≡ differ b a
differ_comm zero zero = refl
differ_comm zero (suc b) = refl
differ_comm (suc a) zero = refl
differ_comm (suc a) (suc b) = differ_comm a b

pub xor_comm : (k a b : ℕ) → a < 2 ^ k → b < 2 ^ k → a xor b ≡ b xor a
unfolding ◌xor◌
xor_comm zero a b p q =
    let left : a ≡ 0 = omega arith in let right : b ≡ 0 = omega arith in rw (left, right) refl
xor_comm (suc k) a b p q = omega (
  arith,
  xor_step a b,
  xor_step b a,
  differ_comm (a % 2) (b % 2),
  xor_comm k (a / 2) (b / 2) (omega arith) (omega arith),
)
