-- ===== src/Wire/Partition/Avalanche.antt =====
-- The last mixing steps of `xxHash64` in internal/wire/partition.go: each undoes, so that none of
-- the 64 bits gathered before them is lost.
use gossipcache.Common.{
  ℕ, ◌/◌, ◌^◌, ◌<◌, ◌≤◌, ◌↔◌, ◌≡◌, List, sym, ap, ◌∙◌, arith, ◌*64◌, ◌xor◌, shr, xor_bound,
  xor_cancel, xor-shr,
}
use gossipcache.Wire.Partition.{avalanche, xx_hash64, xx_prime2, xx_prime3}
use native.Mathlib.Nat.{div-div-eq-div-mul, mul_comm}

-- `x ^= x >> s`
abbrev mix : ℕ → ℕ → ℕ
mix s x = x xor x / 2 ^ s

div_swap : (x m n : ℕ) → x / m / n ≡ x / n / m
div_swap x m n =
    div-div-eq-div-mul x m n ∙ ap (λ d. x / d) (mul_comm m n) ∙ sym (div-div-eq-div-mul x n m)

mix-shr : (s j x : ℕ) → mix s x / 2 ^ j ≡ mix s (x / 2 ^ j)
mix-shr s j x = xor-shr j x (x / 2 ^ s) ∙ ap (λ z. x / 2 ^ j xor z) (div_swap x (2 ^ s) (2 ^ j))

-- Numbers with the same mix agree from bit j on, if they agree from bit j + s on.
unmix :
    (s j x y : ℕ)
    → x / 2 ^ j < 2 ^ 64
    → y / 2 ^ j < 2 ^ 64
    → mix s x ≡ mix s y
    → x / 2 ^ j / 2 ^ s ≡ y / 2 ^ j / 2 ^ s
    → x / 2 ^ j ≡ y / 2 ^ j
unmix s j x y p q e high = xor_cancel 64 (x / 2 ^ j) (y / 2 ^ j) (x / 2 ^ j / 2 ^ s) p q (
    sym (mix-shr s j x)
    ∙ ap (λ z. z / 2 ^ j) e
    ∙ mix-shr s j y
    ∙ ap (λ z. y / 2 ^ j xor z) (sym high))

unmix33 : (x y : ℕ) → x < 2 ^ 64 → y < 2 ^ 64 → mix 33 x ≡ mix 33 y → x ≡ y
unmix33 x y p q e =
    let high = unmix 33 33 x y (omega arith) (omega arith) e (omega arith) in
    omega (arith, unmix 33 0 x y (omega arith) (omega arith) e (omega arith))

unmix29 : (x y : ℕ) → x < 2 ^ 64 → y < 2 ^ 64 → mix 29 x ≡ mix 29 y → x ≡ y
unmix29 x y p q e =
    let top = unmix 29 58 x y (omega arith) (omega arith) e (omega arith) in
    let high = unmix 29 29 x y (omega arith) (omega arith) e (omega arith) in
    omega (arith, unmix 29 0 x y (omega arith) (omega arith) e (omega arith))

unmix32 : (x y : ℕ) → x < 2 ^ 64 → y < 2 ^ 64 → mix 32 x ≡ mix 32 y → x ≡ y
unmix32 x y p q e =
    let high = unmix 32 32 x y (omega arith) (omega arith) e (omega arith) in
    omega (arith, unmix 32 0 x y (omega arith) (omega arith) e (omega arith))

unscale2 : (x y : ℕ) → x < 2 ^ 64 → y < 2 ^ 64 → x *64 xx_prime2 ≡ y *64 xx_prime2 → x ≡ y
unfolding ◌*64◌
unscale2 x y p q e = omega arith

unscale3 : (x y : ℕ) → x < 2 ^ 64 → y < 2 ^ 64 → x *64 xx_prime3 ≡ y *64 xx_prime3 → x ≡ y
unfolding ◌*64◌
unscale3 x y p q e = omega arith

pub product_bound : (a b : ℕ) → a *64 b < 2 ^ 64
unfolding ◌*64◌
product_bound a b = omega arith

mix_bound : (s x : ℕ) → x < 2 ^ 64 → x / 2 ^ s ≤ x → mix s x < 2 ^ 64
mix_bound s x p less = xor_bound 64 x (x / 2 ^ s) p (omega arith)

mix33_bound : (x : ℕ) → x < 2 ^ 64 → mix 33 x < 2 ^ 64
mix33_bound x p = mix_bound 33 x p (omega arith)

mix29_bound : (x : ℕ) → x < 2 ^ 64 → mix 29 x < 2 ^ 64
mix29_bound x p = mix_bound 29 x p (omega arith)

pub avalanche_injective : (x y : ℕ) → x < 2 ^ 64 → y < 2 ^ 64 → avalanche x ≡ avalanche y → x ≡ y
unfolding avalanche shr
avalanche_injective x y p q e =
    let first : ℕ → ℕ = λ z. mix 33 z *64 xx_prime2 in
    let first_bound : (z : ℕ) → first z < 2 ^ 64 = λ z. product_bound (mix 33 z) xx_prime2 in
    let next : ℕ → ℕ = λ z. mix 29 (first z) *64 xx_prime3 in
    let next_bound : (z : ℕ) → next z < 2 ^ 64 = λ z. product_bound (mix 29 (first z)) xx_prime3 in
    let same_next : next x ≡ next y = unmix32 (next x) (next y) (next_bound x) (next_bound y) e in
    let same_first : first x ≡ first y =
      unmix29 (first x) (first y) (first_bound x) (first_bound y) (
        unscale3 (mix 29 (first x)) (mix 29 (first y)) (mix29_bound (first x) (first_bound x))
          (mix29_bound (first y) (first_bound y)) same_next) in
    unmix33 x y p q (unscale2 (mix 33 x) (mix 33 y) (mix33_bound x p) (mix33_bound y q) same_first)

avalanche_bound : (x : ℕ) → avalanche x < 2 ^ 64
unfolding avalanche shr
avalanche_bound x =
    let next = mix 29 (mix 33 x *64 xx_prime2) *64 xx_prime3 in
    mix_bound 32 next (product_bound (mix 29 (mix 33 x *64 xx_prime2)) xx_prime3) (omega arith)

-- The last mixing steps permute the words of 64 bits: of a word they make a word, and of two words
-- the same only if they are the same.
pub avalanche_permutes :
    (x y : ℕ)
    → x < 2 ^ 64
    → y < 2 ^ 64
    → (avalanche x < 2 ^ 64) × ((avalanche x ≡ avalanche y) ↔ (x ≡ y))
avalanche_permutes x y p q = (avalanche_bound x, (avalanche_injective x y p q, λ e. ap avalanche e))

-- For any input and any seed, the hash fits a uint64.
pub xx_hash64_bound : (input : List ℕ) (seed : ℕ) → xx_hash64 input seed < 2 ^ 64
unfolding xx_hash64
xx_hash64_bound input seed = avalanche_bound _
