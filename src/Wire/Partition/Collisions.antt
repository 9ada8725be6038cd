-- ===== src/Wire/Partition/Collisions.antt =====
-- `xxHash64` of internal/wire/partition.go on keys of one word: each step that the word goes through
-- can be undone, so that no two such keys collide.
use gossipcache.Common.{
  ℕ, ◌^◌, ◌<◌, ◌≡◌, ◌↔◌, refl, List, [], ◌∷◌, length, take, drop, take-length, drop-length, IsBytes,
  sym, ap, ◌∙◌, arith, ◌+64◌, ◌*64◌, ◌xor◌, rotate_left64, get_le, xor_bound, xor_cancel, xor_comm,
}
use native.Mathlib.Nat.{pow-succ'}
use gossipcache.Wire.Partition.{
  absorb_stripes, absorb_word, absorb_words, absorb_half, absorb_bytes, avalanche, xx_hash64,
  xx_round, xx_prime1, xx_prime2, xx_prime4, xx_prime5,
}
use gossipcache.Wire.Partition.Avalanche.{avalanche_injective, product_bound}

rotate31_injective :
    (x y : ℕ) → x < 2 ^ 64 → y < 2 ^ 64 → rotate_left64 x 31 ≡ rotate_left64 y 31 → x ≡ y
unfolding rotate_left64
rotate31_injective x y p q e = omega arith

rotate27_injective :
    (x y : ℕ) → x < 2 ^ 64 → y < 2 ^ 64 → rotate_left64 x 27 ≡ rotate_left64 y 27 → x ≡ y
unfolding rotate_left64
rotate27_injective x y p q e = omega arith

rotate31_bound : (x : ℕ) → x < 2 ^ 64 → rotate_left64 x 31 < 2 ^ 64
unfolding rotate_left64
rotate31_bound x p = omega arith

rotate27_bound : (x : ℕ) → x < 2 ^ 64 → rotate_left64 x 27 < 2 ^ 64
unfolding rotate_left64
rotate27_bound x p = omega arith

unscale1 : (x y : ℕ) → x < 2 ^ 64 → y < 2 ^ 64 → x *64 xx_prime1 ≡ y *64 xx_prime1 → x ≡ y
unfolding ◌*64◌
unscale1 x y p q e = omega arith

unshift4 : (x y : ℕ) → x < 2 ^ 64 → y < 2 ^ 64 → x +64 xx_prime4 ≡ y +64 xx_prime4 → x ≡ y
unfolding ◌+64◌
unshift4 x y p q e = omega arith

input_injective :
    (x y : ℕ) → x < 2 ^ 64 → y < 2 ^ 64 → 0 +64 x *64 xx_prime2 ≡ 0 +64 y *64 xx_prime2 → x ≡ y
unfolding ◌+64◌ ◌*64◌
input_injective x y p q e = omega arith

get_le_injective :
    (a b : List ℕ) → IsBytes a → IsBytes b → length a ≡ length b → get_le a ≡ get_le b → a ≡ b
unfolding get_le
get_le_injective [] [] p q h e = refl
get_le_injective [] (y ∷ b) p q h e = absurd (omega arith)
get_le_injective (x ∷ a) [] p q h e = absurd (omega arith)
get_le_injective (x ∷ a) (y ∷ b) (p, ps) (q, qs) h e =
    let head : x ≡ y = omega arith in
    let tail = get_le_injective a b ps qs (omega arith) (omega arith) in cc

get_le_bound : (a : List ℕ) → IsBytes a → get_le a < 256 ^ length a
unfolding get_le
get_le_bound [] p = omega arith
get_le_bound (x ∷ a) (p, ps) = omega (arith, get_le_bound a ps, pow-succ' 256 (length a))

get_le-word_bound : (a : List ℕ) → IsBytes a → length a ≡ 8 → get_le a < 2 ^ 64
get_le-word_bound a p h = let bound = get_le_bound a p in rw h at bound

-- What becomes of a word before it meets the hash.
abbrev scrambled : List ℕ → ℕ
scrambled a = xx_round 0 (get_le a)

sum_bound : (a b : ℕ) → a +64 b < 2 ^ 64
unfolding ◌+64◌
sum_bound a b = omega arith

scrambled_bound : (a : List ℕ) → scrambled a < 2 ^ 64
unfolding xx_round
scrambled_bound a = product_bound (rotate_left64 (0 +64 get_le a *64 xx_prime2) 31) xx_prime1

scrambled_injective :
    (a b : List ℕ)
    → IsBytes a
    → IsBytes b
    → length a ≡ 8
    → length b ≡ 8
    → scrambled a ≡ scrambled b
    → a ≡ b
unfolding xx_round
scrambled_injective a b p q h k e =
    let x = 0 +64 get_le a *64 xx_prime2 in
    let y = 0 +64 get_le b *64 xx_prime2 in
    let x_bound : x < 2 ^ 64 = sum_bound 0 (get_le a *64 xx_prime2) in
    let y_bound : y < 2 ^ 64 = sum_bound 0 (get_le b *64 xx_prime2) in
    let rotated : rotate_left64 x 31 ≡ rotate_left64 y 31 =
      unscale1 (rotate_left64 x 31) (rotate_left64 y 31) (rotate31_bound x x_bound)
        (rotate31_bound y y_bound) e in
    let input : x ≡ y = rotate31_injective x y x_bound y_bound rotated in
    get_le_injective a b p q (h ∙ sym k) (
      input_injective (get_le a) (get_le b) (get_le-word_bound a p h) (get_le-word_bound b q k)
        input)

absorb_words-word :
    (hash : ℕ) (a : List ℕ) → length a ≡ 8 → absorb_words 8 hash a ≡ (absorb_word hash a, [])
unfolding absorb_words
absorb_words-word hash a h =
    let rest : drop 8 a ≡ [] = ap (λ n. drop n a) (sym h) ∙ drop-length a in rw (h, rest) refl

absorb_stripes-word :
    (a : List ℕ) (seed : ℕ) → length a ≡ 8 → absorb_stripes a seed ≡ (seed +64 xx_prime5, a)
unfolding absorb_stripes
absorb_stripes-word a seed h = rw h refl

-- The hash of a key of eight bytes: one round of the loop over words, and nothing of the others.
xx_hash64-word :
    (a : List ℕ) (seed : ℕ)
    → length a ≡ 8
    → xx_hash64 a seed ≡ avalanche (absorb_word (seed +64 xx_prime5 +64 8) a)
unfolding xx_hash64 absorb_half absorb_bytes
xx_hash64-word a seed h =
    rw (absorb_stripes-word a seed h, h, absorb_words-word (seed +64 xx_prime5 +64 8) a h) refl

absorb_word_injective :
    (hash : ℕ) (a b : List ℕ)
    → hash < 2 ^ 64
    → IsBytes a
    → IsBytes b
    → length a ≡ 8
    → length b ≡ 8
    → absorb_word hash a ≡ absorb_word hash b
    → a ≡ b
unfolding absorb_word
absorb_word_injective hash a b r p q h k e =
    let x = hash xor scrambled a in
    let y = hash xor scrambled b in
    let x_bound : x < 2 ^ 64 = xor_bound 64 hash (scrambled a) r (scrambled_bound a) in
    let y_bound : y < 2 ^ 64 = xor_bound 64 hash (scrambled b) r (scrambled_bound b) in
    let whole : take 8 a ≡ a = ap (λ n. take n a) (sym h) ∙ take-length a in
    let whole' : take 8 b ≡ b = ap (λ n. take n b) (sym k) ∙ take-length b in
    let summed : rotate_left64 x 27 *64 xx_prime1 +64 xx_prime4
        ≡ rotate_left64 y 27 *64 xx_prime1 +64 xx_prime4 =
      rw (whole, whole') at e in
    let rotated : rotate_left64 x 27 ≡ rotate_left64 y 27 =
      unscale1 (rotate_left64 x 27) (rotate_left64 y 27) (rotate27_bound x x_bound)
        (rotate27_bound y y_bound)
        (unshift4 (rotate_left64 x 27 *64 xx_prime1) (rotate_left64 y 27 *64 xx_prime1)
          (product_bound (rotate_left64 x 27) xx_prime1)
          (product_bound (rotate_left64 y 27) xx_prime1) summed) in
    let mixed : x ≡ y = rotate27_injective x y x_bound y_bound rotated in
    scrambled_injective a b p q h k (
      xor_cancel 64 (scrambled a) (scrambled b) hash (scrambled_bound a) (scrambled_bound b) (
        xor_comm 64 (scrambled a) hash (scrambled_bound a) r
        ∙ mixed
        ∙ xor_comm 64 hash (scrambled b) r (scrambled_bound b)))

absorb_word_bound : (hash : ℕ) (a : List ℕ) → absorb_word hash a < 2 ^ 64
unfolding absorb_word
absorb_word_bound hash a = sum_bound _ xx_prime4

-- Two keys of eight bytes have the same hash, under any one seed, only if they are the same key.
pub xx_hash64-word_injective :
    (a b : List ℕ) (seed : ℕ)
    → IsBytes a
    → IsBytes b
    → length a ≡ 8
    → length b ≡ 8
    → (xx_hash64 a seed ≡ xx_hash64 b seed) ↔ (a ≡ b)
xx_hash64-word_injective a b seed p q h k =
    let start = seed +64 xx_prime5 +64 8 in
    let start_bound : start < 2 ^ 64 = sum_bound (seed +64 xx_prime5) 8 in
    (
      λ e. absorb_word_injective start a b start_bound p q h k (
          avalanche_injective (absorb_word start a) (absorb_word start b)
            (absorb_word_bound start a) (absorb_word_bound start b)
            (sym (xx_hash64-word a seed h) ∙ e ∙ xx_hash64-word b seed k)),
      λ e. ap (λ c. xx_hash64 c seed) e,
    )
