-- ===== src/Wire/Partition/Reference.antt =====
-- The loops of internal/wire/partition.go against a description of the hash by positions.
use gossipcache.Common.{
  ℕ, zero, suc, ◌+◌, ◌*◌, ◌/◌, ◌%◌, ◌≤◌, ◌≡◌, refl, ap, ◌==◌, leb, Bool-cases, inl, inr, true,
  false, if◌then◌else◌, List, [], ◌∷◌, length, take, drop, drop-add, length-drop, arith, ◌+64◌,
  ◌*64◌, ◌xor◌, rotate_left64, get_le,
}
use gossipcache.Wire.Partition.{
  xx_hash64, absorb_stripes, absorb_words, absorb_half, absorb_bytes, avalanche, stripes, stripe,
  merge_lanes, absorb_word, xx_round, Lanes, lanes_of_seed, xx_prime1, xx_prime2, xx_prime3,
  xx_prime4, xx_prime5,
}
use mathlib.Core.List.{foldl}
use native.Mathlib.Nat.{add_comm, add_assoc, add-zero}

-- The number in `width` bytes from position `at` on.
abbrev number_at : List ℕ → ℕ → ℕ → ℕ
number_at input at width = get_le (take width (drop at input))

-- `count` words of eight bytes, the first at `at`, each `step` behind the one before.
pub words : ℕ → ℕ → ℕ → List ℕ → List ℕ
words zero at step input = []
words (suc count) at step input = number_at input at 8 ∷ words count (at + step) step input

pub mix_word : ℕ → ℕ → ℕ
mix_word hash word = rotate_left64 (hash xor xx_round 0 word) 27 *64 xx_prime1 +64 xx_prime4

mix_half : ℕ → ℕ → ℕ
mix_half hash half = rotate_left64 (hash xor half *64 xx_prime1) 23 *64 xx_prime2 +64 xx_prime3

-- Each lane absorbs every fourth word of the whole stripes, with no regard to the others.
pub lanes_after : ℕ → Lanes → List ℕ → Lanes
lanes_after count v input = record {
  v1 = foldl xx_round v.v1 (words count 0 32 input);
  v2 = foldl xx_round v.v2 (words count 8 32 input);
  v3 = foldl xx_round v.v3 (words count 16 32 input);
  v4 = foldl xx_round v.v4 (words count 24 32 input);
}

words-drop :
    (count from at step : ℕ) (input : List ℕ)
    → words count (from + at) step input ≡ words count at step (drop from input)
unfolding words
words-drop zero from at step input = refl
words-drop (suc count) from at step input =
    rw (drop-add, add_assoc)
      (ap (λ t. number_at (drop from input) at 8 ∷ t)
        (words-drop count from (at + step) step input))

-- The word at position `at` of the rest after one stripe stands 32 bytes further on in the input.
words-stripe :
    (count at : ℕ) (input : List ℕ)
    → words (suc count) at 32 input ≡ number_at input at 8 ∷ words count at 32 (drop 32 input)
unfolding words
words-stripe count at input =
    ap (λ t. number_at input at 8 ∷ t) (rw add_comm at (words-drop count 32 at 32 input))

words-word :
    (count : ℕ) (input : List ℕ)
    → words (suc count) 0 8 input ≡ number_at input 0 8 ∷ words count 0 8 (drop 8 input)
unfolding words
words-word count input =
    ap (λ t. number_at input 0 8 ∷ t) (rw add_comm at (words-drop count 8 0 8 input))

lanes_after-stripe :
    (count : ℕ) (v : Lanes) (input : List ℕ)
    → lanes_after count (stripe v input) (drop 32 input) ≡ lanes_after (suc count) v input
unfolding lanes_after stripe
lanes_after-stripe count v input = simp words-stripe

-- The loop over stripes absorbs all whole stripes, lane by lane, and leaves what is behind them.
pub stripes-lanes_after :
    (count fuel : ℕ) (v : Lanes) (input : List ℕ)
    → length input / 32 ≡ count
    → count ≤ fuel
    → stripes fuel v input ≡ (lanes_after count v input, drop (32 * count) input)
unfolding stripes
stripes-lanes_after zero zero v input e h = unfold lanes_after words in refl
stripes-lanes_after zero (suc fuel) v input e h =
    let last : leb 32 (length input) ≡ false = ground arith in
    rw last (unfold lanes_after words in refl)
stripes-lanes_after (suc count) zero v input e h = absurd (omega arith)
stripes-lanes_after (suc count) (suc fuel) v input e h =
    let more : leb 32 (length input) ≡ true = ground arith in
    let next =
      stripes-lanes_after count fuel (stripe v input) (drop 32 input)
        (omega (arith, length-drop 32 input)) (omega arith) in
    let position : 32 * suc count ≡ 32 + 32 * count = omega arith in
    rw (more, position, drop-add, ← lanes_after-stripe count v input) next

absorb_word-mix :
    (hash : ℕ) (input : List ℕ) → absorb_word hash input ≡ mix_word hash (number_at input 0 8)
unfolding absorb_word mix_word
absorb_word-mix hash input = refl

-- The same of the loop over words.
pub absorb_words-words :
    (count fuel hash : ℕ) (input : List ℕ)
    → length input / 8 ≡ count
    → count ≤ fuel
    → absorb_words fuel hash input
      ≡ (foldl mix_word hash (words count 0 8 input), drop (8 * count) input)
unfolding absorb_words
absorb_words-words zero zero hash input e h = unfold words in refl
absorb_words-words zero (suc fuel) hash input e h =
    let last : leb 8 (length input) ≡ false = ground arith in rw last (unfold words in refl)
absorb_words-words (suc count) zero hash input e h = absurd (omega arith)
absorb_words-words (suc count) (suc fuel) hash input e h =
    let more : leb 8 (length input) ≡ true = ground arith in
    let next =
      absorb_words-words count fuel (absorb_word hash input) (drop 8 input)
        (omega (arith, length-drop 8 input)) (omega arith) in
    let position : 8 * suc count ≡ 8 + 8 * count = omega arith in
    rw (more, position, drop-add, words-word, absorb_word-mix hash input)
      (rw (absorb_word-mix hash input) at next)

-- The hash behind the stripes: that of the lanes, or of the seed where there is no whole stripe.
start : List ℕ → ℕ → ℕ
start input seed =
    let lanes = merge_lanes (lanes_after (length input / 32) (lanes_of_seed seed) input) in
    if length input / 32 == 0 then seed +64 xx_prime5 else lanes

-- xxHash64 by positions: n / 32 stripes from the start, then n % 32 / 8 words, then a half word if
-- there is room for one, then the single bytes.
unfoldable pub reference : List ℕ → ℕ → ℕ
unfolding start lanes_after words mix_word mix_half
reference input seed =
    let n = length input in
    let words_at = 32 * (n / 32) in
    let half_at = words_at + 8 * (n % 32 / 8) in
    let bytes_at = half_at + 4 * (n % 8 / 4) in
    let mixed = foldl mix_word (start input seed +64 n) (words (n % 32 / 8) words_at 8 input) in
    let half = mix_half mixed (number_at input half_at 4) in
    avalanche (absorb_bytes (if n % 8 / 4 == 0 then mixed else half) (drop bytes_at input))

module _ (input : List ℕ) where
  absorb_stripes-start :
      (seed : ℕ)
      → absorb_stripes input seed ≡ (start input seed, drop (32 * (length input / 32)) input)
  unfolding absorb_stripes start
  absorb_stripes-start seed = elim (Bool-cases (leb 32 (length input))) [
    | inl more ↦
        let some_stripe : (length input / 32 == 0) ≡ false = ground arith in
        rw (
          more,
          some_stripe,
          stripes-lanes_after (length input / 32) (length input) (lanes_of_seed seed) input refl
              (omega arith),
        )
    | inr last ↦ let no_stripe : length input / 32 ≡ 0 = ground arith in rw (last, no_stripe)
  ]

  absorb_words-at :
      (hash at : ℕ)
      → at ≡ 32 * (length input / 32)
      → absorb_words (length input) hash (drop at input) ≡ (
        foldl mix_word hash (words (length input % 32 / 8) at 8 input),
        drop (at + 8 * (length input % 32 / 8)) input,
      )
  absorb_words-at hash at e =
      let whole =
        absorb_words-words (length input % 32 / 8) (length input) hash (drop at input)
          (omega (arith, length-drop at input)) (omega arith) in
      rw drop-add (rw (← words-drop (length input % 32 / 8) at 0 8 input, add-zero) at whole)

  absorb_half-at :
      (hash at : ℕ)
      → at ≡ 32 * (length input / 32) + 8 * (length input % 32 / 8)
      → absorb_half hash (drop at input) ≡ (
        if length input % 8 / 4 == 0 then hash else mix_half hash (number_at input at 4),
        drop (at + 4 * (length input % 8 / 4)) input,
      )
  unfolding absorb_half mix_half
  absorb_half-at hash at e = elim (Bool-cases (leb 4 (length (drop at input)))) [
    | inl more ↦
        let room : length input % 8 / 4 ≡ 1 = ground (arith, length-drop at input) in
        rw (more, room, drop-add at 4 input)
    | inr last ↦
        let none_left : length input % 8 / 4 ≡ 0 = ground (arith, length-drop at input) in
        rw (last, none_left, add-zero)
  ]

  -- The program's hash is the hash by positions, for every input and seed: its loops end with the
  -- fuel that the length gives them, and read each byte once and in its place.
  pub xx_hash64-reference : (seed : ℕ) → xx_hash64 input seed ≡ reference input seed
  unfolding xx_hash64 reference
  xx_hash64-reference seed =
      rw (absorb_stripes-start seed, absorb_words-at _ _ refl, absorb_half-at _ _ refl)
