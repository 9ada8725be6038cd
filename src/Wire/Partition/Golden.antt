-- ===== src/Wire/Partition/Golden.antt =====
-- The hashes of internal/wire/partition_test.go and rows of testdata/partition_vectors.json.
use gossipcache.Common.{
  ℕ, ◌≡◌, refl, [], ◌∷◌, some, none, ◌+64◌, ◌-64◌, ◌*64◌, ◌xor◌, shr, rotate_left64, get_le, List,
  codes,
}
use gossipcache.Wire.Partition.{
  xx_hash64, absorb_stripes, absorb_words, absorb_half, absorb_bytes, avalanche, stripes, stripe,
  merge_lanes, absorb_word, xx_round, xx_merge_round, partition_seed, partition_of,
}

abbrev ascending : List ℕ
ascending =
    0 ∷ 1 ∷ 2 ∷ 3 ∷ 4 ∷ 5 ∷ 6 ∷ 7 ∷ 8 ∷ 9 ∷ 10 ∷ 11 ∷ 12 ∷ 13 ∷ 14 ∷ 15 ∷ 16 ∷ 17 ∷ 18 ∷ 19 ∷ 20
    ∷ 21 ∷ 22 ∷ 23 ∷ 24 ∷ 25 ∷ 26 ∷ 27 ∷ 28 ∷ 29 ∷ 30 ∷ 31 ∷ []

hashing : Unit {0}
unfolding xx_hash64 absorb_stripes absorb_words absorb_half absorb_bytes avalanche stripes stripe
    merge_lanes absorb_word xx_round xx_merge_round ◌+64◌ ◌-64◌ ◌*64◌ ◌xor◌ shr rotate_left64 get_le
hashing = tt

hash_empty : xx_hash64 [] partition_seed ≡ 0x6ec6d05f61c7e7a7
unfolding hashing
hash_empty = refl

hash_short : xx_hash64 (codes "a") partition_seed ≡ 0x727c10e0d238e188
unfolding hashing
hash_short = refl

hash_medium : xx_hash64 (codes "gossipcache") partition_seed ≡ 0x0ce55a1886928622
unfolding hashing
hash_medium = refl

hash_stripe : xx_hash64 ascending partition_seed ≡ 0xbfb3e4ef6096c49c
unfolding hashing
hash_stripe = refl

partition_short : partition_of (codes "a") 257 ≡ some 232
unfolding hashing partition_of
partition_short = refl

partition_stripe : partition_of ascending 257 ≡ some 13
unfolding hashing partition_of
partition_stripe = refl

partition_none : partition_of ascending 0 ≡ none
unfolding partition_of
partition_none = refl
