-- ===== src/Wire/Partition.antt =====
-- internal/wire/partition.go: the seeded xxHash64 and the routing of a key to a partition.
-- The two `while` loops over the rest of the input take fuel; `Wire.Partition.Reference` shows that the
-- length of the input is enough.
pub mod Reference
pub mod Termination
pub mod Avalanche
pub mod Collisions
pub mod Routing
mod Golden
use gossipcache.Common.{ℕ, zero, suc, ◌-◌, ◌%◌, ◌^◌, Bool, leb, ◌==◌, if◌then◌else◌}
use gossipcache.Common.{Option, none, some, List, [], ◌∷◌, length, take, drop}
use gossipcache.Common.{◌+64◌, ◌-64◌, ◌*64◌, ◌xor◌, shr, rotate_left64, get_le}
use gossipcache.Errors.{Check, fail_if, invalid_partition_count}

abbrev pub partition_seed : ℕ
partition_seed = 0x9E3779B185EBCA87

abbrev pub xx_prime1 : ℕ
xx_prime1 = 11400714785074694791

abbrev pub xx_prime2 : ℕ
xx_prime2 = 14029467366897019727

abbrev pub xx_prime3 : ℕ
xx_prime3 = 1609587929392839161

abbrev pub xx_prime4 : ℕ
xx_prime4 = 9650029242287828579

abbrev pub xx_prime5 : ℕ
xx_prime5 = 2870177450012600261

unfoldable pub xx_round : ℕ → ℕ → ℕ
xx_round accumulator input = rotate_left64 (accumulator +64 input *64 xx_prime2) 31 *64 xx_prime1

unfoldable pub xx_merge_round : ℕ → ℕ → ℕ
xx_merge_round accumulator value = (accumulator xor xx_round 0 value) *64 xx_prime1 +64 xx_prime4

-- `b[from:to]`
abbrev pub slice : List ℕ → ℕ → ℕ → List ℕ
slice b from to = take (to - from) (drop from b)

-- The variables v1 to v4.
pub record Lanes : Type 0 where
  pub v1 : ℕ
  pub v2 : ℕ
  pub v3 : ℕ
  pub v4 : ℕ

abbrev pub lanes_of_seed : ℕ → Lanes
lanes_of_seed seed = record {
  v1 = seed +64 xx_prime1 +64 xx_prime2;
  v2 = seed +64 xx_prime2;
  v3 = seed;
  v4 = seed -64 xx_prime1;
}

-- One round of the loop over stripes of 32 bytes, without its last assignment.
unfoldable pub stripe : Lanes → List ℕ → Lanes
stripe v remaining = record {
  v1 = xx_round v.v1 (get_le (slice remaining 0 8));
  v2 = xx_round v.v2 (get_le (slice remaining 8 16));
  v3 = xx_round v.v3 (get_le (slice remaining 16 24));
  v4 = xx_round v.v4 (get_le (slice remaining 24 32));
}

unfoldable pub stripes : ℕ → Lanes → List ℕ → Lanes × List ℕ
stripes zero v remaining = (v, remaining)
stripes (suc fuel) v remaining =
    let next = stripes fuel (stripe v remaining) (drop 32 remaining) in
    if leb 32 (length remaining) then next else (v, remaining)

unfoldable pub merge_lanes : Lanes → ℕ
merge_lanes v =
    let hash =
      rotate_left64 v.v1 1
      +64 rotate_left64 v.v2 7
      +64 rotate_left64 v.v3 12
      +64 rotate_left64 v.v4 18 in
    xx_merge_round (xx_merge_round (xx_merge_round (xx_merge_round hash v.v1) v.v2) v.v3) v.v4

-- The hash and the remaining bytes behind the first `if`.
unfoldable pub absorb_stripes : List ℕ → ℕ → ℕ × List ℕ
absorb_stripes input seed =
    if leb 32 (length input)
    then (let (v, remaining) = stripes (length input) (lanes_of_seed seed) input in
        (merge_lanes v, remaining))
    else (seed +64 xx_prime5, input)

unfoldable pub absorb_word : ℕ → List ℕ → ℕ
absorb_word hash remaining =
    rotate_left64 (hash xor xx_round 0 (get_le (slice remaining 0 8))) 27 *64 xx_prime1
    +64 xx_prime4

-- The loop over words of eight bytes.
unfoldable pub absorb_words : ℕ → ℕ → List ℕ → ℕ × List ℕ
absorb_words zero hash remaining = (hash, remaining)
absorb_words (suc fuel) hash remaining =
    let next = absorb_words fuel (absorb_word hash remaining) (drop 8 remaining) in
    if leb 8 (length remaining) then next else (hash, remaining)

unfoldable pub absorb_half : ℕ → List ℕ → ℕ × List ℕ
absorb_half hash remaining =
    if leb 4 (length remaining)
    then (
      rotate_left64 (hash xor get_le (slice remaining 0 4) *64 xx_prime1) 23 *64 xx_prime2
          +64 xx_prime3,
      drop 4 remaining,
    )
    else (hash, remaining)

-- The loop over the last bytes.
unfoldable pub absorb_bytes : ℕ → List ℕ → ℕ
absorb_bytes hash [] = hash
absorb_bytes hash (b ∷ remaining) =
    absorb_bytes (rotate_left64 (hash xor b *64 xx_prime5) 11 *64 xx_prime1) remaining

unfoldable pub avalanche : ℕ → ℕ
avalanche hash =
    let hash = (hash xor shr hash 33) *64 xx_prime2 in
    let hash = (hash xor shr hash 29) *64 xx_prime3 in hash xor shr hash 32

unfoldable pub xx_hash64 : List ℕ → ℕ → ℕ
xx_hash64 input seed =
    let (hash, remaining) = absorb_stripes input seed in
    let (hash, remaining) = absorb_words (length input) (hash +64 length input) remaining in
    let (hash, remaining) = absorb_half hash remaining in avalanche (absorb_bytes hash remaining)

unfoldable pub validate_partition_count : ℕ → Check
validate_partition_count partition_count = fail_if (partition_count == 0) invalid_partition_count

-- `none` is the panic on a partition count of zero.
unfoldable pub partition_of : List ℕ → ℕ → Option ℕ
unfolding validate_partition_count
partition_of key partition_count = elim (validate_partition_count partition_count) [
  | some e ↦ none
  | none ↦ some (xx_hash64 key partition_seed % partition_count % 2 ^ 32)
]
