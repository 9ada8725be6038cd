-- ===== src/Wire/Partition/Routing.antt =====
-- `PartitionOf` of internal/wire/partition.go routes by the hash of the reference, uncut.
use gossipcache.Common.{
  ℕ, zero, suc, ◌%◌, ◌^◌, ◌<◌, ◌≡◌, ◌⊎◌, inl, inr, refl, some, none, List, arith,
}
use gossipcache.Wire.Partition.{partition_of, partition_seed}
use gossipcache.Wire.Partition.Reference.{reference, xx_hash64-reference}

-- For a partition count of 32 bits, `PartitionOf` panics exactly on a count of zero, and otherwise
-- returns the reference hash of the key modulo the count, a partition below the count: its
-- conversion to 32 bits cuts nothing off.
pub partition_of-reference :
    (key : List ℕ) (count : ℕ)
    → count < 2 ^ 32
    → ((count ≡ 0) × (partition_of key count ≡ none))
      ⊎ ((partition_of key count ≡ some (reference key partition_seed % count))
          × (reference key partition_seed % count < count))
unfolding partition_of
partition_of-reference key zero h = inl (refl, refl)
partition_of-reference key (suc n) h =
    let same = xx_hash64-reference key partition_seed in inr (ground (arith, same), omega arith)
