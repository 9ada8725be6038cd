-- ===== src/Wire/Tests.antt =====
-- Runs of internal/wire on the inputs of its tests and on inputs like them.
use gossipcache.Common.{ℕ, ◌<◌, ◌≡◌, refl, ◌⊎◌, none, some, [], codes, arith}
use gossipcache.Wire.Protocol.{ProtocolRange, negotiate, validate_protocol_range}
use gossipcache.Wire.Protocol.Negotiation.{IsAgreed, negotiate_iff}
use gossipcache.Wire.Version.{VersionTag}
use gossipcache.Wire.Partition.{xx_hash64, partition_of}
use gossipcache.Wire.Partition.Reference.{reference, xx_hash64-reference}
use gossipcache.Common.{◌%◌}
use gossipcache.Wire.Partition.Routing.{partition_of-reference}
use gossipcache.Common.{◌↔◌, ◌/◌, List, length}
use gossipcache.Wire.Partition.{partition_seed, stripes, absorb_words, lanes_of_seed}
use gossipcache.Wire.Partition.Collisions.{xx_hash64-word_injective}
use gossipcache.Common.{◌+◌, ◌++◌, ◌∷◌}
use gossipcache.Wire.Partition.Termination.{loops_end}

abbrev old_node : ProtocolRange
old_node = record { version = 3; min_supported = 1 }

abbrev new_node : ProtocolRange
new_node = record { version = 5; min_supported = 2 }

negotiate_iff_example : IsAgreed old_node new_node 3
unfolding negotiate validate_protocol_range
negotiate_iff_example = (negotiate_iff old_node new_node 3).0 refl

abbrev tag : ℕ → VersionTag
tag n = record { partition_id = 7; sequence = n }

xx_hash64-reference_example : xx_hash64 (codes "gossipcache") 7 ≡ reference (codes "gossipcache") 7
xx_hash64-reference_example = xx_hash64-reference (codes "gossipcache") 7

abbrev partitions : ℕ
partitions = 257

abbrev counted : ℕ → List ℕ
counted n = codes "key-000" ++ (48 + n) ∷ []

xx_hash64-word_injective_example :
    (xx_hash64 (counted 1) partition_seed ≡ xx_hash64 (counted 2) partition_seed)
    ↔ (counted 1 ≡ counted 2)
xx_hash64-word_injective_example =
    xx_hash64-word_injective (counted 1) (counted 2) partition_seed (omega arith) (omega arith) refl
      refl

abbrev long : List ℕ
long = codes "a key that fills a stripe and then some words"

loops_end_example :
    (length (stripes 45 (lanes_of_seed 7) long).1 < 32)
    × (stripes 45 (lanes_of_seed 7) long ≡ stripes (length long / 32) (lanes_of_seed 7) long)
    × (length (absorb_words 45 7 long).1 < 8)
    × (absorb_words 45 7 long ≡ absorb_words (length long / 8) 7 long)
loops_end_example = loops_end 45 7 (lanes_of_seed 7) long (omega arith)

partition_of-reference_example :
    ((partitions ≡ 0) × (partition_of (codes "a") partitions ≡ none))
    ⊎ ((partition_of (codes "a") partitions
          ≡ some (reference (codes "a") partition_seed % partitions))
        × (reference (codes "a") partition_seed % partitions < partitions))
partition_of-reference_example = partition_of-reference (codes "a") partitions (omega arith)
