-- ===== src/Wire/Version/Order.antt =====
-- `IsNewer` of internal/wire/types.go as an order.
use gossipcache.Common.{◌≡◌, ◌↔◌, ◌⊎◌, true, false, none, arith}
use gossipcache.Wire.Version.{VersionTag, zero_version, is_newer, version_is_zero}
use gossipcache.Wire.Version.{validate_committed}

-- `a` supersedes `b`.
abbrev pub Supersedes : VersionTag → VersionTag → Type 0
Supersedes a b = is_newer a b ≡ true

-- `IsNewer` is a strict order: a tag that is newer than one that is newer than a third is newer than
-- the third, and none of the three is newer than the first.
pub is_newer_strict :
    (a b c : VersionTag)
    → Supersedes a b
    → Supersedes b c
    → Supersedes a c × (is_newer c a ≡ false) × (is_newer b a ≡ false) × (is_newer a a ≡ false)
unfolding is_newer
is_newer_strict a b c h k = ground arith

-- Two tags are comparable exactly when they are of one partition: then one supersedes the other or
-- they are the same tag, and tags of two partitions never supersede one another.
pub is_newer_trichotomy :
    (a b : VersionTag)
    → (a.partition_id ≡ b.partition_id) ↔ (Supersedes a b ⊎ Supersedes b a ⊎ (a ≡ b))
unfolding is_newer
is_newer_trichotomy a b = ground arith

-- A tag that passes `ValidateCommitted` supersedes the tag of its partition with sequence zero, and
-- the zero tag passes for no commit.
pub validate_committed_iff :
    (v : VersionTag) → (validate_committed v ≡ none) ↔ Supersedes v (record v { sequence = 0 })
unfolding validate_committed is_newer
validate_committed_iff v = ground arith

pub version_is_zero_iff : (v : VersionTag) → (version_is_zero v ≡ true) ↔ (v ≡ zero_version)
unfolding version_is_zero
version_is_zero_iff v = ground arith
