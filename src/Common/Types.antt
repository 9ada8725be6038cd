-- ===== src/Common/Types.antt =====
-- The ranges of Go's integer types, for what stands in the model as a number.
use Prim.Native.Nat.{ℕ, ◌^◌, ◌<◌}
use mathlib.Core.List.{List}
use gossipcache.Common.Lists.{All}
use gossipcache.Common.Int.{ℤ, pos, negsuc}

abbrev pub IsUint : ℕ → ℕ → Type 0
IsUint width n = n < 2 ^ width

abbrev pub IsInt32 : ℤ → Type 0
IsInt32 (pos n) = n < 2 ^ 31
IsInt32 (negsuc n) = n < 2 ^ 31

-- A `[]byte`.
abbrev pub IsBytes : List ℕ → Type 0
IsBytes = All (IsUint 8)
