-- ===== src/Wire/MutationId.antt =====
-- `MutationID` of internal/wire/types.go: sixteen bytes, the node epoch and a counter, each in
-- network byte order.
pub mod RoundTrip
use gossipcache.Common.{ℕ, zero, suc, ◌+◌, ◌*◌, ◌/◌, ◌%◌, Bool, true, ◌==◌, ◌&&◌}
use gossipcache.Common.{List, [], ◌∷◌, ◌++◌, take, drop}

abbrev pub MutationId : Type 0
MutationId = List ℕ

-- The low k bytes of v, the highest first: `binary.BigEndian.PutUint64` for k = 8.
unfoldable pub put_be : ℕ → ℕ → List ℕ
put_be zero v = []
put_be (suc k) v = put_be k (v / 256) ++ (v % 256) ∷ []

be_from : ℕ → List ℕ → ℕ
be_from acc [] = acc
be_from acc (b ∷ bs) = be_from (acc * 256 + b) bs

-- `binary.BigEndian.Uint64`, on eight bytes.
unfoldable pub get_be : List ℕ → ℕ
unfolding be_from
get_be bs = be_from 0 bs

unfoldable pub new_mutation_id : ℕ → ℕ → MutationId
new_mutation_id node_epoch counter = put_be 8 node_epoch ++ put_be 8 counter

unfoldable pub node_epoch : MutationId → ℕ
node_epoch id = get_be (take 8 id)

unfoldable pub counter : MutationId → ℕ
counter id = get_be (drop 8 id)

-- `id == MutationID{}`
unfoldable pub mutation_id_is_zero : MutationId → Bool
mutation_id_is_zero [] = true
mutation_id_is_zero (b ∷ bs) = b == 0 && mutation_id_is_zero bs
