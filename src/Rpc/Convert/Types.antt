-- ===== src/Rpc/Convert/Types.antt =====
-- The ranges of the Go types of a mutation, of internal/rpc/types.go.
use gossipcache.Common.{◌≡◌, IsUint, IsBytes, length}
use gossipcache.Rpc.Mutation.{MutationRequest}

-- `MutationRequest`, by the types of its fields.
pub record IsGoMutation (m : MutationRequest) : Type 0 where
  pub op : IsUint 8 m.op
  pub key : IsBytes m.key
  pub value : IsBytes m.value
  pub ttl : IsUint 64 m.ttl_millis
  pub id : IsBytes m.mutation_id
  pub id_length : length m.mutation_id ≡ 16
  pub mode : IsUint 8 m.mode
  pub w : IsUint 16 m.w
  pub confirm : IsUint 8 m.confirm
  pub timeout : IsUint 32 m.timeout
  pub generation : IsUint 64 m.hub_generation
