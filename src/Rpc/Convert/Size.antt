-- ===== src/Rpc/Convert/Size.antt =====
-- How large a mutation of internal/rpc is on the wire.
use gossipcache.Common.{◌+◌, ◌^◌, ◌≤◌, ◌≡◌, none, length, arith}
use gossipcache.Encoding.{ProtobufSize, enum_field}
use gossipcache.Encoding.Varint.{
  bytes_field_bound, bytes_field_message, number_field_uint64, number_field_uint32, id_bound,
}
use gossipcache.Rpc.Mutation.{MutationRequest, validate_mutation_request}
use gossipcache.Rpc.Mutation.Content.{IsMutation, validate_mutation_request_iff}
use gossipcache.Rpc.Convert.Enums.{
  proto_mutation_op, proto_write_mode, proto_confirm_level, proto_mutation_id,
}
use gossipcache.Rpc.Convert.ToProto.{proto_mutation_request}
use gossipcache.Rpc.Convert.Types.{IsGoMutation}

module _ (pb : ProtobufSize) where
  open pb use {size_varint, size_mutation, mutation_fields, varint_last}

  op_bound :
      (m : MutationRequest) → IsMutation m → enum_field size_varint (proto_mutation_op m.op) ≤ 2
  unfolding proto_mutation_op
  op_bound m v = ground (arith, v.payload, varint_last 1, varint_last 2)

  mode_bound :
      (m : MutationRequest) → IsMutation m → enum_field size_varint (proto_write_mode m.mode) ≤ 2
  unfolding proto_write_mode
  mode_bound m v = ground (arith, v.mode, varint_last 1)

  confirm_bound :
      (m : MutationRequest)
      → IsMutation m
      → enum_field size_varint (proto_confirm_level m.confirm) ≤ 2
  unfolding proto_confirm_level
  confirm_bound m v = ground (arith, v.level, varint_last 1)

  value_length : (m : MutationRequest) → IsMutation m → length m.value ≤ 2 ^ 20
  value_length m v = ground (arith, v.payload)

  -- A valid mutation, with its fields in the ranges of their types, takes at most 68 bytes beside a
  -- key of 4 KiB and a value of 1 MiB.
  pub proto_mutation_request_bound :
      (m : MutationRequest)
      → IsGoMutation m
      → validate_mutation_request m ≡ none
      → size_mutation (proto_mutation_request m) ≤ 2 ^ 20 + 2 ^ 12 + 68
  unfolding proto_mutation_request proto_mutation_id
  proto_mutation_request_bound m g valid =
      let v = (validate_mutation_request_iff m g.timeout).0 valid in
      let value = value_length m v in
      let message = proto_mutation_request m in
      omega (
        arith,
        mutation_fields message,
        op_bound m v,
        bytes_field_bound pb (length m.key) (omega (arith, v.key)),
        bytes_field_message pb (length m.value) (omega (arith, value)),
        value,
        v.key,
        number_field_uint64 pb m.ttl_millis g.ttl,
        id_bound pb (proto_mutation_id m.mutation_id) g.id_length,
        mode_bound m v,
        number_field_uint32 pb m.w (omega (arith, g.w)),
        confirm_bound m v,
        number_field_uint32 pb m.timeout g.timeout,
        number_field_uint64 pb m.hub_generation g.generation,
      )
