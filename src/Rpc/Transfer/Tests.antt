-- ===== src/Rpc/Transfer/Tests.antt =====
-- A request on its way from a node to a hub, whose arrays are written behind each conversion.
use gossipcache.Common.{ℕ, ◌≡◌, refl, none, some, codes, [], ◌∷◌, arith}
use gossipcache.Ownership.{Store, view, write, done, contents, append_nil, append_elements}
use gossipcache.Wire.MutationId.{MutationId, mutation_id_is_zero}
use gossipcache.Wire.Options.{write_fast, confirm_invalidate_applied, validate_write_options}
use gossipcache.Wire.Clones.{copy_bytes_in}
use gossipcache.Wire.Requests.{validate_set_request, validate_delete_request, validate_key}
use gossipcache.Rpc.Mutation.{op_set, write_options, validate_mutation_request}
use gossipcache.Rpc.Clones.{HeldMutationRequest, read_mutation_request}
use gossipcache.Rpc.Convert.Enums.{
  proto_mutation_op, proto_write_mode, proto_confirm_level, from_proto_mutation_id,
  from_proto_mutation_op, from_proto_write_mode, from_proto_confirm_level,
}
use gossipcache.Rpc.Convert.FromProto.{w_from_uint32}
use gossipcache.Rpc.Transfer.{
  read_id, conclude_in, proto_mutation_request_in, from_proto_mutation_request_in,
}
use gossipcache.Rpc.Transfer.Independence.{from_proto-proto_mutation_request_in}

abbrev node : Store ℕ
node = codes "key" ∷ codes "value" ∷ []

abbrev minted : MutationId
minted = 0 ∷ 0 ∷ 0 ∷ 0 ∷ 0 ∷ 0 ∷ 0 ∷ 1 ∷ 0 ∷ 0 ∷ 0 ∷ 0 ∷ 0 ∷ 0 ∷ 0 ∷ 1 ∷ []

abbrev held : HeldMutationRequest
held = record {
  op = op_set;
  key = view 0 0 3;
  value = view 1 0 5;
  ttl_millis = 1500;
  mutation_id = minted;
  mode = write_fast;
  w = 2;
  confirm = confirm_invalidate_applied;
  timeout = 250;
  hub_generation = 4;
}

held-valid : validate_mutation_request (read_mutation_request node held) ≡ none
unfolding validate_mutation_request read_mutation_request contents validate_set_request
    validate_delete_request validate_write_options write_options mutation_id_is_zero validate_key
held-valid = refl

-- The node writes to its key behind the conversion,
abbrev sent : Store ℕ
sent = codes "Key" ∷ codes "value" ∷ codes "key" ∷ codes "value" ∷ minted ∷ []

-- and the transport to the value of the message.
abbrev received : Store ℕ
received =
    codes "Key"
    ∷ codes "value"
    ∷ codes "key"
    ∷ codes "Value"
    ∷ minted
    ∷ codes "key"
    ∷ codes "value"
    ∷ []

from_proto-proto_mutation_request_in_example :
    (read_mutation_request received
        (from_proto_mutation_request_in sent (some (proto_mutation_request_in node held).1)).1
      ≡ read_mutation_request node held)
    × ((from_proto_mutation_request_in sent (some (proto_mutation_request_in node held).1)).2
        ≡ none)
unfolding proto_mutation_request_in from_proto_mutation_request_in read_id conclude_in copy_bytes_in
    append_nil append_elements contents w_from_uint32 from_proto_mutation_id from_proto_mutation_op
    from_proto_write_mode from_proto_confirm_level proto_mutation_op proto_write_mode
    proto_confirm_level
from_proto-proto_mutation_request_in_example =
    from_proto-proto_mutation_request_in node held sent received (omega arith) held-valid
      (omega arith) refl (write 0 0 75 (omega arith) done) (write 3 0 86 (omega arith) done)
