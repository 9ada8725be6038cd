-- ===== src/Rpc/Transfer.antt =====
-- `ProtoMutationRequest` and `FromProtoMutationRequest` of internal/rpc/convert.go over the arrays
-- that the request and the message hold.
pub mod Independence
pub mod Reads
mod Tests
use gossipcache.Common.{ℕ, Option, none, some}
use gossipcache.Errors.{Check, Result, ok, err, ◌>>=◌, message}
use gossipcache.Ownership.{Store, Slice, nil, contents, append_elements}
use gossipcache.Wire.Clones.{copy_bytes_in}
use gossipcache.Pb
use gossipcache.Rpc.Mutation.{validate_mutation_request}
use gossipcache.Rpc.Clones.{HeldMutationRequest, read_mutation_request}
use gossipcache.Rpc.Convert.Enums.{
  proto_mutation_op, proto_write_mode, proto_confirm_level, from_proto_mutation_id,
  from_proto_mutation_op, from_proto_write_mode, from_proto_confirm_level,
}
use gossipcache.Rpc.Convert.FromProto.{w_from_uint32, zero_mutation_request}

-- The message, whose byte fields are slices; the id is a message that may be nil.
pub record HeldMessage : Type 0 where
  pub op : Pb.MutationOp
  pub key : Slice
  pub value : Slice
  pub ttl_millis : ℕ
  pub mutation_id : Option Slice
  pub mode : Pb.WriteMode
  pub w : ℕ
  pub confirm : Pb.ConfirmLevel
  pub timeout_millis : ℕ
  pub hub_generation : ℕ

unfoldable pub read_id : Store ℕ → Option Slice → Option Pb.MutationId
read_id s none = none
read_id s (some id) = some (record { id = contents s id })

unfoldable pub read_message : Store ℕ → HeldMessage → Pb.MutationRequest
unfolding read_id
read_message s m = record {
  op = m.op;
  key = contents s m.key;
  value = contents s m.value;
  ttl_millis = m.ttl_millis;
  mutation_id = read_id s m.mutation_id;
  mode = m.mode;
  w = m.w;
  confirm = m.confirm;
  timeout_millis = m.timeout_millis;
  hub_generation = m.hub_generation;
}

-- `ProtoMutationRequest`; `id[:]` is a slice of the array that the call has its id in.
unfoldable pub proto_mutation_request_in : Store ℕ → HeldMutationRequest → Store ℕ × HeldMessage
unfolding copy_bytes_in
proto_mutation_request_in s m =
    let key = copy_bytes_in s m.key in
    let value = copy_bytes_in key.0 m.value in
    let id = append_elements value.0 m.mutation_id in
    (
      id.0,
      record {
        op = proto_mutation_op m.op;
        key = key.1;
        value = value.1;
        ttl_millis = m.ttl_millis;
        mutation_id = some id.1;
        mode = proto_write_mode m.mode;
        w = m.w;
        confirm = proto_confirm_level m.confirm;
        timeout_millis = m.timeout;
        hub_generation = m.hub_generation;
      },
    )

abbrev pub zero_held : HeldMutationRequest
zero_held = record {
  op = 0;
  key = nil;
  value = nil;
  ttl_millis = 0;
  mutation_id = zero_mutation_request.mutation_id;
  mode = 0;
  w = 0;
  confirm = 0;
  timeout = 0;
  hub_generation = 0;
}

-- `return out, out.Validate()`, or the zero value and the error.
unfoldable pub conclude_in :
    Store ℕ → Result (Store ℕ × HeldMutationRequest) → Store ℕ × HeldMutationRequest × Check
conclude_in s (ok (t, out)) = (t, out, validate_mutation_request (read_mutation_request t out))
conclude_in s (err e) = (s, zero_held, some e)

-- `FromProtoMutationRequest`
unfoldable pub from_proto_mutation_request_in :
    Store ℕ → Option HeldMessage → Store ℕ × HeldMutationRequest × Check
unfolding copy_bytes_in read_id w_from_uint32 conclude_in
from_proto_mutation_request_in s none = (s, zero_held, some (message "nil mutation request"))
from_proto_mutation_request_in s (some m) = conclude_in s (do
  id ← from_proto_mutation_id (read_id s m.mutation_id)
  w ← w_from_uint32 m.w
  op ← from_proto_mutation_op m.op
  mode ← from_proto_write_mode m.mode
  confirm ← from_proto_confirm_level m.confirm
  ok (
      let key = copy_bytes_in s m.key in
      let value = copy_bytes_in key.0 m.value in
      (
        value.0,
        record {
          op = op;
          key = key.1;
          value = value.1;
          ttl_millis = m.ttl_millis;
          mutation_id = id;
          mode = mode;
          w = w;
          confirm = confirm;
          timeout = m.timeout_millis;
          hub_generation = m.hub_generation;
        },
      )))
