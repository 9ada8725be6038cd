-- ===== src/Encoding/Concrete.antt =====
-- A size function that meets the description: the sums of the fields, over varints of seven bits a
-- byte.
use gossipcache.Common.{
  ℕ, zero, suc, ◌+◌, ◌/◌, ◌≤◌, ◌<◌, ◌≡◌, refl, Option, none, some, ltb, if◌then◌else◌, length,
  arith,
}
use gossipcache.Pb
use gossipcache.Encoding.{
  ProtobufSize, number_field, enum_field, bytes_field, optional_field, repeated_field, packed,
}
use Prim.Native.String.{len}

varint_bytes : ℕ → ℕ → ℕ
varint_bytes zero n = 1
varint_bytes (suc fuel) n =
    let rest = varint_bytes fuel (n / 128) in if ltb n 128 then 1 else 1 + rest

varint_bytes_fuel : (f g n : ℕ) → n ≤ f → n ≤ g → varint_bytes f n ≡ varint_bytes g n
unfolding varint_bytes
varint_bytes_fuel zero zero n p q = refl
varint_bytes_fuel zero (suc g) n p q = ground arith
varint_bytes_fuel (suc f) zero n p q = ground arith
varint_bytes_fuel (suc f) (suc g) n p q = ground (arith, varint_bytes_fuel f g (n / 128))

pub varint : ℕ → ℕ
varint n = varint_bytes n n

pub varint_last : (n : ℕ) → n < 128 → varint n ≡ 1
unfolding varint varint_bytes
varint_last zero h = refl
varint_last (suc n) h = ground arith

pub varint_more : (n : ℕ) → 128 ≤ n → varint n ≡ 1 + varint (n / 128)
unfolding varint varint_bytes
varint_more zero h = absurd (omega arith)
varint_more (suc n) h = ground (arith, varint_bytes_fuel n (suc n / 128) (suc n / 128))

version_size : Pb.VersionTag → ℕ
version_size m = number_field varint m.partition_id + number_field varint m.sequence

id_size : Pb.MutationId → ℕ
id_size m = bytes_field varint (length m.id)

event_size : Pb.InvalidationEvent → ℕ
event_size m =
    number_field varint m.stream_sequence
    + bytes_field varint (length m.key)
    + optional_field varint version_size m.version
    + enum_field varint m.kind
    + optional_field varint id_size m.mutation_id

batch_size : Pb.InvalidationBatch → ℕ
batch_size m =
    number_field varint m.stream_id
    + number_field varint m.hub_generation
    + repeated_field varint event_size m.events

checkpoint_size : Pb.StreamCheckpoint → ℕ
checkpoint_size m =
    number_field varint m.stream_id
    + number_field varint m.hub_generation
    + number_field varint m.stream_head

unavailable_size : Pb.ReplayUnavailable → ℕ
unavailable_size m =
    number_field varint m.stream_id
    + number_field varint m.hub_generation
    + number_field varint m.requested_from
    + number_field varint m.oldest_available
    + number_field varint m.stream_head

error_size : Pb.ControlError → ℕ
error_size m = enum_field varint m.status + bytes_field varint (len m.detail)

body_size : Option Pb.ServerBody → ℕ
body_size none = 0
body_size (some (Pb.ServerBody.invalidation_batch m)) = optional_field varint batch_size m
body_size (some (Pb.ServerBody.stream_checkpoint m)) = optional_field varint checkpoint_size m
body_size (some (Pb.ServerBody.replay_unavailable m)) = optional_field varint unavailable_size m
body_size (some (Pb.ServerBody.control_error m)) = optional_field varint error_size m

watermark_size : Pb.StreamWatermark → ℕ
watermark_size m =
    number_field varint m.stream_id
    + number_field varint m.applied_through
    + number_field varint m.hub_generation

hello_size : Pb.Hello → ℕ
hello_size m =
    number_field varint m.node_id
    + number_field varint m.protocol_version
    + number_field varint m.min_supported_version
    + repeated_field varint watermark_size m.subscriptions
    + bytes_field varint (len m.cluster_id)
    + number_field varint m.expected_hub_generation

subscribe_size : Pb.Subscribe → ℕ
subscribe_size m =
    number_field varint m.hub_generation + bytes_field varint (packed varint m.stream_ids)

acknowledgement_size : Pb.StreamAcknowledgement → ℕ
acknowledgement_size m = number_field varint m.stream_id + number_field varint m.applied_through

request_size : Pb.ReplayRequest → ℕ
request_size m =
    number_field varint m.stream_id
    + number_field varint m.from_sequence
    + number_field varint m.to_sequence

confirm_size : Pb.InvalidateConfirm → ℕ
confirm_size m =
    number_field varint m.stream_id
    + number_field varint m.stream_sequence
    + number_field varint m.node_id

client_body_size : Option Pb.ClientBody → ℕ
client_body_size none = 0
client_body_size (some (Pb.ClientBody.hello m)) = optional_field varint hello_size m
client_body_size (some (Pb.ClientBody.subscribe m)) = optional_field varint subscribe_size m
client_body_size (some (Pb.ClientBody.stream_acknowledgement m)) =
    optional_field varint acknowledgement_size m
client_body_size (some (Pb.ClientBody.replay_request m)) = optional_field varint request_size m
client_body_size (some (Pb.ClientBody.invalidate_confirm m)) = optional_field varint confirm_size m

mutation_size : Pb.MutationRequest → ℕ
mutation_size m =
    enum_field varint m.op
    + bytes_field varint (length m.key)
    + bytes_field varint (length m.value)
    + number_field varint m.ttl_millis
    + optional_field varint id_size m.mutation_id
    + enum_field varint m.mode
    + number_field varint m.w
    + enum_field varint m.confirm
    + number_field varint m.timeout_millis
    + number_field varint m.hub_generation

-- The size by the sums of the fields.
abbrev pub summed : ProtobufSize
unfolding version_size id_size event_size batch_size checkpoint_size unavailable_size error_size
    body_size watermark_size hello_size subscribe_size acknowledgement_size request_size
    confirm_size client_body_size mutation_size
summed = record {
  size_varint = varint;
  size_version = version_size;
  size_id = id_size;
  size_event = event_size;
  size_batch = batch_size;
  size_checkpoint = checkpoint_size;
  size_unavailable = unavailable_size;
  size_error = error_size;
  size_server = λ m. body_size m.body;
  size_watermark = watermark_size;
  size_hello = hello_size;
  size_subscribe = subscribe_size;
  size_acknowledgement = acknowledgement_size;
  size_request = request_size;
  size_confirm = confirm_size;
  size_client = λ m. client_body_size m.body;
  size_mutation = mutation_size;
  varint_last = varint_last;
  varint_more = varint_more;
  version_fields = λ m. refl;
  id_fields = λ m. refl;
  event_fields = λ m. refl;
  batch_fields = λ m. refl;
  checkpoint_fields = λ m. refl;
  unavailable_fields = λ m. refl;
  error_fields = λ m. refl;
  server_batch = λ m. refl;
  server_checkpoint = λ m. refl;
  server_unavailable = λ m. refl;
  server_error = λ m. refl;
  watermark_fields = λ m. refl;
  hello_fields = λ m. refl;
  subscribe_fields = λ m. refl;
  acknowledgement_fields = λ m. refl;
  request_fields = λ m. refl;
  confirm_fields = λ m. refl;
  client_hello = λ m. refl;
  client_subscribe = λ m. refl;
  client_acknowledgement = λ m. refl;
  client_request = λ m. refl;
  client_confirm = λ m. refl;
  mutation_fields = λ m. refl;
}
