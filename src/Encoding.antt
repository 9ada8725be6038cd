-- ===== src/Encoding.antt =====
-- How long a protobuf message is on the wire: `proto.Size` of google.golang.org/protobuf, by the
-- encoding that its documentation describes, for the messages of the control stream and for
-- mutations. Their field numbers, which the struct tags of api/gen/gossipcache/v1 repeat, are below
-- 16, so that a tag is one byte.
pub mod Varint
pub mod Concrete
use gossipcache.Common.{
  ℕ, zero, suc, ◌+◌, ◌/◌, ◌≤◌, ◌<◌, ◌≡◌, ◌==◌, if◌then◌else◌, Option, none, some, List, [], ◌∷◌,
  length, ℤ, pos, negsuc,
}
use gossipcache.Pb
use Prim.Native.String.{len}

-- The sizes of fields, over the size of a varint. A number, a text or a list of bytes that is zero
-- or empty is left out, a message is not; a negative enumeration takes ten bytes.
module _ (size_varint : ℕ → ℕ) where
  abbrev pub number_field : ℕ → ℕ
  number_field n = if n == 0 then 0 else 1 + size_varint n

  abbrev pub enum_field : ℤ → ℕ
  enum_field (pos n) = number_field n
  enum_field (negsuc n) = 11

  -- by the number of bytes
  abbrev pub bytes_field : ℕ → ℕ
  bytes_field n = if n == 0 then 0 else 1 + size_varint n + n

  abbrev pub message_field : ℕ → ℕ
  message_field n = 1 + size_varint n + n

  abbrev pub optional_field {ℓ} : {A : Type ℓ} → (A → ℕ) → Option A → ℕ
  optional_field size none = 0
  optional_field size (some m) = message_field (size m)

  -- A nil element of a repeated field is an empty message.
  abbrev pub repeated_field {ℓ} : {A : Type ℓ} → (A → ℕ) → List (Option A) → ℕ
  repeated_field size [] = 0
  repeated_field size (none ∷ ms) = message_field 0 + repeated_field size ms
  repeated_field size (some m ∷ ms) = message_field (size m) + repeated_field size ms

  -- The bytes of a packed list of numbers.
  abbrev pub packed : List ℕ → ℕ
  packed [] = 0
  packed (n ∷ ns) = size_varint n + packed ns

pub record ProtobufSize : Type 0 where
  pub size_varint : ℕ → ℕ
  pub size_version : Pb.VersionTag → ℕ
  pub size_id : Pb.MutationId → ℕ
  pub size_event : Pb.InvalidationEvent → ℕ
  pub size_batch : Pb.InvalidationBatch → ℕ
  pub size_checkpoint : Pb.StreamCheckpoint → ℕ
  pub size_unavailable : Pb.ReplayUnavailable → ℕ
  pub size_error : Pb.ControlError → ℕ
  pub size_server : Pb.ControlServerMessage → ℕ
  pub size_watermark : Pb.StreamWatermark → ℕ
  pub size_hello : Pb.Hello → ℕ
  pub size_subscribe : Pb.Subscribe → ℕ
  pub size_acknowledgement : Pb.StreamAcknowledgement → ℕ
  pub size_request : Pb.ReplayRequest → ℕ
  pub size_confirm : Pb.InvalidateConfirm → ℕ
  pub size_client : Pb.ControlClientMessage → ℕ
  pub size_mutation : Pb.MutationRequest → ℕ
  -- seven bits to a byte
  pub varint_last : (n : ℕ) → n < 128 → size_varint n ≡ 1
  pub varint_more : (n : ℕ) → 128 ≤ n → size_varint n ≡ 1 + size_varint (n / 128)
  pub version_fields :
      (m : Pb.VersionTag)
      → size_version m
        ≡ number_field size_varint m.partition_id + number_field size_varint m.sequence
  pub id_fields : (m : Pb.MutationId) → size_id m ≡ bytes_field size_varint (length m.id)
  pub event_fields :
      (m : Pb.InvalidationEvent)
      → size_event m
        ≡ number_field size_varint m.stream_sequence
          + bytes_field size_varint (length m.key)
          + optional_field size_varint size_version m.version
          + enum_field size_varint m.kind
          + optional_field size_varint size_id m.mutation_id
  pub batch_fields :
      (m : Pb.InvalidationBatch)
      → size_batch m
        ≡ number_field size_varint m.stream_id
          + number_field size_varint m.hub_generation
          + repeated_field size_varint size_event m.events
  pub checkpoint_fields :
      (m : Pb.StreamCheckpoint)
      → size_checkpoint m
        ≡ number_field size_varint m.stream_id
          + number_field size_varint m.hub_generation
          + number_field size_varint m.stream_head
  pub unavailable_fields :
      (m : Pb.ReplayUnavailable)
      → size_unavailable m
        ≡ number_field size_varint m.stream_id
          + number_field size_varint m.hub_generation
          + number_field size_varint m.requested_from
          + number_field size_varint m.oldest_available
          + number_field size_varint m.stream_head
  pub error_fields :
      (m : Pb.ControlError)
      → size_error m ≡ enum_field size_varint m.status + bytes_field size_varint (len m.detail)
  -- The oneof that holds a message takes the field of that message.
  pub server_batch :
      (m : Pb.InvalidationBatch)
      → size_server (record { body = some (Pb.ServerBody.invalidation_batch (some m)) })
        ≡ message_field size_varint (size_batch m)
  pub server_checkpoint :
      (m : Pb.StreamCheckpoint)
      → size_server (record { body = some (Pb.ServerBody.stream_checkpoint (some m)) })
        ≡ message_field size_varint (size_checkpoint m)
  pub server_unavailable :
      (m : Pb.ReplayUnavailable)
      → size_server (record { body = some (Pb.ServerBody.replay_unavailable (some m)) })
        ≡ message_field size_varint (size_unavailable m)
  pub server_error :
      (m : Pb.ControlError)
      → size_server (record { body = some (Pb.ServerBody.control_error (some m)) })
        ≡ message_field size_varint (size_error m)
  pub watermark_fields :
      (m : Pb.StreamWatermark)
      → size_watermark m
        ≡ number_field size_varint m.stream_id
          + number_field size_varint m.applied_through
          + number_field size_varint m.hub_generation
  pub hello_fields :
      (m : Pb.Hello)
      → size_hello m
        ≡ number_field size_varint m.node_id
          + number_field size_varint m.protocol_version
          + number_field size_varint m.min_supported_version
          + repeated_field size_varint size_watermark m.subscriptions
          + bytes_field size_varint (len m.cluster_id)
          + number_field size_varint m.expected_hub_generation
  -- The numbers of a packed field follow one tag and their length.
  pub subscribe_fields :
      (m : Pb.Subscribe)
      → size_subscribe m
        ≡ number_field size_varint m.hub_generation
          + bytes_field size_varint (packed size_varint m.stream_ids)
  pub acknowledgement_fields :
      (m : Pb.StreamAcknowledgement)
      → size_acknowledgement m
        ≡ number_field size_varint m.stream_id + number_field size_varint m.applied_through
  pub request_fields :
      (m : Pb.ReplayRequest)
      → size_request m
        ≡ number_field size_varint m.stream_id
          + number_field size_varint m.from_sequence
          + number_field size_varint m.to_sequence
  pub confirm_fields :
      (m : Pb.InvalidateConfirm)
      → size_confirm m
        ≡ number_field size_varint m.stream_id
          + number_field size_varint m.stream_sequence
          + number_field size_varint m.node_id
  pub client_hello :
      (m : Pb.Hello)
      → size_client (record { body = some (Pb.ClientBody.hello (some m)) })
        ≡ message_field size_varint (size_hello m)
  pub client_subscribe :
      (m : Pb.Subscribe)
      → size_client (record { body = some (Pb.ClientBody.subscribe (some m)) })
        ≡ message_field size_varint (size_subscribe m)
  pub client_acknowledgement :
      (m : Pb.StreamAcknowledgement)
      → size_client (record { body = some (Pb.ClientBody.stream_acknowledgement (some m)) })
        ≡ message_field size_varint (size_acknowledgement m)
  pub client_request :
      (m : Pb.ReplayRequest)
      → size_client (record { body = some (Pb.ClientBody.replay_request (some m)) })
        ≡ message_field size_varint (size_request m)
  pub client_confirm :
      (m : Pb.InvalidateConfirm)
      → size_client (record { body = some (Pb.ClientBody.invalidate_confirm (some m)) })
        ≡ message_field size_varint (size_confirm m)
  pub mutation_fields :
      (m : Pb.MutationRequest)
      → size_mutation m
        ≡ enum_field size_varint m.op
          + bytes_field size_varint (length m.key)
          + bytes_field size_varint (length m.value)
          + number_field size_varint m.ttl_millis
          + optional_field size_varint size_id m.mutation_id
          + enum_field size_varint m.mode
          + number_field size_varint m.w
          + enum_field size_varint m.confirm
          + number_field size_varint m.timeout_millis
          + number_field size_varint m.hub_generation
