-- ===== src/Control/Transfer/ServerEnvelope/Tests.antt =====
-- A batch on its way from a hub to a node, whose arrays are written behind each conversion.
use gossipcache.Common.{ℕ, ◌≡◌, refl, none, some, codes, [], ◌∷◌, arith}
use gossipcache.Ownership.{Slice, view, write, done, contents, append_nil, append_elements}
use gossipcache.Wire.MutationId.{MutationId, mutation_id_is_zero}
use gossipcache.Wire.Record.{record_value, record_kind_valid}
use gossipcache.Wire.Clones.{copy_bytes_in}
use gossipcache.Rpc.Convert.Enums.{copy}
use gossipcache.Rpc.Transfer.{read_id}
use gossipcache.Control.Batch.{
  validate_event, check_events, events_size, estimated_encoded_size, validate_batch,
}
use gossipcache.Control.Clones.{HeldEvent, Memory, HeldBatch, read_event, read_batch}
use gossipcache.Control.Convert.Values.{
  mutation_id_from_proto, record_kind_from_proto, version_from_proto,
}
use gossipcache.Control.Transfer.{
  proto_event_in, proto_events_in, proto_invalidation_batch_in, event_from_proto_in,
  from_proto_events_in, conclude_batch_in, from_proto_invalidation_batch_in,
}
use gossipcache.Control.Transfer.ServerEnvelope.{
  HeldServerValue, HeldServerArgument, HeldServerMessage, read_server, server_body_in,
  proto_server_message_in, from_proto_server_body_in, from_proto_server_message_in,
}
use gossipcache.Control.Transfer.ServerEnvelope.Hub.{from_proto-proto_server_message_in}
use mathlib.Core.Option

abbrev minted : ℕ → MutationId
minted n = 0 ∷ 0 ∷ 0 ∷ 0 ∷ 0 ∷ 0 ∷ 0 ∷ 1 ∷ 0 ∷ 0 ∷ 0 ∷ 0 ∷ 0 ∷ 0 ∷ 0 ∷ n ∷ []

abbrev held_event : ℕ → Slice → HeldEvent
held_event n key = record {
  stream_sequence = n;
  key = key;
  version = record { partition_id = 7; sequence = n };
  kind = record_value;
  mutation_id = minted n;
}

-- Both events have the one key, in one array.
abbrev hub : Memory
hub = record {
  bytes = codes "key" ∷ [];
  events = (held_event 1 (view 0 0 3) ∷ held_event 2 (view 0 0 3) ∷ []) ∷ [];
}

abbrev batch : HeldBatch
batch = record { stream_id = 7; hub_generation = 2; events = view 0 0 2 }

batch-valid : validate_batch (read_batch hub batch) ≡ none
unfolding validate_batch check_events validate_event events_size estimated_encoded_size
    mutation_id_is_zero record_kind_valid read_batch read_event contents
batch-valid = refl

-- The hub writes to its key and to its events behind the conversion,
abbrev sent : Memory
sent = record {
  bytes = codes "Key" ∷ codes "key" ∷ minted 1 ∷ codes "key" ∷ minted 2 ∷ [];
  events = (held_event 1 (view 0 0 3) ∷ held_event 9 Slice.nil ∷ []) ∷ [];
}

-- and the transport to the second key of the message.
abbrev received : Memory
received = record {
  bytes =
      codes "Key"
      ∷ codes "key"
      ∷ minted 1
      ∷ codes "Key"
      ∷ minted 2
      ∷ codes "key"
      ∷ codes "key"
      ∷ [];
  events =
      (held_event 1 (view 0 0 3) ∷ held_event 9 Slice.nil ∷ [])
      ∷ (held_event 1 (view 5 0 3) ∷ held_event 2 (view 6 0 3) ∷ [])
      ∷ [];
}

abbrev published : HeldServerMessage
unfolding server_body_in
published = record { body = some (server_body_in hub (HeldServerValue.invalidation_batch batch)).1 }

from_proto-proto_server_message_in_example :
    (Option.map (read_server received) (from_proto_server_message_in sent (some published)).1
      ≡ some (read_server hub (HeldServerValue.invalidation_batch batch)))
    × ((from_proto_server_message_in sent (some published)).2 ≡ none)
unfolding read_server server_body_in proto_server_message_in from_proto_server_body_in
    from_proto_server_message_in proto_invalidation_batch_in proto_events_in proto_event_in
    event_from_proto_in from_proto_events_in conclude_batch_in from_proto_invalidation_batch_in
    read_id copy_bytes_in append_nil append_elements contents mutation_id_from_proto
    record_kind_from_proto version_from_proto read_batch read_event copy
from_proto-proto_server_message_in_example =
    from_proto-proto_server_message_in hub
      (HeldServerArgument.value (HeldServerValue.invalidation_batch batch))
      (HeldServerValue.invalidation_batch batch) published sent received refl (omega arith)
      (batch-valid, omega arith) refl
      (record {
        bytes = write 0 0 75 (omega arith) done;
        events = write 0 1 (held_event 9 Slice.nil) (omega arith) done;
      })
      (record { bytes = write 3 0 75 (omega arith) done; events = done })
