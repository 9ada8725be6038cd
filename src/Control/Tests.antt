-- ===== src/Control/Tests.antt =====
-- Runs of internal/control on the inputs of its tests and on inputs like them.
use gossipcache.Common.{
  ℕ, ◌+◌, ◌≤◌, ◌≡◌, refl, none, some, [], ◌∷◌, length, codes, arith, is_blank, is_space, trim_space,
}
use gossipcache.Wire.Protocol.{validate_protocol_range}
use gossipcache.Wire.Record.{record_value, record_kind_valid}
use gossipcache.Wire.MutationId.{mutation_id_is_zero}
use gossipcache.Rpc.Handshake.{validate_cluster_id}
use gossipcache.Pb
use gossipcache.Control.Session.{Hello, contains, check_watermarks, validate_hello}
use gossipcache.Control.Batch.{
  InvalidationEvent, InvalidationBatch, validate_event, check_events, events_size,
  estimated_encoded_size, validate_batch, max_batch_events, max_control_message_bytes,
}
use gossipcache.Control.Batch.Contiguity.{IsBatch, encoded, validate_batch_iff}
use gossipcache.Control.Batch.Splitting.{batch_of, validate_batch-append_iff}
use gossipcache.Control.Convert.ToProto.{proto_hello, proto_invalidation_batch}
use gossipcache.Control.Convert.FromProto.{from_proto_invalidation_batch}
use gossipcache.Control.Convert.Messages.{from_proto_invalidation_batch_iff}
use gossipcache.Control.Convert.Envelope.{
  ClientValue, ServerValue, proto_client_message, proto_server_message, from_proto_client_message,
  from_proto_server_message,
}
use gossipcache.Control.Convert.Streams.{
  from_proto_client_message_iff, from_proto_server_message_iff,
}
use gossipcache.Common.{List, All, ◌<◌, ◌*◌}
use gossipcache.Control.Batch.Contiguity.{IsEvent}
use gossipcache.Control.Batch.Publishing.{IsAccepted, joined, publication-IsAccepted}
use gossipcache.Control.Delivery.{
  ReplayRequest, ReplayUnavailable, validate_replay_request, validate_replay_unavailable,
}
use gossipcache.Control.Delivery.Windows.{IsWindow, validate_replay_unavailable-evicted_iff}
use gossipcache.Control.Batch.Streams.{Follows, stream_batches_iff}
use mathlib.Mathlib.Data.Multiset.Defs.{of_list}
use gossipcache.Control.Session.Multisets.{IsServed, validate_hello-IsServed}

abbrev pub invalidated : ℕ → InvalidationEvent
invalidated n = record {
  stream_sequence = n;
  key = codes "user:1";
  version = record { partition_id = 7; sequence = n };
  kind = record_value;
  mutation_id = 0 ∷ 0 ∷ 0 ∷ 0 ∷ 0 ∷ 0 ∷ 0 ∷ 1 ∷ 0 ∷ 0 ∷ 0 ∷ 0 ∷ 0 ∷ 0 ∷ 0 ∷ 3 ∷ [];
}

abbrev pub pair : InvalidationBatch
pair = batch_of 7 2 (invalidated 41 ∷ invalidated 42 ∷ [])

pub pair-valid : validate_batch pair ≡ none
unfolding validate_batch check_events validate_event events_size estimated_encoded_size
    mutation_id_is_zero record_kind_valid
pair-valid = refl

validate_batch_iff_example : IsBatch pair
validate_batch_iff_example = (validate_batch_iff pair (omega arith)).0 pair-valid

validate_batch-append_iff_example :
    (validate_batch (batch_of 7 2 (invalidated 41 ∷ [])) ≡ none)
    × (validate_batch (batch_of 7 2 (invalidated 42 ∷ [])) ≡ none)
    × ((invalidated 42).stream_sequence
        ≡ (invalidated 41).stream_sequence + length (invalidated 41 ∷ []))
    × (length (invalidated 41 ∷ []) + length (invalidated 42 ∷ []) ≤ max_batch_events)
    × (128 + encoded (invalidated 41 ∷ []) + encoded (invalidated 42 ∷ [])
        ≤ max_control_message_bytes)
validate_batch-append_iff_example =
    (validate_batch-append_iff 7 2 (invalidated 41) (invalidated 42) [] [] (omega arith)
        (omega arith)).0
      pair-valid

from_proto_invalidation_batch_iff_example :
    from_proto_invalidation_batch (some (proto_invalidation_batch pair)) ≡ (pair, none)
from_proto_invalidation_batch_iff_example =
    (from_proto_invalidation_batch_iff pair (some (proto_invalidation_batch pair))).1
      (pair-valid, (refl, (refl, tt)), refl)

abbrev pub greeting : Hello
greeting = record {
  node_id = 5;
  protocol = record { version = 1; min_supported = 1 };
  subscriptions =
      record { stream_id = 7; applied_through = 40; hub_generation = 2 }
      ∷ record { stream_id = 8; applied_through = 0; hub_generation = 2 }
      ∷ [];
  cluster_id = "cluster-a";
  expected_hub_generation = 2;
}

pub greeting-valid : validate_hello greeting ≡ none
unfolding validate_hello check_watermarks contains validate_protocol_range validate_cluster_id
    is_blank trim_space is_space
greeting-valid = refl

from_proto_client_message_iff_example :
    from_proto_client_message
      (some (record { body = some (Pb.ClientBody.hello (some (proto_hello greeting))) }))
    ≡ (some (ClientValue.hello greeting), none)
unfolding proto_client_message
from_proto_client_message_iff_example =
    (from_proto_client_message_iff
        (record { body = some (Pb.ClientBody.hello (some (proto_hello greeting))) })
        (ClientValue.hello greeting)).1
      ((greeting-valid, omega arith, omega arith), refl)

abbrev pub published : Pb.ControlServerMessage
published = record {
  body = some (Pb.ServerBody.invalidation_batch (some (proto_invalidation_batch pair)));
}

from_proto_server_message_iff_example :
    from_proto_server_message (some published) ≡ (some (ServerValue.invalidation_batch pair), none)
unfolding proto_server_message
from_proto_server_message_iff_example =
    (from_proto_server_message_iff published (ServerValue.invalidation_batch pair)).1
      ((pair-valid, (refl, (refl, tt))), refl)

pair-IsEvent : All (IsEvent 7) pair.events
pair-IsEvent = let batch = (validate_batch_iff pair (omega arith)).0 pair-valid in batch.events

publication-IsAccepted_example :
    (batches : List (List InvalidationEvent)) × (joined batches ≡ pair.events)
    × All (IsAccepted 7 2) batches
    × (756 * length batches < length pair.events + 756)
publication-IsAccepted_example =
    publication-IsAccepted 7 2 41 pair.events (omega arith) (omega arith) pair-IsEvent
      (refl, (refl, tt))

validate_hello-IsServed_example : IsServed greeting (of_list greeting.subscriptions)
validate_hello-IsServed_example = (validate_hello-IsServed greeting).0 greeting-valid

abbrev asked : ReplayRequest
asked = record { stream_id = 7; from_sequence = 3; to_sequence = 9 }

abbrev gone : ReplayUnavailable
gone = record {
  stream_id = 7;
  hub_generation = 2;
  requested_from = 3;
  oldest_available = 11;
  stream_head = 10;
}

validate_replay_unavailable-evicted_iff_example :
    (0 < gone.hub_generation)
    × IsWindow gone.oldest_available gone.stream_head
    × ((n : ℕ) × (asked.from_sequence ≤ n)
        × (n ≤ asked.to_sequence)
        × (n < gone.oldest_available)
        × (n ≤ gone.stream_head))
unfolding validate_replay_request validate_replay_unavailable
validate_replay_unavailable-evicted_iff_example =
    (validate_replay_unavailable-evicted_iff asked gone refl refl).0 refl

stream_batches_iff_example :
    All (IsAccepted 7 2) ((invalidated 41 ∷ []) ∷ (invalidated 42 ∷ []) ∷ [])
    × Follows 41 ((invalidated 41 ∷ []) ∷ (invalidated 42 ∷ []) ∷ [])
unfolding joined
stream_batches_iff_example =
    (stream_batches_iff 7 2 41 ((invalidated 41 ∷ []) ∷ (invalidated 42 ∷ []) ∷ []) (omega arith)
        (omega arith)).1
      (pair-IsEvent, (refl, (refl, tt)), omega arith)
