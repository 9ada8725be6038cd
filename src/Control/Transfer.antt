-- ===== src/Control/Transfer.antt =====
-- `ProtoInvalidationBatch` and `FromProtoInvalidationBatch` of internal/control/convert.go over the
-- arrays that the batch and the message hold.
pub mod Independence
pub mod Loop
pub mod Received
pub mod Delivery
pub mod Sessions
pub mod Envelope
pub mod ServerEnvelope
use gossipcache.Common.{ℕ, pos, Option, none, some, List, [], ◌∷◌, ◌++◌, map}
use gossipcache.Ownership.{Store, Slice, nil, contents, append_elements}
use gossipcache.Wire.Clones.{copy_bytes_in}
use gossipcache.Pb
use gossipcache.Rpc.Transfer.{read_id}
use gossipcache.Errors.{Check, Result, ok, err, ◌>>=◌, of_control, invalid_message}
use gossipcache.Control.Batch.{validate_batch}
use gossipcache.Control.Clones.{HeldEvent, Memory, HeldBatch, read_batch}
use gossipcache.Control.Convert.Values.{
  mutation_id_from_proto, record_kind_from_proto, version_from_proto,
}

-- The messages, whose byte fields are slices. A message that a pointer leads to is its own.
pub record HeldPbEvent : Type 0 where
  pub stream_sequence : ℕ
  pub key : Slice
  pub version : Option Pb.VersionTag
  pub kind : Pb.RecordKind
  pub mutation_id : Option Slice

unfoldable pub read_pb_event : Store ℕ → Option HeldPbEvent → Option Pb.InvalidationEvent
unfolding read_id
read_pb_event s none = none
read_pb_event s (some e) = some (record {
  stream_sequence = e.stream_sequence;
  key = contents s e.key;
  version = e.version;
  kind = e.kind;
  mutation_id = read_id s e.mutation_id;
})

pub record HeldPbBatch : Type 0 where
  pub stream_id : ℕ
  pub hub_generation : ℕ
  pub events : List (Option HeldPbEvent)

unfoldable pub read_pb_batch : Store ℕ → HeldPbBatch → Pb.InvalidationBatch
unfolding read_pb_event
read_pb_batch s m = record {
  stream_id = m.stream_id;
  hub_generation = m.hub_generation;
  events = map (read_pb_event s) m.events;
}

-- The message of one event. The variable `e` of the loop is a new one in each round, as of Go 1.22,
-- and `e.MutationID[:]` is a slice of its array.
unfoldable pub proto_event_in : Store ℕ → HeldEvent → Store ℕ × HeldPbEvent
unfolding copy_bytes_in
proto_event_in s e =
    let key = copy_bytes_in s e.key in
    let id = append_elements key.0 e.mutation_id in
    (
      id.0,
      record {
        stream_sequence = e.stream_sequence;
        key = key.1;
        version =
            some (record { partition_id = e.version.partition_id; sequence = e.version.sequence });
        kind = pos e.kind;
        mutation_id = some id.1;
      },
    )

-- The loop.
unfoldable pub proto_events_in : Store ℕ → List HeldEvent → Store ℕ × List (Option HeldPbEvent)
unfolding proto_event_in
proto_events_in s [] = (s, [])
proto_events_in s (e ∷ events) =
    let message = proto_event_in s e in
    let rest = proto_events_in message.0 events in (rest.0, some message.1 ∷ rest.1)

-- `ProtoInvalidationBatch`
unfoldable pub proto_invalidation_batch_in : Memory → HeldBatch → Store ℕ × HeldPbBatch
unfolding proto_events_in
proto_invalidation_batch_in m b =
    let events = proto_events_in m.bytes (contents m.events b.events) in
    (
      events.0,
      record { stream_id = b.stream_id; hub_generation = b.hub_generation; events = events.1 },
    )

-- One round of the loop of `FromProtoInvalidationBatch`, without its last assignment.
unfoldable pub event_from_proto_in : Store ℕ → Option HeldPbEvent → Result (Store ℕ × HeldEvent)
unfolding copy_bytes_in read_id
event_from_proto_in s none = err (of_control invalid_message)
event_from_proto_in s (some e) = do
  id ← mutation_id_from_proto (read_id s e.mutation_id)
  kind ← record_kind_from_proto e.kind
  ok (
      let key = copy_bytes_in s e.key in
      (
        key.0,
        record {
          stream_sequence = e.stream_sequence;
          key = key.1;
          version = version_from_proto e.version;
          kind = kind;
          mutation_id = id;
        },
      ))

unfoldable pub from_proto_events_in :
    Store ℕ → List HeldEvent → List (Option HeldPbEvent) → Result (Store ℕ × List HeldEvent)
unfolding event_from_proto_in
from_proto_events_in s out [] = ok (s, out)
from_proto_events_in s out (p ∷ events) = elim (event_from_proto_in s p) [
  | ok (t, e) ↦ from_proto_events_in t (out ++ (e ∷ [])) events
  | err x ↦ err x
]

abbrev pub zero_held_batch : HeldBatch
zero_held_batch = record { stream_id = 0; hub_generation = 0; events = nil }

-- The batch with its events in a new array, and its validation; or the zero value and the error.
unfoldable pub conclude_batch_in :
    Memory → HeldPbBatch → Result (Store ℕ × List HeldEvent) → Memory × HeldBatch × Check
conclude_batch_in m p (ok (t, events)) =
    let made = append_elements m.events events in
    let memory : Memory = record { bytes = t; events = made.0 } in
    let out : HeldBatch = record {
      stream_id = p.stream_id;
      hub_generation = p.hub_generation;
      events = made.1;
    } in
    (memory, out, validate_batch (read_batch memory out))
conclude_batch_in m p (err e) = (m, zero_held_batch, some e)

-- `FromProtoInvalidationBatch`
unfoldable pub from_proto_invalidation_batch_in :
    Memory → Option HeldPbBatch → Memory × HeldBatch × Check
unfolding from_proto_events_in conclude_batch_in
from_proto_invalidation_batch_in m none = (m, zero_held_batch, some (of_control invalid_message))
from_proto_invalidation_batch_in m (some p) =
    conclude_batch_in m p (from_proto_events_in m.bytes [] p.events)
