-- ===== src/Control/Clones.antt =====
-- The Clone methods of internal/control/types.go, over the arrays that the structs hold.
pub mod Loop
pub mod Independence
mod Tests
use gossipcache.Common.{zero, suc, Option, none, some, get_elem?, set, ℕ, List, [], ◌∷◌, map}
use gossipcache.Ownership.{Store, Slice, nil, view, array, contents, append_nil}
use gossipcache.Wire.MutationId.{MutationId}
use gossipcache.Wire.Protocol.{ProtocolRange}
use gossipcache.Wire.Record.{RecordKind}
use gossipcache.Wire.Version.{VersionTag}
use gossipcache.Wire.Clones.{copy_bytes_in}
use gossipcache.Control.Batch.{InvalidationEvent, InvalidationBatch}
use gossipcache.Control.Session.{StreamWatermark, Hello, Subscribe}
use Prim.Native.String.{String}

pub record HeldHello : Type 0 where
  pub node_id : ℕ
  pub protocol : ProtocolRange
  pub subscriptions : Slice
  pub cluster_id : String
  pub expected_hub_generation : ℕ

unfoldable pub read_hello : Store StreamWatermark → HeldHello → Hello
read_hello s m = record {
  node_id = m.node_id;
  protocol = m.protocol;
  subscriptions = contents s m.subscriptions;
  cluster_id = m.cluster_id;
  expected_hub_generation = m.expected_hub_generation;
}

unfoldable pub clone_hello : Store StreamWatermark → HeldHello → Store StreamWatermark × HeldHello
clone_hello s m =
    let subscriptions = append_nil s m.subscriptions in
    (subscriptions.0, record m { subscriptions = subscriptions.1 })

pub record HeldSubscribe : Type 0 where
  pub hub_generation : ℕ
  pub stream_ids : Slice

unfoldable pub read_subscribe : Store ℕ → HeldSubscribe → Subscribe
read_subscribe s m = record {
  hub_generation = m.hub_generation;
  stream_ids = contents s m.stream_ids;
}

unfoldable pub clone_subscribe : Store ℕ → HeldSubscribe → Store ℕ × HeldSubscribe
clone_subscribe s m =
    let stream_ids = append_nil s m.stream_ids in
    (stream_ids.0, record m { stream_ids = stream_ids.1 })

pub record HeldEvent : Type 0 where
  pub stream_sequence : ℕ
  pub key : Slice
  pub version : VersionTag
  pub kind : RecordKind
  pub mutation_id : MutationId

unfoldable pub read_event : Store ℕ → HeldEvent → InvalidationEvent
read_event s e = record {
  stream_sequence = e.stream_sequence;
  key = contents s e.key;
  version = e.version;
  kind = e.kind;
  mutation_id = e.mutation_id;
}

-- The arrays of bytes, and those of events, whose keys are slices of the former.
pub record Memory : Type 0 where
  pub bytes : Store ℕ
  pub events : Store HeldEvent

pub record HeldBatch : Type 0 where
  pub stream_id : ℕ
  pub hub_generation : ℕ
  pub events : Slice

unfoldable pub read_batch : Memory → HeldBatch → InvalidationBatch
read_batch m b = record {
  stream_id = b.stream_id;
  hub_generation = b.hub_generation;
  events = map (read_event m.bytes) (contents m.events b.events);
}

-- `m.Events[i].Key = wire.CopyBytes(m.Events[i].Key)`, where the event read at `i` is given.
unfoldable pub own_key : (i address : ℕ) → Memory → Option HeldEvent → Memory
unfolding copy_bytes_in
own_key i address m none = m
own_key i address m (some e) =
    let key = copy_bytes_in m.bytes e.key in
    let events = set (array m.events address) i (record e { key = key.1 }) in
    record { bytes = key.0; events = set m.events address events }

-- The loop of `InvalidationBatch.Clone` from index `i` on, over the array at the address.
unfoldable pub clone_keys : (count i address : ℕ) → Memory → Memory
unfolding own_key
clone_keys zero i address m = m
clone_keys (suc count) i address m =
    clone_keys count (suc i) address (own_key i address m (get_elem? (array m.events address) i))

-- `for i := range m.Events`, over a slice that begins with its array.
unfoldable pub clone_all_keys : Slice → Memory → Memory
unfolding clone_keys
clone_all_keys nil m = m
clone_all_keys (view address offset count) m = clone_keys count 0 address m

unfoldable pub clone_batch : Memory → HeldBatch → Memory × HeldBatch
unfolding clone_all_keys
clone_batch m b =
    let events = append_nil m.events b.events in
    (
      clone_all_keys events.1 (record { bytes = m.bytes; events = events.0 }),
      record b { events = events.1 },
    )
