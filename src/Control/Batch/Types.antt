-- ===== src/Control/Batch/Types.antt =====
-- The ranges of the Go types of an event and of a batch, of internal/control/types.go.
use gossipcache.Common.{◌≡◌, length, All, IsUint, IsBytes}
use gossipcache.Control.Batch.{InvalidationEvent, InvalidationBatch}

pub record IsGoEvent (e : InvalidationEvent) : Type 0 where
  pub number : IsUint 64 e.stream_sequence
  pub key : IsBytes e.key
  pub partition : IsUint 32 e.version.partition_id
  pub sequence : IsUint 64 e.version.sequence
  pub kind : IsUint 8 e.kind
  pub id : IsBytes e.mutation_id
  pub id_length : length e.mutation_id ≡ 16

pub record IsGoBatch (m : InvalidationBatch) : Type 0 where
  pub stream : IsUint 32 m.stream_id
  pub generation : IsUint 64 m.hub_generation
  pub events : All IsGoEvent m.events
