-- ===== src/Pb/Control.antt =====
-- control.pb.go
use gossipcache.Common.{ℕ, List, Option}
use gossipcache.Pb.Common.{Status, RecordKind, VersionTag, MutationId}
use Prim.Native.String.{String}

pub record ControlError : Type 0 where
  pub status : Status
  pub detail : String

pub record StreamWatermark : Type 0 where
  pub stream_id : ℕ
  pub applied_through : ℕ
  pub hub_generation : ℕ

pub record Hello : Type 0 where
  pub node_id : ℕ
  pub protocol_version : ℕ
  pub min_supported_version : ℕ
  pub subscriptions : List (Option StreamWatermark)
  pub cluster_id : String
  pub expected_hub_generation : ℕ

pub record Subscribe : Type 0 where
  pub hub_generation : ℕ
  pub stream_ids : List ℕ

pub record InvalidationEvent : Type 0 where
  pub stream_sequence : ℕ
  pub key : List ℕ
  pub version : Option VersionTag
  pub kind : RecordKind
  pub mutation_id : Option MutationId

pub record InvalidationBatch : Type 0 where
  pub stream_id : ℕ
  pub hub_generation : ℕ
  pub events : List (Option InvalidationEvent)

pub record StreamAcknowledgement : Type 0 where
  pub stream_id : ℕ
  pub applied_through : ℕ

pub record StreamCheckpoint : Type 0 where
  pub stream_id : ℕ
  pub hub_generation : ℕ
  pub stream_head : ℕ

pub record ReplayRequest : Type 0 where
  pub stream_id : ℕ
  pub from_sequence : ℕ
  pub to_sequence : ℕ

pub record ReplayUnavailable : Type 0 where
  pub stream_id : ℕ
  pub hub_generation : ℕ
  pub requested_from : ℕ
  pub oldest_available : ℕ
  pub stream_head : ℕ

pub record InvalidateConfirm : Type 0 where
  pub stream_id : ℕ
  pub stream_sequence : ℕ
  pub node_id : ℕ

-- `isControlClientMessage_Body`: a variant holds a pointer, which may be nil.
pub data ClientBody : Type 0 where
  hello : Option Hello → ClientBody
  subscribe : Option Subscribe → ClientBody
  stream_acknowledgement : Option StreamAcknowledgement → ClientBody
  replay_request : Option ReplayRequest → ClientBody
  invalidate_confirm : Option InvalidateConfirm → ClientBody

-- The body of a message without one is nil.
pub record ControlClientMessage : Type 0 where
  pub body : Option ClientBody

-- `isControlServerMessage_Body`
pub data ServerBody : Type 0 where
  invalidation_batch : Option InvalidationBatch → ServerBody
  stream_checkpoint : Option StreamCheckpoint → ServerBody
  replay_unavailable : Option ReplayUnavailable → ServerBody
  control_error : Option ControlError → ServerBody

pub record ControlServerMessage : Type 0 where
  pub body : Option ServerBody
