-- ===== src/Pb/Data.antt =====
-- data.pb.go
use gossipcache.Common.{ℕ, Bool, ℤ, pos, List, Option}
use gossipcache.Pb.Common.{
  Status, RecordKind, WriteMode, StorageProfile, ConfirmLevel, VersionTag, MutationId,
}
use Prim.Native.String.{String}

abbrev pub MutationOp : Type 0
MutationOp = ℤ

abbrev pub mutation_op_unspecified : MutationOp
mutation_op_unspecified = pos 0

abbrev pub mutation_op_set : MutationOp
mutation_op_set = pos 1

abbrev pub mutation_op_delete : MutationOp
mutation_op_delete = pos 2

pub record HandshakeRequest : Type 0 where
  pub protocol_version : ℕ
  pub min_supported_version : ℕ
  pub cluster_id : String
  pub expected_hub_generation : ℕ

pub record HandshakeResponse : Type 0 where
  pub protocol_version : ℕ
  pub hub_generation : ℕ
  pub partition_count : ℕ
  pub storage_profile : StorageProfile
  pub durable_healthy : Bool
  pub cluster_id : String

pub record HubStatusRequest : Type 0 where
  pub hub_generation : ℕ

pub record HubStatusResponse : Type 0 where
  pub hub_generation : ℕ
  pub storage_profile : StorageProfile
  pub durable_healthy : Bool
  pub status : Status

pub record GetRequest : Type 0 where
  pub key : List ℕ
  pub min_version : Option VersionTag
  pub hub_generation : ℕ

pub record GetResponse : Type 0 where
  pub status : Status
  pub hub_generation : ℕ
  pub version : Option VersionTag
  pub value : List ℕ
  pub ttl_millis : ℕ
  pub kind : RecordKind

pub record MutationRequest : Type 0 where
  pub op : MutationOp
  pub key : List ℕ
  pub value : List ℕ
  pub ttl_millis : ℕ
  pub mutation_id : Option MutationId
  pub mode : WriteMode
  pub w : ℕ
  pub confirm : ConfirmLevel
  pub timeout_millis : ℕ
  pub hub_generation : ℕ

pub record MutationResponse : Type 0 where
  pub status : Status
  pub hub_generation : ℕ
  pub version : Option VersionTag
