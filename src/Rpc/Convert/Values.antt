-- ===== src/Rpc/Convert/Values.antt =====
-- The enumerations and small values of internal/rpc/convert.go, there and back.
use gossipcache.Common.{
  ℕ, ◌<◌, ◌^◌, ◌≡◌, refl, ap, ◌↔◌, true, Option, none, some, List, [], ◌∷◌, length, replicate,
  arith, pos,
}
use gossipcache.Errors.{ok}
use gossipcache.Wire.Version.{VersionTag}
use gossipcache.Wire.MutationId.{MutationId}
use gossipcache.Wire.Status.{Status, status_valid}
use gossipcache.Wire.Record.{RecordKind, record_kind_valid}
use gossipcache.Wire.Options.{WriteMode, write_mode_valid, StorageProfile, storage_profile_valid}
use gossipcache.Wire.Options.{ConfirmLevel, confirm_level_valid}
use gossipcache.Rpc.Mutation.{Op, op_valid}
use gossipcache.Pb
use gossipcache.Rpc.Convert.Enums.{
  proto_version_tag, proto_mutation_id, proto_status, proto_record_kind, proto_write_mode,
  proto_storage_profile, proto_confirm_level, proto_mutation_op, from_proto_version_tag,
  from_proto_mutation_id, from_proto_status, from_proto_record_kind, from_proto_write_mode,
  from_proto_storage_profile, from_proto_confirm_level, from_proto_mutation_op, copy,
  protocol_version_from_uint32,
}

-- A status comes back from protobuf exactly when it is defined and the int32 is its number: no
-- other int32, negative or large, is taken for one.
pub from_proto_status_iff :
    (p : Pb.Status) (s : Status)
    → (from_proto_status p ≡ ok s) ↔ ((status_valid s ≡ true) × (p ≡ proto_status s))
unfolding from_proto_status status_valid proto_status
from_proto_status_iff (pos n) s = ground arith
from_proto_status_iff p s = ground arith

pub from_proto_record_kind_iff :
    (p : Pb.RecordKind) (k : RecordKind)
    → (from_proto_record_kind p ≡ ok k) ↔ ((record_kind_valid k ≡ true) × (p ≡ proto_record_kind k))
unfolding from_proto_record_kind record_kind_valid proto_record_kind
from_proto_record_kind_iff p k = ground arith

pub from_proto_write_mode_iff :
    (p : Pb.WriteMode) (m : WriteMode)
    → (from_proto_write_mode p ≡ ok m) ↔ ((write_mode_valid m ≡ true) × (p ≡ proto_write_mode m))
unfolding from_proto_write_mode write_mode_valid proto_write_mode
from_proto_write_mode_iff p m = ground arith

pub from_proto_storage_profile_iff :
    (p : Pb.StorageProfile) (s : StorageProfile)
    → (from_proto_storage_profile p ≡ ok s)
      ↔ ((storage_profile_valid s ≡ true) × (p ≡ proto_storage_profile s))
unfolding from_proto_storage_profile storage_profile_valid proto_storage_profile
from_proto_storage_profile_iff p s = ground arith

pub from_proto_confirm_level_iff :
    (p : Pb.ConfirmLevel) (c : ConfirmLevel)
    → (from_proto_confirm_level p ≡ ok c)
      ↔ ((confirm_level_valid c ≡ true) × (p ≡ proto_confirm_level c))
unfolding from_proto_confirm_level confirm_level_valid proto_confirm_level
from_proto_confirm_level_iff p c = ground arith

pub from_proto_mutation_op_iff :
    (p : Pb.MutationOp) (o : Op)
    → (from_proto_mutation_op p ≡ ok o) ↔ ((op_valid o ≡ true) × (p ≡ proto_mutation_op o))
unfolding from_proto_mutation_op op_valid proto_mutation_op
from_proto_mutation_op_iff p o = ground arith

pub copy_lem : (dst src : List ℕ) → length dst ≡ length src → copy dst src ≡ src
unfolding copy
copy_lem [] [] e = refl
copy_lem [] (s ∷ src) e = absurd (omega arith)
copy_lem (d ∷ dst) [] e = absurd (omega arith)
copy_lem (d ∷ dst) (s ∷ src) e = ap (λ t. s ∷ t) (copy_lem dst src (omega arith))

-- A mutation id comes back exactly when the message holds its sixteen bytes.
pub from_proto_mutation_id_iff :
    (m : Option Pb.MutationId) (id : MutationId)
    → (from_proto_mutation_id m ≡ ok id) ↔ ((length id ≡ 16) × (m ≡ some (proto_mutation_id id)))
unfolding from_proto_mutation_id proto_mutation_id
from_proto_mutation_id_iff none id = ground arith
from_proto_mutation_id_iff (some m) id = ground (arith, copy_lem (replicate 16 0) m.id)

pub from_proto_version_tag-proto_version_tag :
    (v : VersionTag) → from_proto_version_tag (some (proto_version_tag v)) ≡ v
unfolding from_proto_version_tag proto_version_tag
from_proto_version_tag-proto_version_tag v = refl

-- A version comes back exactly when it fits a uint16.
pub protocol_version_from_uint32_iff :
    (p v : ℕ) → (protocol_version_from_uint32 p ≡ ok v) ↔ ((v < 2 ^ 16) × (p ≡ v))
unfolding protocol_version_from_uint32
protocol_version_from_uint32_iff p v = ground arith
