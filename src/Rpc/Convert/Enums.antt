-- ===== src/Rpc/Convert/Enums.antt =====
-- The enumerations and small values of internal/rpc/convert.go.
use gossipcache.Common.{
  ℕ, ◌-◌, ◌%◌, ◌^◌, ltb, ◌==◌, ◌!=◌, if◌then◌else◌, Option, none, some, List, length, replicate,
  pos, eqb_ℤ,
}
use gossipcache.Common.{[], ◌∷◌}
use gossipcache.Errors.{of_wire, of_rpc, mutation_id_length, Result, ok, err}
use gossipcache.Errors.{mutation_id_required, invalid_protocol_range, invalid_status}
use gossipcache.Errors.{invalid_enum, invalid_op}
use gossipcache.Wire.Version.{VersionTag, zero_version}
use gossipcache.Wire.MutationId.{MutationId}
use gossipcache.Wire.Status.{
  Status, status_ok, status_not_found, status_not_caught_up, status_err_durability_unavailable,
  status_err_bad_generation, status_err_rate_limited, status_err_invalid_argument,
  status_err_write_confirm_timeout, status_err_internal,
}
use gossipcache.Wire.Record.{RecordKind, record_value, record_tombstone}
use gossipcache.Wire.Options.{WriteMode, write_fast, write_sync}
use gossipcache.Wire.Options.{StorageProfile, storage_memory, storage_durable}
use gossipcache.Wire.Options.{ConfirmLevel, confirm_invalidate_applied}
use gossipcache.Rpc.Mutation.{Op, op_set, op_delete}
use gossipcache.Pb

unfoldable pub proto_version_tag : VersionTag → Pb.VersionTag
proto_version_tag v = record { partition_id = v.partition_id; sequence = v.sequence }

unfoldable pub proto_mutation_id : MutationId → Pb.MutationId
proto_mutation_id id = record { id = id }

-- Each conversion widens an unsigned number of 8 or 16 bits to an int32.
unfoldable pub proto_status : Status → Pb.Status
proto_status s = pos s

unfoldable pub proto_record_kind : RecordKind → Pb.RecordKind
proto_record_kind k = pos k

unfoldable pub proto_write_mode : WriteMode → Pb.WriteMode
proto_write_mode m = pos m

unfoldable pub proto_storage_profile : StorageProfile → Pb.StorageProfile
proto_storage_profile p = pos p

unfoldable pub proto_confirm_level : ConfirmLevel → Pb.ConfirmLevel
proto_confirm_level c = pos c

unfoldable pub proto_mutation_op : Op → Pb.MutationOp
proto_mutation_op op =
    if op == op_set
    then Pb.mutation_op_set
    else if op == op_delete
    then Pb.mutation_op_delete
    else Pb.mutation_op_unspecified

unfoldable pub from_proto_version_tag : Option Pb.VersionTag → VersionTag
from_proto_version_tag none = zero_version
from_proto_version_tag (some v) = record { partition_id = v.partition_id; sequence = v.sequence }

-- `copy(dst, src)`, as the new value of `dst`.
unfoldable pub copy : List ℕ → List ℕ → List ℕ
copy [] src = []
copy (d ∷ dst) [] = d ∷ dst
copy (d ∷ dst) (s ∷ src) = s ∷ copy dst src

unfoldable pub from_proto_mutation_id : Option Pb.MutationId → Result MutationId
from_proto_mutation_id none = err (of_wire mutation_id_required)
from_proto_mutation_id (some m) =
    if length m.id == 0
    then err (of_wire mutation_id_required)
    else if length m.id != 16
    then err (mutation_id_length (length m.id))
    else ok (copy (replicate 16 0) m.id)

unfoldable pub from_proto_status : Pb.Status → Result Status
from_proto_status s =
    if eqb_ℤ s Pb.status_ok
    then ok status_ok
    else if eqb_ℤ s Pb.status_not_found
    then ok status_not_found
    else if eqb_ℤ s Pb.status_not_caught_up
    then ok status_not_caught_up
    else if eqb_ℤ s Pb.status_err_durability_unavailable
    then ok status_err_durability_unavailable
    else if eqb_ℤ s Pb.status_err_bad_generation
    then ok status_err_bad_generation
    else if eqb_ℤ s Pb.status_err_rate_limited
    then ok status_err_rate_limited
    else if eqb_ℤ s Pb.status_err_invalid_argument
    then ok status_err_invalid_argument
    else if eqb_ℤ s Pb.status_err_write_confirm_timeout
    then ok status_err_write_confirm_timeout
    else if eqb_ℤ s Pb.status_err_internal
    then ok status_err_internal
    else err (of_rpc invalid_status)

unfoldable pub from_proto_record_kind : Pb.RecordKind → Result RecordKind
from_proto_record_kind k =
    if eqb_ℤ k Pb.record_kind_value
    then ok record_value
    else if eqb_ℤ k Pb.record_kind_tombstone
    then ok record_tombstone
    else err (of_rpc invalid_enum)

unfoldable pub from_proto_write_mode : Pb.WriteMode → Result WriteMode
from_proto_write_mode m =
    if eqb_ℤ m Pb.write_mode_fast
    then ok write_fast
    else if eqb_ℤ m Pb.write_mode_sync
    then ok write_sync
    else err (of_rpc invalid_enum)

unfoldable pub from_proto_storage_profile : Pb.StorageProfile → Result StorageProfile
from_proto_storage_profile p =
    if eqb_ℤ p Pb.storage_profile_memory
    then ok storage_memory
    else if eqb_ℤ p Pb.storage_profile_durable
    then ok storage_durable
    else err (of_rpc invalid_enum)

unfoldable pub from_proto_confirm_level : Pb.ConfirmLevel → Result ConfirmLevel
from_proto_confirm_level c =
    if eqb_ℤ c Pb.confirm_level_invalidate_applied
    then ok confirm_invalidate_applied
    else err (of_rpc invalid_enum)

unfoldable pub from_proto_mutation_op : Pb.MutationOp → Result Op
from_proto_mutation_op op =
    if eqb_ℤ op Pb.mutation_op_set
    then ok op_set
    else if eqb_ℤ op Pb.mutation_op_delete
    then ok op_delete
    else err (of_rpc invalid_op)

-- `math.MaxUint16`
abbrev pub max_uint16 : ℕ
max_uint16 = 2 ^ 16 - 1

unfoldable pub protocol_version_from_uint32 : ℕ → Result ℕ
protocol_version_from_uint32 v =
    if ltb max_uint16 v then err (of_wire invalid_protocol_range) else ok (v % 2 ^ 16)
