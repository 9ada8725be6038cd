-- ===== src/Control/Convert/Values.antt =====
-- The small values that internal/control/convert.go reads, with sentinels of the package's own.
use gossipcache.Common.{
  ℕ, ◌^◌, ◌%◌, ltb, ◌==◌, ◌!=◌, if◌then◌else◌, Option, none, some, length, eqb_ℤ, replicate,
}
use gossipcache.Errors.{of_wire, of_control, mutation_id_length, Result, ok, err}
use gossipcache.Errors.{ControlSentinel, mutation_id_required, invalid_protocol_range}
use gossipcache.Errors.{invalid_control_status}
use gossipcache.Wire.Version.{VersionTag, zero_version}
use gossipcache.Wire.MutationId.{MutationId}
use gossipcache.Wire.Status.{
  Status, status_ok, status_not_found, status_not_caught_up, status_err_durability_unavailable,
  status_err_bad_generation, status_err_rate_limited, status_err_invalid_argument,
  status_err_write_confirm_timeout, status_err_internal,
}
use gossipcache.Wire.Record.{RecordKind, record_value, record_tombstone}
use gossipcache.Rpc.Convert.Enums.{copy, max_uint16}
use gossipcache.Pb

unfoldable pub mutation_id_from_proto : Option Pb.MutationId → Result MutationId
mutation_id_from_proto none = err (of_wire mutation_id_required)
mutation_id_from_proto (some m) =
    if length m.id == 0
    then err (of_wire mutation_id_required)
    else if length m.id != 16
    then err (mutation_id_length (length m.id))
    else ok (copy (replicate 16 0) m.id)

unfoldable pub record_kind_from_proto : Pb.RecordKind → Result RecordKind
record_kind_from_proto k =
    if eqb_ℤ k Pb.record_kind_value
    then ok record_value
    else if eqb_ℤ k Pb.record_kind_tombstone
    then ok record_tombstone
    else err (of_control ControlSentinel.invalid_record_kind)

unfoldable pub status_from_proto : Pb.Status → Result Status
status_from_proto s =
    if eqb_ℤ s Pb.status_ok
    then ok status_ok
    else if eqb_ℤ s Pb.status_not_found
    then ok status_not_found
    else if eqb_ℤ s Pb.status_not_caught_up
    then ok status_not_caught_up
    else if eqb_ℤ s Pb.status_err_durability_unavailable
    then ok status_err_durability_unavailable
    else if eqb_ℤ s Pb.status_err_bad_generation
    then ok status_err_bad_generation
    else if eqb_ℤ s Pb.status_err_rate_limited
    then ok status_err_rate_limited
    else if eqb_ℤ s Pb.status_err_invalid_argument
    then ok status_err_invalid_argument
    else if eqb_ℤ s Pb.status_err_write_confirm_timeout
    then ok status_err_write_confirm_timeout
    else if eqb_ℤ s Pb.status_err_internal
    then ok status_err_internal
    else err (of_control invalid_control_status)

unfoldable pub protocol_version_from_uint32 : ℕ → Result ℕ
protocol_version_from_uint32 v =
    if ltb max_uint16 v then err (of_wire invalid_protocol_range) else ok (v % 2 ^ 16)

unfoldable pub version_from_proto : Option Pb.VersionTag → VersionTag
version_from_proto none = zero_version
version_from_proto (some v) = record { partition_id = v.partition_id; sequence = v.sequence }
