-- ===== src/Control/Delivery.antt =====
-- The small messages of internal/control/types.go. Sequences are uint64.
pub mod Windows
use gossipcache.Common.{ℕ, ◌-◌, ltb, leb, ◌==◌, ◌!=◌, ◌&&◌, ◌||◌, not, none}
use gossipcache.Errors.{Check, of_control, fail_if, ◌>>◌, ControlSentinel}
use gossipcache.Errors.{invalid_sequence, invalid_sequence_range, invalid_control_status}
use gossipcache.Errors.{control_detail_too_large}
use gossipcache.Wire.Status.{
  Status, status_err_rate_limited, status_err_bad_generation, status_err_invalid_argument,
  status_err_internal,
}
use Prim.Native.String.{String, len}

pub record StreamAcknowledgement : Type 0 where
  pub stream_id : ℕ
  pub applied_through : ℕ

unfoldable pub validate_acknowledgement : StreamAcknowledgement → Check
validate_acknowledgement m = fail_if (m.applied_through == 0) (of_control invalid_sequence)

pub record StreamCheckpoint : Type 0 where
  pub stream_id : ℕ
  pub hub_generation : ℕ
  pub stream_head : ℕ

unfoldable pub validate_checkpoint : StreamCheckpoint → Check
validate_checkpoint m =
    fail_if (m.hub_generation == 0) (of_control ControlSentinel.invalid_hub_generation)

pub record ReplayRequest : Type 0 where
  pub stream_id : ℕ
  pub from_sequence : ℕ
  pub to_sequence : ℕ

unfoldable pub validate_replay_request : ReplayRequest → Check
validate_replay_request m =
    fail_if (m.from_sequence == 0 || ltb m.to_sequence m.from_sequence)
      (of_control invalid_sequence_range)

pub record ReplayUnavailable : Type 0 where
  pub stream_id : ℕ
  pub hub_generation : ℕ
  pub requested_from : ℕ
  pub oldest_available : ℕ
  pub stream_head : ℕ

-- The last subtraction is made only where it does not wrap.
unfoldable pub validate_replay_unavailable : ReplayUnavailable → Check
validate_replay_unavailable m = do
  fail_if (m.hub_generation == 0) (of_control ControlSentinel.invalid_hub_generation)
  fail_if (m.requested_from == 0 || m.oldest_available == 0) (of_control invalid_sequence_range)
  fail_if (leb m.oldest_available m.requested_from) (of_control invalid_sequence_range)
  fail_if (ltb m.stream_head m.oldest_available && m.oldest_available - m.stream_head != 1)
      (of_control invalid_sequence_range)
  none

pub record InvalidateConfirm : Type 0 where
  pub stream_id : ℕ
  pub stream_sequence : ℕ
  pub node_id : ℕ

unfoldable pub validate_confirm : InvalidateConfirm → Check
validate_confirm m = do
  fail_if (m.stream_sequence == 0) (of_control invalid_sequence)
  fail_if (m.node_id == 0) (of_control ControlSentinel.invalid_node_id)
  none

abbrev pub max_control_error_detail : ℕ
max_control_error_detail = 256

pub record ControlError : Type 0 where
  pub status : Status
  pub detail : String

-- `len` counts bytes, as Go does.
unfoldable pub validate_control_error : ControlError → Check
validate_control_error m = do
  fail_if
      (not (
        m.status == status_err_rate_limited
        || m.status == status_err_bad_generation
        || m.status == status_err_invalid_argument
        || m.status == status_err_internal))
      (of_control invalid_control_status)
  fail_if (ltb max_control_error_detail (len m.detail)) (of_control control_detail_too_large)
  none
