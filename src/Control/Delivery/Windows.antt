-- ===== src/Control/Delivery/Windows.antt =====
-- The delivery messages that internal/control/types.go accepts.
use gossipcache.Common.{ℕ, ◌+◌, ◌<◌, ◌≤◌, ◌≡◌, ◌↔◌, ◌⊎◌, none, arith}
use Prim.Native.String.{len}
use gossipcache.Wire.Status.{
  status_err_rate_limited, status_err_bad_generation, status_err_invalid_argument,
  status_err_internal,
}
use gossipcache.Control.Delivery.{
  ReplayRequest, validate_replay_request, ReplayUnavailable, validate_replay_unavailable,
  ControlError, validate_control_error, max_control_error_detail,
}

-- A report passes exactly when the request began before the oldest retained event, and that event
-- is at most one behind the head: at head + 1 the window is empty.
pub validate_replay_unavailable_iff :
    (m : ReplayUnavailable)
    → (validate_replay_unavailable m ≡ none) ↔ (
        (0 < m.hub_generation)
        × (0 < m.requested_from)
        × (m.requested_from < m.oldest_available)
        × (m.oldest_available ≤ m.stream_head + 1))
unfolding validate_replay_unavailable
validate_replay_unavailable_iff m = ground arith

-- The events of a stream that a hub retains: `oldest` up to `head`, none if `oldest` is one behind
-- the head.
pub record IsWindow (oldest head : ℕ) : Type 0 where
  pub first : 0 < oldest
  pub last : oldest ≤ head + 1

-- An accepted request asks for the numbers from `from_sequence` to `to_sequence`. A report that says
-- of it that its events are unavailable is accepted exactly when it names a generation and a
-- window, and some number that was asked for is not retained since it lies before the window; such
-- a number has already been given out.
pub validate_replay_unavailable-evicted_iff :
    (r : ReplayRequest) (m : ReplayUnavailable)
    → validate_replay_request r ≡ none
    → m.requested_from ≡ r.from_sequence
    → (validate_replay_unavailable m ≡ none) ↔ (
        (0 < m.hub_generation)
        × IsWindow m.oldest_available m.stream_head
        × ((n : ℕ) × (r.from_sequence ≤ n)
            × (n ≤ r.to_sequence)
            × (n < m.oldest_available)
            × (n ≤ m.stream_head)))
unfolding validate_replay_request validate_replay_unavailable
validate_replay_unavailable-evicted_iff r m e same = (
  λ accepted. (
    ground arith,
    record { first = ground arith; last = ground arith },
    (r.from_sequence, omega arith, ground arith, ground arith, ground arith),
  ),
  λ (generation, window, (n, above, below, before, given)).
      ground (arith, window.first, window.last),
)

-- A control error passes exactly when it has one of the four statuses of the control stream and a
-- detail of at most 256 bytes.
pub validate_control_error_iff :
    (m : ControlError)
    → (validate_control_error m ≡ none) ↔ (
        ((m.status ≡ status_err_rate_limited)
          ⊎ (m.status ≡ status_err_bad_generation)
          ⊎ (m.status ≡ status_err_invalid_argument)
          ⊎ (m.status ≡ status_err_internal))
        × (len m.detail ≤ max_control_error_detail))
unfolding validate_control_error
validate_control_error_iff m = ground arith
