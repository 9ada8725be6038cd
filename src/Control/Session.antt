-- ===== src/Control/Session.antt =====
-- `Hello` and `Subscribe` of internal/control/types.go. The set `seen` of a loop is the list of the
-- stream ids put into it.
pub mod Order
pub mod Multisets
pub mod Subscriptions
use gossipcache.Common.{
  ℕ, ◌*◌, ◌^◌, ℤ, pos, Bool, true, false, ltb, ◌==◌, ◌||◌, none, List, [], ◌∷◌, length, is_blank,
}
use gossipcache.Errors.{Check, of_control, fail_if, ◌>>◌, ControlSentinel}
use gossipcache.Errors.{too_many_subscriptions, duplicate_subscription, empty_subscriptions}
use gossipcache.Wire.Protocol.{ProtocolRange, validate_protocol_range}
use Prim.Native.String.{String}

abbrev pub max_subscriptions : ℕ
max_subscriptions = 4096

abbrev pub default_subscriber_queue : ℕ
default_subscriber_queue = 4096

-- Durations, in nanoseconds.
abbrev pub default_checkpoint_interval : ℤ
default_checkpoint_interval = pos (10 ^ 9)

abbrev pub default_stream_freshness_timeout : ℤ
default_stream_freshness_timeout = pos (3 * 10 ^ 9)

pub record StreamWatermark : Type 0 where
  pub stream_id : ℕ
  pub applied_through : ℕ
  pub hub_generation : ℕ

pub record Hello : Type 0 where
  pub node_id : ℕ
  pub protocol : ProtocolRange
  pub subscriptions : List StreamWatermark
  pub cluster_id : String
  pub expected_hub_generation : ℕ

-- `_, ok := seen[id]`
unfoldable pub contains : ℕ → List ℕ → Bool
contains id [] = false
contains id (x ∷ seen) = x == id || contains id seen

-- The loop of `Hello.Validate`.
unfoldable pub check_watermarks : List ℕ → List StreamWatermark → Check
check_watermarks seen [] = none
check_watermarks seen (s ∷ subscriptions) = do
  fail_if (s.hub_generation == 0) (of_control ControlSentinel.invalid_hub_generation)
  fail_if (contains s.stream_id seen) (of_control duplicate_subscription)
  check_watermarks (s.stream_id ∷ seen) subscriptions

unfoldable pub validate_hello : Hello → Check
validate_hello m = do
  fail_if (m.node_id == 0) (of_control ControlSentinel.invalid_node_id)
  validate_protocol_range m.protocol
  fail_if (is_blank m.cluster_id) (of_control ControlSentinel.invalid_cluster_id)
  fail_if (ltb max_subscriptions (length m.subscriptions)) (of_control too_many_subscriptions)
  check_watermarks [] m.subscriptions

pub record Subscribe : Type 0 where
  pub hub_generation : ℕ
  pub stream_ids : List ℕ

-- The loop of `Subscribe.Validate`.
unfoldable pub check_stream_ids : List ℕ → List ℕ → Check
check_stream_ids seen [] = none
check_stream_ids seen (id ∷ stream_ids) = do
  fail_if (contains id seen) (of_control duplicate_subscription)
  check_stream_ids (id ∷ seen) stream_ids

unfoldable pub validate_subscribe : Subscribe → Check
validate_subscribe m = do
  fail_if (m.hub_generation == 0) (of_control ControlSentinel.invalid_hub_generation)
  fail_if (length m.stream_ids == 0) (of_control empty_subscriptions)
  fail_if (ltb max_subscriptions (length m.stream_ids)) (of_control too_many_subscriptions)
  check_stream_ids [] m.stream_ids
