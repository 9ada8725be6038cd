-- ===== src/Control/Convert/Closed.antt =====
-- The conversions of internal/control/convert.go fail closed.
use gossipcache.Common.{none, some, arith}
use gossipcache.Errors.Closed.{FailsClosed, conclude-FailsClosed}
use gossipcache.Control.Session.{validate_hello, validate_subscribe}
use gossipcache.Control.Batch.{validate_batch}
use gossipcache.Control.Delivery.{
  validate_acknowledgement, validate_checkpoint, validate_replay_request,
  validate_replay_unavailable, validate_confirm, validate_control_error,
}
use gossipcache.Control.Convert.FromProto.{
  zero_hello, zero_batch, zero_control_error, from_proto_hello, from_proto_subscribe,
  from_proto_invalidation_batch, from_proto_stream_acknowledgement, from_proto_stream_checkpoint,
  from_proto_replay_request, from_proto_replay_unavailable, from_proto_invalidate_confirm,
  from_proto_control_error,
}

from_proto_hello-FailsClosed : FailsClosed validate_hello from_proto_hello
unfolding from_proto_hello validate_hello
from_proto_hello-FailsClosed none = ground arith
from_proto_hello-FailsClosed (some p) =
    search (conclude-FailsClosed zero_hello validate_hello (ground arith))

from_proto_subscribe-FailsClosed : FailsClosed validate_subscribe from_proto_subscribe
unfolding from_proto_subscribe validate_subscribe
from_proto_subscribe-FailsClosed none = ground arith
from_proto_subscribe-FailsClosed (some p) = ground arith

from_proto_invalidation_batch-FailsClosed : FailsClosed validate_batch from_proto_invalidation_batch
unfolding from_proto_invalidation_batch validate_batch
from_proto_invalidation_batch-FailsClosed none = ground arith
from_proto_invalidation_batch-FailsClosed (some p) =
    search (conclude-FailsClosed zero_batch validate_batch (ground arith))

from_proto_stream_acknowledgement-FailsClosed :
    FailsClosed validate_acknowledgement from_proto_stream_acknowledgement
unfolding from_proto_stream_acknowledgement validate_acknowledgement
from_proto_stream_acknowledgement-FailsClosed none = ground arith
from_proto_stream_acknowledgement-FailsClosed (some p) = ground arith

from_proto_stream_checkpoint-FailsClosed :
    FailsClosed validate_checkpoint from_proto_stream_checkpoint
unfolding from_proto_stream_checkpoint validate_checkpoint
from_proto_stream_checkpoint-FailsClosed none = ground arith
from_proto_stream_checkpoint-FailsClosed (some p) = ground arith

from_proto_replay_request-FailsClosed :
    FailsClosed validate_replay_request from_proto_replay_request
unfolding from_proto_replay_request validate_replay_request
from_proto_replay_request-FailsClosed none = ground arith
from_proto_replay_request-FailsClosed (some p) = ground arith

from_proto_replay_unavailable-FailsClosed :
    FailsClosed validate_replay_unavailable from_proto_replay_unavailable
unfolding from_proto_replay_unavailable validate_replay_unavailable
from_proto_replay_unavailable-FailsClosed none = ground arith
from_proto_replay_unavailable-FailsClosed (some p) = ground arith

from_proto_invalidate_confirm-FailsClosed :
    FailsClosed validate_confirm from_proto_invalidate_confirm
unfolding from_proto_invalidate_confirm validate_confirm
from_proto_invalidate_confirm-FailsClosed none = ground arith
from_proto_invalidate_confirm-FailsClosed (some p) = ground arith

from_proto_control_error-FailsClosed : FailsClosed validate_control_error from_proto_control_error
unfolding from_proto_control_error validate_control_error
from_proto_control_error-FailsClosed none = ground arith
from_proto_control_error-FailsClosed (some p) =
    search (conclude-FailsClosed zero_control_error validate_control_error (ground arith))

-- Each of the nine conversions from protobuf of the control stream answers an error exactly when
-- the value beside it is one that the message's `Validate` refuses: no caller that validates is
-- misled by the value of a failed conversion.
pub stream_messages-FailsClosed :
    FailsClosed validate_hello from_proto_hello
    × FailsClosed validate_subscribe from_proto_subscribe
    × FailsClosed validate_batch from_proto_invalidation_batch
    × FailsClosed validate_acknowledgement from_proto_stream_acknowledgement
    × FailsClosed validate_checkpoint from_proto_stream_checkpoint
    × FailsClosed validate_replay_request from_proto_replay_request
    × FailsClosed validate_replay_unavailable from_proto_replay_unavailable
    × FailsClosed validate_confirm from_proto_invalidate_confirm
    × FailsClosed validate_control_error from_proto_control_error
stream_messages-FailsClosed = (
  from_proto_hello-FailsClosed, from_proto_subscribe-FailsClosed,
  from_proto_invalidation_batch-FailsClosed, from_proto_stream_acknowledgement-FailsClosed,
  from_proto_stream_checkpoint-FailsClosed, from_proto_replay_request-FailsClosed,
  from_proto_replay_unavailable-FailsClosed, from_proto_invalidate_confirm-FailsClosed,
  from_proto_control_error-FailsClosed,
)
