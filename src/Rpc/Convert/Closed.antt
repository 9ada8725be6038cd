-- ===== src/Rpc/Convert/Closed.antt =====
-- The conversions of internal/rpc/convert.go fail closed.
use gossipcache.Common.{none, some, arith}
use gossipcache.Errors.Closed.{FailsClosed, conclude-FailsClosed}
use gossipcache.Wire.Protocol.{validate_protocol_range}
use gossipcache.Rpc.Handshake.{
  validate_handshake_request, validate_handshake, validate_hub_status_request, validate_hub_status,
}
use gossipcache.Rpc.Read.{validate_get, validate_get_response}
use gossipcache.Rpc.Mutation.{validate_mutation_request, validate_mutation_response}
use gossipcache.Rpc.Convert.FromProto.{
  zero_handshake_request, zero_handshake, zero_hub_status, zero_get_response, zero_mutation_request,
  zero_mutation_response, from_proto_handshake_request, from_proto_handshake,
  from_proto_hub_status_request, from_proto_hub_status, from_proto_get_request,
  from_proto_get_response, from_proto_mutation_request, from_proto_mutation_response,
}

from_proto_handshake_request-FailsClosed :
    FailsClosed validate_handshake_request from_proto_handshake_request
unfolding from_proto_handshake_request validate_handshake_request validate_protocol_range
from_proto_handshake_request-FailsClosed none = ground arith
from_proto_handshake_request-FailsClosed (some p) =
    search (conclude-FailsClosed zero_handshake_request validate_handshake_request (ground arith))

from_proto_handshake-FailsClosed : FailsClosed validate_handshake from_proto_handshake
unfolding from_proto_handshake validate_handshake
from_proto_handshake-FailsClosed none = ground arith
from_proto_handshake-FailsClosed (some p) =
    search (conclude-FailsClosed zero_handshake validate_handshake (ground arith))

from_proto_hub_status_request-FailsClosed :
    FailsClosed validate_hub_status_request from_proto_hub_status_request
unfolding from_proto_hub_status_request validate_hub_status_request
from_proto_hub_status_request-FailsClosed none = ground arith
from_proto_hub_status_request-FailsClosed (some p) = ground arith

from_proto_hub_status-FailsClosed : FailsClosed validate_hub_status from_proto_hub_status
unfolding from_proto_hub_status validate_hub_status
from_proto_hub_status-FailsClosed none = ground arith
from_proto_hub_status-FailsClosed (some p) =
    search (conclude-FailsClosed zero_hub_status validate_hub_status (ground arith))

from_proto_get_request-FailsClosed : FailsClosed validate_get from_proto_get_request
unfolding from_proto_get_request validate_get
from_proto_get_request-FailsClosed none = ground arith
from_proto_get_request-FailsClosed (some p) = ground arith

from_proto_get_response-FailsClosed : FailsClosed validate_get_response from_proto_get_response
unfolding from_proto_get_response validate_get_response
from_proto_get_response-FailsClosed none = ground arith
from_proto_get_response-FailsClosed (some p) =
    search (conclude-FailsClosed zero_get_response validate_get_response (ground arith))

from_proto_mutation_request-FailsClosed :
    FailsClosed validate_mutation_request from_proto_mutation_request
unfolding from_proto_mutation_request validate_mutation_request
from_proto_mutation_request-FailsClosed none = ground arith
from_proto_mutation_request-FailsClosed (some p) =
    search (conclude-FailsClosed zero_mutation_request validate_mutation_request (ground arith))

from_proto_mutation_response-FailsClosed :
    FailsClosed validate_mutation_response from_proto_mutation_response
unfolding from_proto_mutation_response validate_mutation_response
from_proto_mutation_response-FailsClosed none = ground arith
from_proto_mutation_response-FailsClosed (some p) =
    search (conclude-FailsClosed zero_mutation_response validate_mutation_response (ground arith))

-- Each of the eight conversions from protobuf of the data plane answers an error exactly when the
-- value beside it is one that the message's `Validate` refuses: no caller that validates is misled
-- by the value of a failed conversion.
pub from_proto-FailsClosed :
    FailsClosed validate_handshake_request from_proto_handshake_request
    × FailsClosed validate_handshake from_proto_handshake
    × FailsClosed validate_hub_status_request from_proto_hub_status_request
    × FailsClosed validate_hub_status from_proto_hub_status
    × FailsClosed validate_get from_proto_get_request
    × FailsClosed validate_get_response from_proto_get_response
    × FailsClosed validate_mutation_request from_proto_mutation_request
    × FailsClosed validate_mutation_response from_proto_mutation_response
from_proto-FailsClosed = (
  from_proto_handshake_request-FailsClosed, from_proto_handshake-FailsClosed,
  from_proto_hub_status_request-FailsClosed, from_proto_hub_status-FailsClosed,
  from_proto_get_request-FailsClosed, from_proto_get_response-FailsClosed,
  from_proto_mutation_request-FailsClosed, from_proto_mutation_response-FailsClosed,
)
