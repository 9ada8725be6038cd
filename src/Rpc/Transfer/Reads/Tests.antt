-- ===== src/Rpc/Transfer/Reads/Tests.antt =====
-- A read on its way to a hub, and its answer back, whose arrays and variables are written behind
-- each conversion.
use gossipcache.Common.{◌≡◌, refl, none, some, codes, [], ◌∷◌, arith}
use gossipcache.Ownership.{view, write, done, contents, append_nil, append_elements}
use gossipcache.Wire.Status.{status_ok}
use gossipcache.Wire.Record.{record_value, validate_get_record}
use gossipcache.Wire.Clones.{copy_bytes_in, pointee, cell}
use gossipcache.Rpc.Read.{validate_key, validate_get, validate_get_response}
use gossipcache.Rpc.Status.{status_carries_get_record}
use gossipcache.Rpc.Clones.{HeldGetRequest, read_get_request, HeldGetResponse, read_get_response}
use gossipcache.Rpc.Convert.Enums.{
  proto_version_tag, from_proto_version_tag, proto_status, from_proto_status, proto_record_kind,
  from_proto_record_kind,
}
use gossipcache.Rpc.Transfer.Reads.{
  ReadMemory, proto_get_request_in, from_proto_get_request_in, proto_get_response_in,
  conclude_response_in, from_proto_get_response_in,
}
use gossipcache.Rpc.Transfer.Reads.Request.{from_proto-proto_get_request_in}
use gossipcache.Rpc.Transfer.Reads.Answer.{from_proto-proto_get_response_in}

abbrev node : ReadMemory
node = record {
  own = record {
    bytes = codes "key" ∷ [];
    tags = (record { partition_id = 3; sequence = 7 } ∷ []) ∷ [];
  };
  messages = [];
}

abbrev read : HeldGetRequest
read = record { key = view 0 0 3; min_version = view 0 0 1; hub_generation = 4 }

read-valid : validate_get (read_get_request node.own read) ≡ none
unfolding validate_get validate_key read_get_request contents pointee
read-valid = refl

-- The node writes to its key and its version,
abbrev sent : ReadMemory
sent = record {
  own = record {
    bytes = codes "Key" ∷ codes "key" ∷ [];
    tags = (record { partition_id = 3; sequence = 9 } ∷ []) ∷ [];
  };
  messages = (record { partition_id = 3; sequence = 7 } ∷ []) ∷ [];
}

-- and the transport to the key and the version of the message.
abbrev received : ReadMemory
received = record {
  own = record {
    bytes = codes "Key" ∷ codes "kez" ∷ codes "key" ∷ [];
    tags =
        (record { partition_id = 3; sequence = 9 } ∷ [])
        ∷ (record { partition_id = 3; sequence = 7 } ∷ [])
        ∷ [];
  };
  messages = (record { partition_id = 0; sequence = 0 } ∷ []) ∷ [];
}

from_proto-proto_get_request_in_example :
    (read_get_request received.own
        (from_proto_get_request_in sent (some (proto_get_request_in node read).1)).1
      ≡ read_get_request node.own read)
    × ((from_proto_get_request_in sent (some (proto_get_request_in node read).1)).2 ≡ none)
unfolding proto_get_request_in from_proto_get_request_in copy_bytes_in pointee cell append_nil
    append_elements contents proto_version_tag from_proto_version_tag
from_proto-proto_get_request_in_example =
    from_proto-proto_get_request_in node read sent received read-valid
      (record {
        bytes = write 0 0 75 (omega arith) done;
        tags = write 0 0 (record { partition_id = 3; sequence = 9 }) (omega arith) done;
        messages = done;
      })
      (record {
        bytes = write 1 2 122 (omega arith) done;
        tags = done;
        messages = write 0 0 (record { partition_id = 0; sequence = 0 }) (omega arith) done;
      })

abbrev hub : ReadMemory
hub = record { own = record { bytes = codes "value" ∷ []; tags = [] }; messages = [] }

abbrev answer : HeldGetResponse
answer = record {
  status = status_ok;
  hub_generation = 4;
  version = record { partition_id = 3; sequence = 8 };
  value = view 0 0 5;
  ttl_millis = 900;
  kind = record_value;
}

answer-valid : validate_get_response (read_get_response hub.own.bytes answer) ≡ none
unfolding validate_get_response validate_get_record status_carries_get_record read_get_response
    contents
answer-valid = refl

-- The hub stores another value in the array, and the transport reuses the message.
abbrev answered : ReadMemory
answered = record {
  own = record { bytes = codes "Value" ∷ codes "value" ∷ []; tags = [] };
  messages = (record { partition_id = 3; sequence = 8 } ∷ []) ∷ [];
}

abbrev delivered : ReadMemory
delivered = record {
  own = record { bytes = codes "Value" ∷ codes "valve" ∷ codes "value" ∷ []; tags = [] };
  messages = (record { partition_id = 0; sequence = 0 } ∷ []) ∷ [];
}

from_proto-proto_get_response_in_example :
    (read_get_response delivered.own.bytes
        (from_proto_get_response_in answered (some (proto_get_response_in hub answer).1)).1
      ≡ read_get_response hub.own.bytes answer)
    × ((from_proto_get_response_in answered (some (proto_get_response_in hub answer).1)).2 ≡ none)
unfolding proto_get_response_in from_proto_get_response_in conclude_response_in copy_bytes_in
    pointee cell append_nil append_elements contents proto_version_tag from_proto_version_tag
    proto_status from_proto_status proto_record_kind from_proto_record_kind
from_proto-proto_get_response_in_example =
    from_proto-proto_get_response_in hub answer answered delivered answer-valid
      (record { bytes = write 0 0 86 (omega arith) done; tags = done; messages = done })
      (record {
        bytes = write 1 3 118 (omega arith) done;
        tags = done;
        messages = write 0 0 (record { partition_id = 0; sequence = 0 }) (omega arith) done;
      })
