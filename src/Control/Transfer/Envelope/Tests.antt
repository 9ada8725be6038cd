-- ===== src/Control/Transfer/Envelope/Tests.antt =====
-- A hello on its way to a hub, whose arrays and messages are written behind each conversion.
use gossipcache.Common.{ℕ, ◌≡◌, refl, none, some, [], ◌∷◌, is_blank, trim_space, is_space, arith}
use gossipcache.Ownership.{Slice, view, write, done, contents, append_elements}
use gossipcache.Wire.Protocol.{validate_protocol_range}
use gossipcache.Wire.Clones.{pointee}
use gossipcache.Control.Session.{StreamWatermark, contains, check_watermarks, validate_hello}
use gossipcache.Control.Clones.{HeldHello, read_hello}
use gossipcache.Control.Convert.Values.{protocol_version_from_uint32}
use gossipcache.Control.Convert.FromProto.{from_proto_watermarks}
use gossipcache.Control.Transfer.Sessions.{
  read_marks, proto_watermarks_in, proto_hello_in, conclude_hello_in, from_proto_hello_in,
}
use gossipcache.Control.Transfer.Envelope.{
  ClientMemory, HeldClientValue, HeldClientArgument, HeldClientMessage, read_client, client_body_in,
  proto_client_message_in, from_proto_client_body_in, from_proto_client_message_in,
}
use gossipcache.Control.Transfer.Envelope.Client.{from_proto-proto_client_message_in}
use mathlib.Core.Option

abbrev mark : ℕ → StreamWatermark
mark applied = record { stream_id = 3; applied_through = applied; hub_generation = 4 }

abbrev node : ClientMemory
node = record {
  ids = [];
  hello = record { marks = (mark 20 ∷ []) ∷ []; messages = []; pointers = [] };
}

abbrev greeting : HeldHello
greeting = record {
  node_id = 12;
  protocol = record { version = 1; min_supported = 1 };
  subscriptions = view 0 0 1;
  cluster_id = "blue";
  expected_hub_generation = 4;
}

greeting-valid : validate_hello (read_hello node.hello.marks greeting) ≡ none
unfolding validate_hello validate_protocol_range check_watermarks contains read_hello contents
    is_blank trim_space is_space
greeting-valid = refl

-- The node applies more of the stream,
abbrev sent : ClientMemory
sent = record {
  ids = [];
  hello = record {
    marks = (mark 21 ∷ []) ∷ [];
    messages = (record { stream_id = 3; applied_through = 20; hub_generation = 4 } ∷ []) ∷ [];
    pointers = (view 0 0 1 ∷ []) ∷ [];
  };
}

-- and the transport reuses the message of the watermark.
abbrev received : ClientMemory
received = record {
  ids = [];
  hello = record {
    marks = (mark 21 ∷ []) ∷ (mark 20 ∷ []) ∷ [];
    messages = (record { stream_id = 0; applied_through = 0; hub_generation = 0 } ∷ []) ∷ [];
    pointers = (Slice.nil ∷ []) ∷ [];
  };
}

abbrev opening : HeldClientMessage
unfolding client_body_in
opening = record { body = some (client_body_in node (HeldClientValue.hello greeting)).1 }

from_proto-proto_client_message_in_example :
    (Option.map (read_client received) (from_proto_client_message_in sent (some opening)).1
      ≡ some (read_client node (HeldClientValue.hello greeting)))
    × ((from_proto_client_message_in sent (some opening)).2 ≡ none)
unfolding read_client client_body_in proto_client_message_in from_proto_client_message_in
    from_proto_client_body_in proto_hello_in proto_watermarks_in from_proto_hello_in
    conclude_hello_in read_marks pointee append_elements contents from_proto_watermarks
    protocol_version_from_uint32 read_hello
from_proto-proto_client_message_in_example =
    from_proto-proto_client_message_in node
      (HeldClientArgument.pointer (HeldClientValue.hello greeting)) (HeldClientValue.hello greeting)
      opening sent received refl (greeting-valid, omega arith, omega arith) refl
      (record {
        ids = done;
        hello = record {
          marks = write 0 0 (mark 21) (omega arith) done;
          messages = done;
          pointers = done;
        };
      })
      (record {
        ids = done;
        hello = record {
          marks = done;
          messages =
              write 0 0 (record { stream_id = 0; applied_through = 0; hub_generation = 0 })
                (omega arith) done;
          pointers = write 0 0 Slice.nil (omega arith) done;
        };
      })
