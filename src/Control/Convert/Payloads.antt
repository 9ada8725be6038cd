-- ===== src/Control/Convert/Payloads.antt =====
-- The payloads of the control stream, by the types that internal/control/types.go gives their
-- fields; a string is shorter than 2 ^ 63 bytes.
use gossipcache.Common.{All, IsUint}
use gossipcache.Control.Session.{StreamWatermark}
use gossipcache.Control.Batch.Types.{IsGoBatch}
use gossipcache.Control.Convert.Envelope.{ClientValue, ServerValue}
use Prim.Native.String.{len}

abbrev pub IsGoWatermark : StreamWatermark → Type 0
IsGoWatermark s = IsUint 32 s.stream_id × IsUint 64 s.applied_through × IsUint 64 s.hub_generation

-- A node's payload.
abbrev pub IsGoClient : ClientValue → Type 0
IsGoClient (ClientValue.hello m) =
    IsUint 64 m.node_id
    × IsUint 16 m.protocol.version
    × IsUint 16 m.protocol.min_supported
    × All IsGoWatermark m.subscriptions
    × IsUint 63 (len m.cluster_id)
    × IsUint 64 m.expected_hub_generation
IsGoClient (ClientValue.subscribe m) = IsUint 64 m.hub_generation × All (IsUint 32) m.stream_ids
IsGoClient (ClientValue.stream_acknowledgement m) =
    IsUint 32 m.stream_id × IsUint 64 m.applied_through
IsGoClient (ClientValue.replay_request m) =
    IsUint 32 m.stream_id × IsUint 64 m.from_sequence × IsUint 64 m.to_sequence
IsGoClient (ClientValue.invalidate_confirm m) =
    IsUint 32 m.stream_id × IsUint 64 m.stream_sequence × IsUint 64 m.node_id

-- A hub's payload.
abbrev pub IsGoPayload : ServerValue → Type 0
IsGoPayload (ServerValue.invalidation_batch m) = IsGoBatch m
IsGoPayload (ServerValue.stream_checkpoint m) =
    IsUint 32 m.stream_id × IsUint 64 m.hub_generation × IsUint 64 m.stream_head
IsGoPayload (ServerValue.replay_unavailable m) =
    IsUint 32 m.stream_id
    × IsUint 64 m.hub_generation
    × IsUint 64 m.requested_from
    × IsUint 64 m.oldest_available
    × IsUint 64 m.stream_head
IsGoPayload (ServerValue.control_error m) = IsUint 16 m.status
