-- ===== src/Rpc/Convert/Requests.antt =====
-- The requests of internal/rpc/convert.go: what a conversion back accepts is what the conversion to
-- protobuf makes of a valid message.
use gossipcache.Common.{ap, ◌<◌, ◌^◌, ◌≡◌, ◌≢◌, refl, ◌↔◌, Option, none, some, length, arith}
use gossipcache.Rpc.Mutation.{MutationRequest, validate_mutation_request}
use gossipcache.Rpc.Mutation.Content.{validate_mutation_request-defined}
use gossipcache.Rpc.Read.{GetRequest, validate_get}
use gossipcache.Wire.Version.{VersionTag}
use mathlib.Core.Option
use gossipcache.Pb
use gossipcache.Rpc.Convert.Enums.{
  proto_version_tag, from_proto_version_tag, proto_mutation_id, proto_write_mode,
  proto_confirm_level, proto_mutation_op,
}
use gossipcache.Rpc.Convert.Values.{
  from_proto_mutation_id_iff, from_proto_write_mode_iff, from_proto_confirm_level_iff,
  from_proto_mutation_op_iff,
}
use gossipcache.Rpc.Convert.ToProto.{proto_mutation_request, proto_get_request}
use gossipcache.Rpc.Convert.FromProto.{from_proto_mutation_request, from_proto_get_request}

from_proto_mutation_request_sound :
    (q : Pb.MutationRequest) (m : MutationRequest)
    → from_proto_mutation_request (some q) ≡ (m, none)
    → (validate_mutation_request m ≡ none)
      × (m.w < 2 ^ 16)
      × (length m.mutation_id ≡ 16)
      × (q ≡ proto_mutation_request m)
unfolding from_proto_mutation_request proto_mutation_request
from_proto_mutation_request_sound q m e = ground (
  arith,
  from_proto_mutation_id_iff q.mutation_id m.mutation_id,
  from_proto_write_mode_iff q.mode m.mode,
  from_proto_confirm_level_iff q.confirm m.confirm,
  from_proto_mutation_op_iff q.op m.op,
)

from_proto_mutation_request_complete :
    (m : MutationRequest)
    → validate_mutation_request m ≡ none
    → m.w < 2 ^ 16
    → length m.mutation_id ≡ 16
    → from_proto_mutation_request (some (proto_mutation_request m)) ≡ (m, none)
unfolding from_proto_mutation_request proto_mutation_request
from_proto_mutation_request_complete m e h k = ground (
  arith,
  validate_mutation_request-defined m e,
  from_proto_mutation_id_iff (some (proto_mutation_id m.mutation_id)) m.mutation_id,
  from_proto_write_mode_iff (proto_write_mode m.mode) m.mode,
  from_proto_confirm_level_iff (proto_confirm_level m.confirm) m.confirm,
  from_proto_mutation_op_iff (proto_mutation_op m.op) m.op,
)

from_proto_mutation_request-nil :
    (m : MutationRequest) → from_proto_mutation_request none ≢ (m, none)
unfolding from_proto_mutation_request
from_proto_mutation_request-nil m = ground arith

-- A message converts back to the request `m` with no error exactly when it is what `m` converts
-- to, and `m` is valid, with a `W` of 16 bits and an id of 16 bytes. Nothing is cut off on the way,
-- and every other message, nil included, is refused.
pub from_proto_mutation_request_iff :
    (p : Option Pb.MutationRequest) (m : MutationRequest)
    → (from_proto_mutation_request p ≡ (m, none)) ↔ (
        (validate_mutation_request m ≡ none)
        × (m.w < 2 ^ 16)
        × (length m.mutation_id ≡ 16)
        × (p ≡ some (proto_mutation_request m)))
from_proto_mutation_request_iff none m =
    (λ e. absurd (from_proto_mutation_request-nil m e), λ (_, _, _, none_some). cc)
from_proto_mutation_request_iff (some q) m = (
  λ e. let (v, h, k, same) = from_proto_mutation_request_sound q m e in (v, h, k, ap some same),
  λ (v, h, k, same). rw same (from_proto_mutation_request_complete m v h k),
)

version_of-map :
    (v : Option Pb.VersionTag) (w : Option VersionTag)
    → Option.map (λ t. from_proto_version_tag (some t)) v ≡ w
    → v ≡ Option.map proto_version_tag w
unfolding from_proto_version_tag proto_version_tag
version_of-map none none e = refl
version_of-map none (some w) e = cc
version_of-map (some v) none e = cc
version_of-map (some v) (some w) e = ground arith

map-version_of :
    (w : Option VersionTag)
    → Option.map (λ t. from_proto_version_tag (some t)) (Option.map proto_version_tag w) ≡ w
unfolding from_proto_version_tag proto_version_tag
map-version_of none = refl
map-version_of (some w) = refl

-- A message converts back to the read `m` with no error exactly when `m` is valid and the message is
-- what it converts to: a minimum version comes back where there is one, and none where there is
-- none. Nil is refused.
pub from_proto_get_request_iff :
    (p : Option Pb.GetRequest) (m : GetRequest)
    → (from_proto_get_request p ≡ (m, none))
      ↔ ((validate_get m ≡ none) × (p ≡ some (proto_get_request m)))
unfolding from_proto_get_request proto_get_request
from_proto_get_request_iff none m = ground arith
from_proto_get_request_iff (some q) m =
    ground (arith, version_of-map q.min_version m.min_version, map-version_of m.min_version)
