-- ===== src/Control/Convert/Agreement.antt =====
-- internal/control/convert.go has small conversions of its own where internal/rpc/convert.go has the
-- same.
use gossipcache.Common.{ℕ, ◌≡◌, ◌↔◌, refl, Option, none, some, arith}
use gossipcache.Errors.{ok}
use gossipcache.Wire.Record.{RecordKind}
use gossipcache.Wire.Status.{Status}
use gossipcache.Pb
use gossipcache.Rpc.Convert.Enums.{
  from_proto_mutation_id, from_proto_version_tag, from_proto_status, from_proto_record_kind,
  protocol_version_from_uint32 as rpc_version_from_uint32,
}
use gossipcache.Control.Convert.Values.{
  mutation_id_from_proto, record_kind_from_proto, status_from_proto, protocol_version_from_uint32,
  version_from_proto,
}

version_from_proto-from_proto_version_tag :
    (v : Option Pb.VersionTag) → version_from_proto v ≡ from_proto_version_tag v
unfolding version_from_proto from_proto_version_tag
version_from_proto-from_proto_version_tag none = refl
version_from_proto-from_proto_version_tag (some v) = refl

mutation_id_from_proto-from_proto_mutation_id :
    (id : Option Pb.MutationId) → mutation_id_from_proto id ≡ from_proto_mutation_id id
unfolding mutation_id_from_proto from_proto_mutation_id
mutation_id_from_proto-from_proto_mutation_id none = refl
mutation_id_from_proto-from_proto_mutation_id (some id) = refl

-- The control stream and the data RPC read ids, versions and protocol versions alike, errors
-- included; and of statuses and kinds they accept the same numbers as the same values.
pub converters_agree :
    (id : Option Pb.MutationId) (v : Option Pb.VersionTag) (version : ℕ) (p : Pb.Status)
    (s : Status) (q : Pb.RecordKind) (k : RecordKind)
    → (mutation_id_from_proto id ≡ from_proto_mutation_id id)
      × (version_from_proto v ≡ from_proto_version_tag v)
      × (protocol_version_from_uint32 version ≡ rpc_version_from_uint32 version)
      × ((status_from_proto p ≡ ok s) ↔ (from_proto_status p ≡ ok s))
      × ((record_kind_from_proto q ≡ ok k) ↔ (from_proto_record_kind q ≡ ok k))
unfolding protocol_version_from_uint32 rpc_version_from_uint32 status_from_proto from_proto_status
    record_kind_from_proto from_proto_record_kind
converters_agree id v version p s q k = (
  mutation_id_from_proto-from_proto_mutation_id id,
  version_from_proto-from_proto_version_tag v,
  refl,
  ground arith,
  ground arith,
)
