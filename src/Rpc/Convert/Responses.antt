-- ===== src/Rpc/Convert/Responses.antt =====
-- The responses of internal/rpc/convert.go, there and back. A response may leave its version out,
-- which stands for the zero version.
use gossipcache.Common.{true, ◌≡◌, ◌↔◌, ◌⊎◌, Option, none, some, arith}
use gossipcache.Wire.Version.{VersionTag, zero_version}
use gossipcache.Wire.Status.{status_valid}
use gossipcache.Wire.Record.{record_kind_valid, validate_get_record}
use gossipcache.Rpc.Read.{GetResponse, validate_get_response}
use gossipcache.Rpc.Mutation.{MutationResponse, validate_mutation_response}
use gossipcache.Pb
use gossipcache.Rpc.Convert.Enums.{
  proto_version_tag, proto_status, proto_record_kind, from_proto_version_tag,
}
use gossipcache.Rpc.Convert.Values.{from_proto_status_iff, from_proto_record_kind_iff}
use gossipcache.Rpc.Convert.ToProto.{proto_get_response, proto_mutation_response}
use gossipcache.Rpc.Convert.FromProto.{from_proto_get_response, from_proto_mutation_response}

-- The forms that a version may take in a message.
abbrev pub IsVersion : Option Pb.VersionTag → VersionTag → Type 0
IsVersion p v = (p ≡ some (proto_version_tag v)) ⊎ ((p ≡ none) × (v ≡ zero_version))

from_proto_version_tag_iff :
    (p : Option Pb.VersionTag) (v : VersionTag) → (from_proto_version_tag p ≡ v) ↔ IsVersion p v
unfolding from_proto_version_tag proto_version_tag
from_proto_version_tag_iff none v = ground arith
from_proto_version_tag_iff (some p) v = ground arith

validate_get_response-defined :
    (m : GetResponse)
    → validate_get_response m ≡ none
    → (status_valid m.status ≡ true) × (record_kind_valid m.kind ≡ true)
unfolding validate_get_response validate_get_record
validate_get_response-defined m e = ground arith

-- A message converts back to the answer `m` with no error exactly when `m` is valid and the message
-- is what it converts to, up to a zero version that is left out.
pub from_proto_get_response_iff :
    (p : Option Pb.GetResponse) (m : GetResponse)
    → (from_proto_get_response p ≡ (m, none)) ↔ (
        (validate_get_response m ≡ none)
        × ((version : Option Pb.VersionTag) × IsVersion version m.version
            × (p ≡ some (record (proto_get_response m) { version = version }))))
unfolding from_proto_get_response proto_get_response
from_proto_get_response_iff none m = ground arith
from_proto_get_response_iff (some q) m = (
  λ e.
      let status = from_proto_status_iff q.status m.status in
      let kind = from_proto_record_kind_iff q.kind m.kind in
      let version = from_proto_version_tag_iff q.version m.version in
      (ground arith, (q.version, ground arith, ground arith)),
  λ (v, (version, form, same)). ground (
    arith,
    form,
    same,
    validate_get_response-defined m v,
    from_proto_status_iff (proto_status m.status) m.status,
    from_proto_record_kind_iff (proto_record_kind m.kind) m.kind,
    from_proto_version_tag_iff version m.version,
  ),
)

validate_mutation_response-defined :
    (m : MutationResponse) → validate_mutation_response m ≡ none → status_valid m.status ≡ true
unfolding validate_mutation_response
validate_mutation_response-defined m e = ground arith

-- A message converts back to the outcome `m` of a mutation with no error exactly when `m` is valid
-- and the message is what it converts to, up to a zero version that is left out.
pub from_proto_mutation_response_iff :
    (p : Option Pb.MutationResponse) (m : MutationResponse)
    → (from_proto_mutation_response p ≡ (m, none)) ↔ (
        (validate_mutation_response m ≡ none)
        × ((version : Option Pb.VersionTag) × IsVersion version m.version
            × (p ≡ some (record (proto_mutation_response m) { version = version }))))
unfolding from_proto_mutation_response proto_mutation_response
from_proto_mutation_response_iff none m = ground arith
from_proto_mutation_response_iff (some q) m = (
  λ e.
      let status = from_proto_status_iff q.status m.status in
      let version = from_proto_version_tag_iff q.version m.version in
      (ground arith, (q.version, ground arith, ground arith)),
  λ (v, (version, form, same)). ground (
    arith,
    form,
    same,
    validate_mutation_response-defined m v,
    from_proto_status_iff (proto_status m.status) m.status,
    from_proto_version_tag_iff version m.version,
  ),
)
