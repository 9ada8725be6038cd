-- ===== src/Rpc/Convert/Retries.antt =====
-- A retry as the hub sees it: two messages converted by internal/rpc/convert.go and compared by
-- internal/rpc/dedup.go.
use gossipcache.Common.{◌≡◌, ◌↔◌, none, some, arith}
use gossipcache.Pb
use gossipcache.Wire.Options.{write_mode_valid, confirm_level_valid}
use gossipcache.Rpc.Mutation.{MutationRequest, validate_mutation_request, op_valid}
use gossipcache.Rpc.Mutation.Content.{validate_mutation_request-defined}
use gossipcache.Rpc.Dedup.{fingerprint, check_match}
use gossipcache.Rpc.Dedup.Matching.{IsRetryOf, check_match-fingerprint_iff}
use gossipcache.Rpc.Convert.Enums.{proto_mutation_op, proto_write_mode, proto_confirm_level}
use gossipcache.Rpc.Convert.ToProto.{proto_mutation_request}
use gossipcache.Rpc.Convert.FromProto.{from_proto_mutation_request}
use gossipcache.Rpc.Convert.Requests.{from_proto_mutation_request_iff}

-- The message `q` says what `p` says: only its id, its timeout and its generation may differ.
abbrev pub IsResend : Pb.MutationRequest → Pb.MutationRequest → Type 0
IsResend p q = q ≡ record p {
  mutation_id = q.mutation_id;
  timeout_millis = q.timeout_millis;
  hub_generation = q.hub_generation;
}

proto_mutation_request-IsResend :
    (m retry : MutationRequest)
    → validate_mutation_request m ≡ none
    → validate_mutation_request retry ≡ none
    → IsRetryOf m retry ↔ IsResend (proto_mutation_request m) (proto_mutation_request retry)
unfolding proto_mutation_request proto_mutation_op proto_write_mode proto_confirm_level op_valid
    write_mode_valid confirm_level_valid
proto_mutation_request-IsResend m retry v w =
    ground (arith, validate_mutation_request-defined m v, validate_mutation_request-defined retry w)

-- Of two messages that a hub has accepted, the second passes for a retry of the first exactly when
-- the messages agree in every field but id, timeout and generation.
pub received_retry_iff :
    (p q : Pb.MutationRequest) (m retry : MutationRequest)
    → from_proto_mutation_request (some p) ≡ (m, none)
    → from_proto_mutation_request (some q) ≡ (retry, none)
    → (check_match (fingerprint m) (fingerprint retry) ≡ none) ↔ IsResend p q
received_retry_iff p q m retry e f =
    let (v, _, _, sent) = (from_proto_mutation_request_iff (some p) m).0 e in
    let (w, _, _, again) = (from_proto_mutation_request_iff (some q) retry).0 f in
    let same = check_match-fingerprint_iff m retry in
    let resent = proto_mutation_request-IsResend m retry v w in
    let first : p ≡ proto_mutation_request m = cc in
    let second : q ≡ proto_mutation_request retry = cc in
    rw (first, second) (λ h. resent.0 (same.0 h), λ h. same.1 (resent.1 h))
