-- ===== src/Rpc/Dedup/Matching.antt =====
-- Which reuse of a mutation id internal/rpc/dedup.go lets pass.
use gossipcache.Common.{◌<◌, ◌^◌, ◌≡◌, ◌↔◌, true, false, none, List, [], ◌∷◌, ℕ, arith}
use gossipcache.Wire.MutationId.{mutation_id_is_zero}
use gossipcache.Rpc.Mutation.{MutationRequest, validate_mutation_request}
use gossipcache.Rpc.Mutation.Content.{validate_mutation_request_iff}
use gossipcache.Rpc.Dedup.{
  MutationFingerprint, fingerprint, bytes_equal, fingerprint_equal, check_match,
}

bytes_equal_iff : (as' bs : List ℕ) → (bytes_equal as' bs ≡ true) ↔ (as' ≡ bs)
unfolding bytes_equal
bytes_equal_iff [] [] = ground arith
bytes_equal_iff [] (b ∷ bs) = ground arith
bytes_equal_iff (a ∷ as') [] = ground arith
bytes_equal_iff (a ∷ as') (b ∷ bs) = ground (arith, bytes_equal_iff as' bs)

-- `Equal` decides equality of fingerprints.
pub fingerprint_equal_iff :
    (f other : MutationFingerprint) → (fingerprint_equal f other ≡ true) ↔ (f ≡ other)
unfolding fingerprint_equal
fingerprint_equal_iff f other =
    ground (arith, bytes_equal_iff f.key other.key, bytes_equal_iff f.value other.value)

-- The request `retry` says what `m` says: only its id, its timeout and its generation may differ.
abbrev pub IsRetryOf : MutationRequest → MutationRequest → Type 0
IsRetryOf m retry = retry ≡ record m {
  mutation_id = retry.mutation_id;
  timeout = retry.timeout;
  hub_generation = retry.hub_generation;
}

-- The fingerprints of two requests match exactly when the requests agree in everything but id,
-- timeout and generation.
pub check_match-fingerprint_iff :
    (m retry : MutationRequest)
    → (check_match (fingerprint m) (fingerprint retry) ≡ none) ↔ IsRetryOf m retry
unfolding check_match fingerprint fingerprint_equal
check_match-fingerprint_iff m retry =
    ground (arith, bytes_equal_iff m.key retry.key, bytes_equal_iff m.value retry.value)

-- A retry of a valid request that matches its fingerprint is valid, if it has an id and a
-- generation, whatever uint32 timeouts the two ask for.
pub check_match-valid_retry :
    (m retry : MutationRequest)
    → m.timeout < 2 ^ 32
    → retry.timeout < 2 ^ 32
    → validate_mutation_request m ≡ none
    → check_match (fingerprint m) (fingerprint retry) ≡ none
    → mutation_id_is_zero retry.mutation_id ≡ false
    → 0 < retry.hub_generation
    → validate_mutation_request retry ≡ none
check_match-valid_retry m retry h k valid matched minted generation =
    let same = (check_match-fingerprint_iff m retry).0 matched in
    let v = (validate_mutation_request_iff m h).0 valid in
    (validate_mutation_request_iff retry k).1 (ground (arith, same, v))
