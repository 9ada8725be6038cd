-- ===== src/Rpc/Clones/Independence.antt =====
-- What the data plane keeps of a request does not change with the caller's arrays.
use gossipcache.Common.{ℕ, ◌≡◌, ◌↔◌, refl, length, arith, none}
use gossipcache.Ownership.{Store, Writes, Old, New, IsHeld}
use gossipcache.Ownership.Copies.{copy_kept, original_kept, copies_kept, originals_kept}
use gossipcache.Rpc.Dedup.{fingerprint, check_match}
use gossipcache.Rpc.Mutation.{MutationRequest}
use gossipcache.Rpc.Dedup.Matching.{IsRetryOf, check_match-fingerprint_iff}
use gossipcache.Wire.Clones.{Memory}
use gossipcache.Rpc.Clones.{
  HeldMutationRequest, read_mutation_request, clone_mutation_request, fingerprint_in,
  HeldFingerprint, read_fingerprint, clone_fingerprint, HeldGetResponse, read_get_response,
  clone_get_response, HeldGetRequest, read_get_request, clone_get_request,
}

-- A mutation, whose key and value are in the store, is cloned. Whatever is then written to the
-- arrays that were there before, the clone reads as the mutation did; and whatever is written to
-- the arrays made since, the mutation does.
pub clone_mutation_request-independent :
    (s : Store ℕ) (m : HeldMutationRequest) (u w : Store ℕ)
    → IsHeld s m.key
    → IsHeld s m.value
    → Writes (Old (length s)) (clone_mutation_request s m).0 u
    → Writes (New (length s)) (clone_mutation_request s m).0 w
    → (read_mutation_request u (clone_mutation_request s m).1 ≡ read_mutation_request s m)
      × (read_mutation_request w m ≡ read_mutation_request s m)
unfolding clone_mutation_request read_mutation_request
clone_mutation_request-independent s m u w h k old new =
    let kept = copies_kept s m.key m.value k old in
    let originals = originals_kept s m.key m.value h k new in
    (rw (kept.0, kept.1) refl, rw (originals.0, originals.1) refl)

-- The fingerprint that is taken of a mutation stays the fingerprint of what the mutation then was,
-- whatever is later written to the arrays that it was taken from.
pub fingerprint_in-kept :
    (s : Store ℕ) (m : HeldMutationRequest) (u : Store ℕ)
    → IsHeld s m.value
    → Writes (Old (length s)) (fingerprint_in s m).0 u
    → read_fingerprint u (fingerprint_in s m).1 ≡ fingerprint (read_mutation_request s m)
unfolding fingerprint_in read_fingerprint read_mutation_request fingerprint
fingerprint_in-kept s m u h old =
    let kept = copies_kept s m.key m.value h old in rw (kept.0, kept.1) refl

-- A fingerprint is taken of a mutation whose value is in the store. After any writes to the arrays
-- that were there before, a later request matches it exactly when it is a retry of what the
-- mutation was when the fingerprint was taken.
pub check_match-fingerprint_in_iff :
    (s : Store ℕ) (m : HeldMutationRequest) (u : Store ℕ) (retry : MutationRequest)
    → IsHeld s m.value
    → Writes (Old (length s)) (fingerprint_in s m).0 u
    → (check_match (read_fingerprint u (fingerprint_in s m).1) (fingerprint retry) ≡ none)
      ↔ IsRetryOf (read_mutation_request s m) retry
check_match-fingerprint_in_iff s m u retry h old =
    rw (fingerprint_in-kept s m u h old)
      (check_match-fingerprint_iff (read_mutation_request s m) retry)

-- Whatever is written to the arrays that were there before a fingerprint was cloned, the clone reads
-- as the fingerprint did; and whatever is written to the arrays made since, the fingerprint does.
pub clone_fingerprint-independent :
    (s : Store ℕ) (f : HeldFingerprint) (u w : Store ℕ)
    → IsHeld s f.key
    → IsHeld s f.value
    → Writes (Old (length s)) (clone_fingerprint s f).0 u
    → Writes (New (length s)) (clone_fingerprint s f).0 w
    → (read_fingerprint u (clone_fingerprint s f).1 ≡ read_fingerprint s f)
      × (read_fingerprint w f ≡ read_fingerprint s f)
unfolding clone_fingerprint read_fingerprint
clone_fingerprint-independent s f u w h k old new =
    let kept = copies_kept s f.key f.value k old in
    let originals = originals_kept s f.key f.value h k new in
    (rw (kept.0, kept.1) refl, rw (originals.0, originals.1) refl)

-- Whatever is written to the arrays that were there before an answer was cloned, the clone reads as
-- the answer did; and whatever is written to the arrays made since, the answer does.
pub clone_get_response-independent :
    (s : Store ℕ) (m : HeldGetResponse) (u w : Store ℕ)
    → IsHeld s m.value
    → Writes (Old (length s)) (clone_get_response s m).0 u
    → Writes (New (length s)) (clone_get_response s m).0 w
    → (read_get_response u (clone_get_response s m).1 ≡ read_get_response s m)
      × (read_get_response w m ≡ read_get_response s m)
unfolding clone_get_response read_get_response
clone_get_response-independent s m u w h old new = (
  rw (copy_kept (length s) s m.value (omega arith) old) refl,
  rw (original_kept s m.value h new) refl,
)

-- A clone of a read shares neither the key's bytes nor the variable of the minimum version: writes
-- to what was there before leave the clone as it is, and writes to what was made since leave the
-- read as it is.
pub clone_get_request-separate :
    (m : Memory) (r : HeldGetRequest) (u w : Memory)
    → IsHeld m.bytes r.key
    → IsHeld m.tags r.min_version
    → Writes (Old (length m.bytes)) (clone_get_request m r).0.bytes u.bytes
    → Writes (Old (length m.tags)) (clone_get_request m r).0.tags u.tags
    → Writes (New (length m.bytes)) (clone_get_request m r).0.bytes w.bytes
    → Writes (New (length m.tags)) (clone_get_request m r).0.tags w.tags
    → (read_get_request u (clone_get_request m r).1 ≡ read_get_request m r)
      × (read_get_request w r ≡ read_get_request m r)
unfolding clone_get_request read_get_request
clone_get_request-separate m r u w h k old old_tags new new_tags = (
  rw
      (
        copy_kept (length m.bytes) m.bytes r.key (omega arith) old,
        copy_kept (length m.tags) m.tags r.min_version (omega arith) old_tags,
      )
      refl,
  rw (original_kept m.bytes r.key h new, original_kept m.tags r.min_version k new_tags) refl,
)
