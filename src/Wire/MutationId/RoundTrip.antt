-- ===== src/Wire/MutationId/RoundTrip.antt =====
-- A mutation id and its two components, of internal/wire/types.go.
use gossipcache.Common.{
  ℕ, zero, suc, ◌+◌, ◌*◌, ◌/◌, ◌%◌, ◌^◌, ◌<◌, ◌≡◌, refl, sym, ◌∙◌, ap, ◌↔◌, true, List, [], ◌∷◌,
  ◌++◌, length, take, drop, All, arith,
}
use gossipcache.Common.{length-append, take-append_length, drop-append_length}
use gossipcache.Common.{take-append-drop, length-take, length-drop, All-append, All-take, All-drop}
use gossipcache.Wire.MutationId.{
  MutationId, put_be, get_be, be_from, new_mutation_id, node_epoch, counter, mutation_id_is_zero,
}
use mathlib.Core.List.{append_assoc, append-nil}
use native.Mathlib.Nat.{pow-suc}

abbrev pub IsByte : ℕ → Type 0
IsByte b = b < 256

-- The values of Go's `[16]byte`.
pub record IsMutationId (id : MutationId) : Type 0 where
  pub sixteen : length id ≡ 16
  pub bytes : All IsByte id

be_from-append : (acc b : ℕ) (bs : List ℕ) → be_from acc (bs ++ b ∷ []) ≡ be_from acc bs * 256 + b
unfolding be_from
be_from-append acc b [] = refl
be_from-append acc b (c ∷ bs) = be_from-append (acc * 256 + c) b bs

be_from-put_be : (k v acc : ℕ) → v < 256 ^ k → be_from acc (put_be k v) ≡ acc * 256 ^ k + v
unfolding put_be
be_from-put_be zero v acc h = unfold be_from in omega arith
be_from-put_be (suc k) v acc h = omega (
  arith,
  be_from-append acc (v % 256) (put_be k (v / 256)),
  be_from-put_be k (v / 256) acc (omega (arith, pow-suc 256 k)),
  ap (λ (t : ℕ). acc * t) (pow-suc 256 k),
)

put_be-be_from :
    (bs : List ℕ) (k j acc : ℕ)
    → All IsByte bs
    → k ≡ length bs + j
    → put_be k (be_from acc bs) ≡ put_be j acc ++ bs
unfolding be_from put_be
put_be-be_from [] k j acc h e = let same : k ≡ j = omega arith in rw (append-nil, same) refl
put_be-be_from (b ∷ bs) k j acc (p, h) e =
    let front : (acc * 256 + b) / 256 ≡ acc = omega arith in
    let last : (acc * 256 + b) % 256 ≡ b = omega arith in
    put_be-be_from bs k (suc j) (acc * 256 + b) h (omega arith)
    ∙ rw (front, last, append_assoc) refl

zero_bytes : (v : ℕ) → put_be 0 v ≡ []
unfolding put_be
zero_bytes v = refl

length-put_be : (k v : ℕ) → length (put_be k v) ≡ k
unfolding put_be
length-put_be zero v = refl
length-put_be (suc k) v =
    omega (arith, length-append (put_be k (v / 256)) ((v % 256) ∷ []), length-put_be k (v / 256))

put_be-IsByte : (k v : ℕ) → All IsByte (put_be k v)
unfolding put_be
put_be-IsByte zero v = tt
put_be-IsByte (suc k) v =
    All-append IsByte (put_be k (v / 256)) _ (put_be-IsByte k (v / 256)) (omega arith)

-- Of any two uint64 components the constructor makes an id of sixteen bytes, from which the two are
-- read back.
pub new_mutation_id_components :
    (epoch count : ℕ)
    → epoch < 2 ^ 64
    → count < 2 ^ 64
    → IsMutationId (new_mutation_id epoch count)
      × (node_epoch (new_mutation_id epoch count) ≡ epoch)
      × (counter (new_mutation_id epoch count) ≡ count)
unfolding new_mutation_id node_epoch counter get_be
new_mutation_id_components epoch count h k =
    let front =
      take-append_length 8 (put_be 8 epoch) (put_be 8 count) (sym (length-put_be 8 epoch)) in
    let back =
      drop-append_length 8 (put_be 8 epoch) (put_be 8 count) (sym (length-put_be 8 epoch)) in
    (
      record {
        sixteen = omega (
          arith,
          length-append (put_be 8 epoch) (put_be 8 count),
          length-put_be 8 epoch,
          length-put_be 8 count,
        );
        bytes =
            All-append IsByte (put_be 8 epoch) _ (put_be-IsByte 8 epoch) (put_be-IsByte 8 count);
      },
      rw front (omega (arith, be_from-put_be 8 epoch 0 h)),
      rw back (omega (arith, be_from-put_be 8 count 0 k)),
    )

-- Every id of sixteen bytes is made of its two components.
pub new_mutation_id_of_components :
    (id : MutationId) → IsMutationId id → new_mutation_id (node_epoch id) (counter id) ≡ id
unfolding new_mutation_id node_epoch counter get_be
new_mutation_id_of_components id h =
    let front =
      put_be-be_from (take 8 id) 8 0 0 (All-take IsByte 8 id h.bytes)
        (omega (arith, length-take 8 id)) in
    let back =
      put_be-be_from (drop 8 id) 8 0 0 (All-drop IsByte 8 id h.bytes)
        (omega (arith, length-drop 8 id)) in
    rw (front, back, zero_bytes) (take-append-drop 8 id)

be_from-eq-zero_iff :
    (bs : List ℕ) (acc : ℕ) → (be_from acc bs ≡ 0) ↔ ((acc ≡ 0) × (mutation_id_is_zero bs ≡ true))
unfolding be_from mutation_id_is_zero
be_from-eq-zero_iff [] acc = ground arith
be_from-eq-zero_iff (b ∷ bs) acc = ground (arith, be_from-eq-zero_iff bs (acc * 256 + b))

is_zero-append :
    (xs ys : List ℕ)
    → (mutation_id_is_zero (xs ++ ys) ≡ true)
      ↔ ((mutation_id_is_zero xs ≡ true) × (mutation_id_is_zero ys ≡ true))
unfolding mutation_id_is_zero
is_zero-append [] ys = ground arith
is_zero-append (x ∷ xs) ys = ground (arith, is_zero-append xs ys)

-- An id is zero exactly when both its components are.
pub mutation_id_is_zero_iff :
    (id : MutationId) → (mutation_id_is_zero id ≡ true) ↔ ((node_epoch id ≡ 0) × (counter id ≡ 0))
unfolding node_epoch counter get_be
mutation_id_is_zero_iff id = ground (
  arith,
  is_zero-append (take 8 id) (drop 8 id),
  take-append-drop 8 id,
  be_from-eq-zero_iff (take 8 id) 0,
  be_from-eq-zero_iff (drop 8 id) 0,
)
