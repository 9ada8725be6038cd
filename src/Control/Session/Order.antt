-- ===== src/Control/Session/Order.antt =====
-- Subscriptions of internal/control/types.go in another order of their stream ids. The loop puts
-- the ids into a set, so that only the outcome of its tests counts.
use gossipcache.Common.{ℕ, suc, ◌||◌, ◌≡◌, refl, ◌∙◌, ap, ◌==◌, List, [], ◌∷◌, length, arith}
use gossipcache.Control.Session.{contains, check_stream_ids, validate_subscribe}
use gossipcache.Errors.Outcomes.{Check-set}
use mathlib.Core.Logic.{∥∥₁_elim}
use mathlib.Core.List.{Perm, Permᴰ}

-- Two sets with the same members.
abbrev Alike : List ℕ → List ℕ → Type 0
Alike seen seen' = (id : ℕ) → contains id seen ≡ contains id seen'

Alike-cons : (x : ℕ) (seen seen' : List ℕ) → Alike seen seen' → Alike (x ∷ seen) (x ∷ seen')
unfolding contains
Alike-cons x seen seen' same id = ap (λ b. x == id || b) (same id)

Alike-swap : (x y : ℕ) (seen : List ℕ) → Alike (y ∷ x ∷ seen) (x ∷ y ∷ seen)
unfolding contains
Alike-swap x y seen id = ground arith

check_stream_ids-Alike :
    (seen seen' ids : List ℕ)
    → Alike seen seen'
    → check_stream_ids seen ids ≡ check_stream_ids seen' ids
unfolding check_stream_ids
check_stream_ids-Alike seen seen' [] same = refl
check_stream_ids-Alike seen seen' (x ∷ ids) same = ground (
  arith,
  same x,
  check_stream_ids-Alike (x ∷ seen) (x ∷ seen') ids (Alike-cons x seen seen' same),
)

check_stream_ids-swap :
    (seen ids : List ℕ) (x y : ℕ)
    → check_stream_ids seen (x ∷ y ∷ ids) ≡ check_stream_ids seen (y ∷ x ∷ ids)
unfolding check_stream_ids contains
check_stream_ids-swap seen ids x y =
    ground (arith, check_stream_ids-Alike (y ∷ x ∷ seen) (x ∷ y ∷ seen) ids (Alike-swap x y seen))

check_stream_ids-Permᴰ :
    (seen ids ids' : List ℕ)
    → Permᴰ ids ids'
    → check_stream_ids seen ids ≡ check_stream_ids seen ids'
unfolding check_stream_ids
check_stream_ids-Permᴰ seen _ _ Permᴰ.nil = refl
check_stream_ids-Permᴰ seen _ _ (Permᴰ.cons {a} {b} {l₁} {l₂} e p) =
    ground (arith, e, check_stream_ids-Permᴰ (a ∷ seen) l₁ l₂ p)
check_stream_ids-Permᴰ seen _ _ (Permᴰ.swap {a} {b} {a'} {b'} {l} e f) =
    ground (arith, e, f, check_stream_ids-swap seen l a b)
check_stream_ids-Permᴰ seen _ _ (Permᴰ.trans {l₁} {l₂} {l₃} p q) =
    check_stream_ids-Permᴰ seen l₁ l₂ p ∙ check_stream_ids-Permᴰ seen l₂ l₃ q

pub length-Permᴰ : {A : Type 0} (ids ids' : List A) → Permᴰ ids ids' → length ids ≡ length ids'
length-Permᴰ _ _ Permᴰ.nil = refl
length-Permᴰ _ _ (Permᴰ.cons {l₁ = l₁} {l₂ = l₂} e p) = ap suc (length-Permᴰ l₁ l₂ p)
length-Permᴰ _ _ (Permᴰ.swap e f) = refl
length-Permᴰ _ _ (Permᴰ.trans {l₁} {l₂} {l₃} p q) = length-Permᴰ l₁ l₂ p ∙ length-Permᴰ l₂ l₃ q

-- The outcome of the check of a subscription does not depend on the order of its stream ids.
pub validate_subscribe-Perm :
    (hub_generation : ℕ) (stream_ids permuted : List ℕ)
    → Perm stream_ids permuted
    → validate_subscribe (record { hub_generation = hub_generation; stream_ids = stream_ids })
      ≡ validate_subscribe (record { hub_generation = hub_generation; stream_ids = permuted })
unfolding validate_subscribe
validate_subscribe-Perm g a b p =
    ∥∥₁_elim p (Check-set _ _) (λ d. cc (length-Permᴰ a b d, check_stream_ids-Permᴰ [] a b d))
