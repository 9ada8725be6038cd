-- ===== src/L1/Clones/Independence.antt =====
-- The node's results and the fake hub's mutations, cloned, share no array with the originals.
use gossipcache.Common.{ℕ, ◌≡◌, refl, length, arith}
use gossipcache.Ownership.{Store, Writes, Old, New, IsHeld}
use gossipcache.Ownership.Copies.{copy_kept, original_kept, copies_kept, originals_kept}
use gossipcache.L1.Clones.{
  HeldGetResult, read_get_result, clone_get_result, HeldMutation, read_mutation, clone_mutation,
}

-- Whatever is written to the arrays that were there before a result was cloned, the clone reads as
-- the result did; and whatever is written to the arrays made since, the result does.
pub clone_get_result-independent :
    (s : Store ℕ) (r : HeldGetResult) (u w : Store ℕ)
    → IsHeld s r.value
    → Writes (Old (length s)) (clone_get_result s r).0 u
    → Writes (New (length s)) (clone_get_result s r).0 w
    → (read_get_result u (clone_get_result s r).1 ≡ read_get_result s r)
      × (read_get_result w r ≡ read_get_result s r)
unfolding clone_get_result read_get_result
clone_get_result-independent s r u w h old new = (
  rw (copy_kept (length s) s r.value (omega arith) old) refl,
  rw (original_kept s r.value h new) refl,
)

-- The mutation that a barrier observes, cloned, reads the same whatever is written to the arrays
-- that were there before; and the mutation does whatever is written to the arrays made since.
pub clone_mutation-independent :
    (s : Store ℕ) (m : HeldMutation) (u w : Store ℕ)
    → IsHeld s m.key
    → IsHeld s m.value
    → Writes (Old (length s)) (clone_mutation s m).0 u
    → Writes (New (length s)) (clone_mutation s m).0 w
    → (read_mutation u (clone_mutation s m).1 ≡ read_mutation s m)
      × (read_mutation w m ≡ read_mutation s m)
unfolding clone_mutation read_mutation
clone_mutation-independent s m u w h k old new =
    let kept = copies_kept s m.key m.value k old in
    let originals = originals_kept s m.key m.value h k new in
    (rw (kept.0, kept.1) refl, rw (originals.0, originals.1) refl)
