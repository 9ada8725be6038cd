-- ===== src/Wire/Clones/Independence.antt =====
-- A clone of a request of internal/wire/types.go shares no array with the request.
use gossipcache.Common.{ℕ, ◌≤◌, ◌≡◌, refl, ap, ◌∙◌, Option, none, some, length, arith}
use gossipcache.Ownership.{Store, Writes, Old, New, IsHeld, contents, append_elements}
use gossipcache.Ownership.Copies.{
  copy_kept, original_kept, copies_kept, originals_kept, elements_kept,
}
use gossipcache.Wire.Clones.{
  HeldSetRequest, read_set_request, clone_set_request, HeldDeleteRequest, read_delete_request,
  clone_delete_request, Memory, HeldGetRequest, read_get_request, clone_get_request, pointee, cell,
}

-- A set request, whose key and value are in the store, is cloned. Whatever is then written to the
-- arrays that were there before, the clone reads as the request did; and whatever is written to the
-- arrays made since, the request does.
pub clone_set_request-independent :
    (s : Store ℕ) (r : HeldSetRequest) (u w : Store ℕ)
    → IsHeld s r.key
    → IsHeld s r.value
    → Writes (Old (length s)) (clone_set_request s r).0 u
    → Writes (New (length s)) (clone_set_request s r).0 w
    → (read_set_request u (clone_set_request s r).1 ≡ read_set_request s r)
      × (read_set_request w r ≡ read_set_request s r)
unfolding clone_set_request read_set_request
clone_set_request-independent s r u w h k old new =
    let kept = copies_kept s r.key r.value k old in
    let originals = originals_kept s r.key r.value h k new in
    (rw (kept.0, kept.1) refl, rw (originals.0, originals.1) refl)

-- Whatever is written to the arrays that were there before a delete request was cloned, the clone
-- reads as the request did; and whatever is written to the arrays made since, the request does.
pub clone_delete_request-independent :
    (s : Store ℕ) (r : HeldDeleteRequest) (u w : Store ℕ)
    → IsHeld s r.key
    → Writes (Old (length s)) (clone_delete_request s r).0 u
    → Writes (New (length s)) (clone_delete_request s r).0 w
    → (read_delete_request u (clone_delete_request s r).1 ≡ read_delete_request s r)
      × (read_delete_request w r ≡ read_delete_request s r)
unfolding clone_delete_request read_delete_request
clone_delete_request-independent s r u w h old new = (
  rw (copy_kept (length s) s r.key (omega arith) old) refl,
  rw (original_kept s r.key h new) refl,
)

-- A get request, whose key and minimum version are in the store, is cloned. The clone shares
-- neither the key's bytes nor the variable of the version: writes to what was there before leave
-- the clone as it is, and writes to what was made since leave the request as it is.
pub clone_get_request-independent :
    (m : Memory) (r : HeldGetRequest) (u w : Memory)
    → IsHeld m.bytes r.key
    → IsHeld m.tags r.min_version
    → Writes (Old (length m.bytes)) (clone_get_request m r).0.bytes u.bytes
    → Writes (Old (length m.tags)) (clone_get_request m r).0.tags u.tags
    → Writes (New (length m.bytes)) (clone_get_request m r).0.bytes w.bytes
    → Writes (New (length m.tags)) (clone_get_request m r).0.tags w.tags
    → (read_get_request u (clone_get_request m r).1 ≡ read_get_request m r)
      × (read_get_request w r ≡ read_get_request m r)
unfolding clone_get_request read_get_request
clone_get_request-independent m r u w h k old old_tags new new_tags = (
  rw
      (
        copy_kept (length m.bytes) m.bytes r.key (omega arith) old,
        copy_kept (length m.tags) m.tags r.min_version (omega arith) old_tags,
      )
      refl,
  rw (original_kept m.bytes r.key h new, original_kept m.tags r.min_version k new_tags) refl,
)

pointee-cell : {A : Type 0} (v : Option A) → pointee (cell v) ≡ v
unfolding pointee cell
pointee-cell none = refl
pointee-cell (some v) = refl

-- A new pointer leads to its value, whatever is written to the cells that were there before.
pub cell_kept :
    {A : Type 0} (n : ℕ) (s : Store A) (v : Option A) {w : Store A}
    → n ≤ length s
    → Writes (Old n) (append_elements s (cell v)).0 w
    → pointee (contents w (append_elements s (cell v)).1) ≡ v
cell_kept n s v h r = ap pointee (elements_kept n s (cell v) h r) ∙ pointee-cell v
