-- ===== src/Ownership/Copies.antt =====
-- One slice copied, and two, one after the other: what later writes leave of the copies and of the
-- originals.
use gossipcache.Common.{ℕ, ◌≤◌, ◌≡◌, ◌∙◌, List, length, arith}
use gossipcache.Ownership.{
  Store, Slice, nil, view, contents, append_elements, append_nil, Writes, Old, New, IsHeld, IsOwned,
}
use gossipcache.Ownership.Frames.{append_elements-contents, append_elements-IsOwned}
use gossipcache.Ownership.Frames.{
  append_nil-contents, append_nil-IsOwned, append_nil-Writes, Writes-length, Writes-trans,
  contents-Writes-Old, contents-Writes-New,
}

module _ {ℓ} {A : Type ℓ} where
  pub IsOwned-weaken : (s : Store A) (m n : ℕ) (b : Slice) → m ≤ n → IsOwned n s b → IsOwned m s b
  IsOwned-weaken s m n nil h o = tt
  IsOwned-weaken s m n (view a i k) h o = (omega (arith, o.0, h), o.1)

  -- Writes to the first n arrays do not reach a copy made behind them.
  pub copy_kept :
      (n : ℕ) (s : Store A) (b : Slice) {w : Store A}
      → n ≤ length s
      → Writes (Old n) (append_nil s b).0 w
      → contents w (append_nil s b).1 ≡ contents s b
  copy_kept n s b h r =
      contents-Writes-Old (append_nil s b).1
        (IsOwned-weaken _ n (length s) (append_nil s b).1 h (append_nil-IsOwned s b)) r
      ∙ append_nil-contents s b

  -- The same of an array that is made of given elements.
  pub elements_kept :
      (n : ℕ) (s : Store A) (xs : List A) {w : Store A}
      → n ≤ length s
      → Writes (Old n) (append_elements s xs).0 w
      → contents w (append_elements s xs).1 ≡ xs
  elements_kept n s xs h r =
      contents-Writes-Old (append_elements s xs).1
        (IsOwned-weaken _ n (length s) (append_elements s xs).1 h (append_elements-IsOwned s xs)) r
      ∙ append_elements-contents s xs

  -- Writes to arrays made since do not reach the original.
  pub original_kept :
      (s : Store A) (b : Slice) {w : Store A}
      → IsHeld s b
      → Writes (New (length s)) (append_nil s b).0 w
      → contents w b ≡ contents s b
  original_kept s b h r =
      contents-Writes-New b h (Writes-trans (append_nil-Writes (New (length s)) s b) r)

  module _ (s : Store A) (a b : Slice) where
    abbrev pub first : Store A
    first = (append_nil s a).0

    pub first-length : length s ≤ length first
    first-length = Writes-length (append_nil-Writes (New 0) s a)

    pub copies_kept :
        {w : Store A}
        → IsHeld s b
        → Writes (Old (length s)) (append_nil first b).0 w
        → (contents w (append_nil s a).1 ≡ contents s a)
          × (contents w (append_nil first b).1 ≡ contents s b)
    copies_kept h r = (
      copy_kept (length s) s a (omega arith)
          (Writes-trans (append_nil-Writes (Old (length s)) first b) r),
      copy_kept (length s) first b first-length r
          ∙ contents-Writes-New b h (append_nil-Writes (New (length s)) s a),
    )

    pub originals_kept :
        {w : Store A}
        → IsHeld s a
        → IsHeld s b
        → Writes (New (length s)) (append_nil first b).0 w
        → (contents w a ≡ contents s a) × (contents w b ≡ contents s b)
    originals_kept h k r =
        let all =
          Writes-trans (append_nil-Writes (New (length s)) s a)
            (Writes-trans (append_nil-Writes (New (length s)) first b) r) in
        (contents-Writes-New a h all, contents-Writes-New b k all)
