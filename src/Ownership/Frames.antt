-- ===== src/Ownership/Frames.antt =====
-- What a write to one array leaves alone.
use mathlib.Core.Path.{subst}
use gossipcache.Common.{
  ℕ, zero, suc, ◌≤◌, ◌<◌, ◌≡◌, ◌≢◌, refl, ap, ◌∙◌, List, [], ◌∷◌, ◌++◌, length, take, drop,
  take-length, get_or, set, length-append, length-set, arith,
}
use gossipcache.Ownership.{
  Store, Slice, nil, view, array, contents, append_elements, append_nil, Writes, done, write,
  allocate, Old, New, IsHeld, IsOwned,
}

module _ {ℓ} {A : Type ℓ} where
  get_or-append_old :
      (s : List A) (x d : A) (i : ℕ) → i < length s → get_or (s ++ x ∷ []) i d ≡ get_or s i d
  get_or-append_old [] x d i h = absurd (omega arith)
  get_or-append_old (y ∷ s) x d zero h = refl
  get_or-append_old (y ∷ s) x d (suc i) h = get_or-append_old s x d i (omega arith)

  pub get_or-append_last : (s : List A) (x d : A) → get_or (s ++ x ∷ []) (length s) d ≡ x
  get_or-append_last [] x d = refl
  get_or-append_last (y ∷ s) x d = get_or-append_last s x d

  get_or-set_ne : (s : List A) (x d : A) (i j : ℕ) → i ≢ j → get_or (set s i x) j d ≡ get_or s j d
  get_or-set_ne [] x d i j h = refl
  get_or-set_ne (y ∷ s) x d zero zero h = absurd (h refl)
  get_or-set_ne (y ∷ s) x d zero (suc j) h = refl
  get_or-set_ne (y ∷ s) x d (suc i) zero h = refl
  get_or-set_ne (y ∷ s) x d (suc i) (suc j) h = get_or-set_ne s x d i j (λ e. h (ap suc e))

module _ {ℓ} {A : Type ℓ} where
  -- Writes elsewhere leave an array alone.
  pub array-Writes :
      {P : ℕ → Type 0} {s t : Store A}
      → Writes P s t
      → (address : ℕ) → address < length s
      → ¬ (P address)
      → array t address ≡ array s address
  array-Writes done address h k = refl
  array-Writes {P = P} (write {s} {t} a i v p rest) address h k =
      array-Writes rest address (omega (arith, length-set s a (set (array s a) i v))) k
      ∙ get_or-set_ne s (set (array s a) i v) [] a address (λ e. k (subst P e p))
  array-Writes (allocate {s} {t} xs rest) address h k =
      array-Writes rest address (omega (arith, length-append s (xs ∷ []))) k
      ∙ get_or-append_old s xs [] address h

  pub append_elements-contents :
      (s : Store A) (xs : List A) → contents (append_elements s xs).0 (append_elements s xs).1 ≡ xs
  unfolding append_elements contents
  append_elements-contents s [] = refl
  append_elements-contents s (x ∷ xs) =
      rw (get_or-append_last s (x ∷ xs) []) (ap (λ t. x ∷ t) (take-length xs))

  pub append_elements-IsOwned :
      (s : Store A) (xs : List A)
      → IsOwned (length s) (append_elements s xs).0 (append_elements s xs).1
  unfolding append_elements
  append_elements-IsOwned s [] = tt
  append_elements-IsOwned s (x ∷ xs) = (omega arith, omega (arith, length-append s ((x ∷ xs) ∷ [])))

  pub append_elements-Writes :
      (P : ℕ → Type 0) (s : Store A) (xs : List A) → Writes P s (append_elements s xs).0
  unfolding append_elements
  append_elements-Writes P s [] = done
  append_elements-Writes P s (x ∷ xs) = allocate (x ∷ xs) done

  -- What `append([]T(nil), b...)` does: the copy has the contents of the slice, in a new array, and
  -- no array is written.
  pub append_nil-contents :
      (s : Store A) (b : Slice) → contents (append_nil s b).0 (append_nil s b).1 ≡ contents s b
  unfolding append_nil
  append_nil-contents s b = append_elements-contents s (contents s b)

  pub append_nil-IsOwned :
      (s : Store A) (b : Slice) → IsOwned (length s) (append_nil s b).0 (append_nil s b).1
  unfolding append_nil
  append_nil-IsOwned s b = append_elements-IsOwned s (contents s b)

  pub append_nil-Writes : (P : ℕ → Type 0) (s : Store A) (b : Slice) → Writes P s (append_nil s b).0
  unfolding append_nil
  append_nil-Writes P s b = append_elements-Writes P s (contents s b)

  pub Writes-length : {P : ℕ → Type 0} {s t : Store A} → Writes P s t → length s ≤ length t
  Writes-length done = omega arith
  Writes-length (write {s} {t} a i v p rest) =
      omega (arith, Writes-length rest, length-set s a (set (array s a) i v))
  Writes-length (allocate {s} {t} xs rest) =
      omega (arith, Writes-length rest, length-append s (xs ∷ []))

  -- A slice keeps its contents while only other arrays are written.
  pub contents-Writes-Old :
      {n : ℕ} {s t : Store A} (b : Slice)
      → IsOwned n s b
      → Writes (Old n) s t
      → contents t b ≡ contents s b
  unfolding contents
  contents-Writes-Old nil h w = refl
  contents-Writes-Old {n} (view a o k) h w =
      ap (λ xs. take k (drop o xs)) (array-Writes w a h.1 (λ p. omega (arith, h.0, p)))

  pub contents-Writes-New :
      {s u : Store A} (b : Slice)
      → IsHeld s b
      → Writes (New (length s)) s u
      → contents u b ≡ contents s b
  unfolding contents
  contents-Writes-New nil h w = refl
  contents-Writes-New (view a o k) h w =
      ap (λ xs. take k (drop o xs)) (array-Writes w a h (λ p. omega (arith, h, p)))

  pub IsOwned-Writes :
      {P : ℕ → Type 0} {s t : Store A} (n : ℕ) (b : Slice)
      → IsOwned n s b
      → Writes P s t
      → IsOwned n t b
  IsOwned-Writes n nil h w = tt
  IsOwned-Writes n (view a o k) h w = (h.0, omega (arith, h.1, Writes-length w))

  pub IsHeld-Writes :
      {P : ℕ → Type 0} {s t : Store A} (b : Slice) → IsHeld s b → Writes P s t → IsHeld t b
  IsHeld-Writes nil h w = tt
  IsHeld-Writes (view a o k) h w = omega (arith, h, Writes-length w)

  pub Writes-trans : {P : ℕ → Type 0} {s t u : Store A} → Writes P s t → Writes P t u → Writes P s u
  Writes-trans done w = w
  Writes-trans (write a i v p rest) w = write a i v p (Writes-trans rest w)
  Writes-trans (allocate xs rest) w = allocate xs (Writes-trans rest w)
