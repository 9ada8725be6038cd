-- ===== src/Ownership.antt =====
-- Go's slices over shared arrays, for the Clone methods. A store holds the arrays of one element
-- type, the newest last; nothing is ever freed.
pub mod Frames
pub mod Copies
use gossipcache.Common.{ℕ, ◌≤◌, ◌<◌, List, [], ◌∷◌, ◌++◌, length, take, drop, get_or, set}

abbrev pub Store {ℓ} : Type ℓ → Type ℓ
Store A = List (List A)

-- A nil slice, or a view of so many elements of an array from an offset on.
pub data Slice : Type 0 where
  nil : Slice
  view : (address offset count : ℕ) → Slice

module _ {ℓ} {A : Type ℓ} where
  abbrev pub array : Store A → ℕ → List A
  array s address = get_or s address []

  unfoldable pub contents : Store A → Slice → List A
  contents s nil = []
  contents s (view address offset count) = take count (drop offset (array s address))

  -- A nil slice with elements appended: nil if there are none, else a new array.
  unfoldable pub append_elements : Store A → List A → Store A × Slice
  append_elements s [] = (s, nil)
  append_elements s (x ∷ xs) = (s ++ (x ∷ xs) ∷ [], view (length s) 0 (length (x ∷ xs)))

  -- `append([]T(nil), b...)`
  unfoldable pub append_nil : Store A → Slice → Store A × Slice
  unfolding append_elements contents
  append_nil s b = append_elements s (contents s b)

  -- The program runs on and changes arrays with addresses in P only, at any index. It may also
  -- make new arrays.
  pub data Writes (P : ℕ → Type 0) : Store A → Store A → Type ℓ where
    done : {s : Store A} → Writes P s s
    write :
        {s t : Store A} (address i : ℕ) (v : A)
        → P address
        → Writes P (set s address (set (array s address) i v)) t
        → Writes P s t
    allocate : {s t : Store A} (xs : List A) → Writes P (s ++ xs ∷ []) t → Writes P s t

-- The addresses of a store of n arrays, and those that are made later.
abbrev pub Old : ℕ → ℕ → Type 0
Old n address = address < n

abbrev pub New : ℕ → ℕ → Type 0
New n address = n ≤ address

module _ {ℓ} {A : Type ℓ} where
  -- The slice has its array in the store.
  abbrev pub IsHeld : Store A → Slice → Type 0
  IsHeld s nil = Unit
  IsHeld s (view address offset count) = address < length s

  -- The slice has its array in the store, behind the first n arrays.
  abbrev pub IsOwned : ℕ → Store A → Slice → Type 0
  IsOwned n s nil = Unit
  IsOwned n s (view address offset count) = (n ≤ address) × (address < length s)
