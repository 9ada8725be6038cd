-- ===== src/Control/Clones/Loop.antt =====
-- The loop of `InvalidationBatch.Clone`, event by event: it leaves the new array as if the keys had
-- been copied before the array was made.
use gossipcache.Common.{
  ℕ, zero, suc, ◌<◌, ◌≡◌, refl, sym, ap, ◌∙◌, List, [], ◌∷◌, ◌++◌, length, length-append,
  length-set, get_elem?, get_or, set, some, arith,
}
use gossipcache.Ownership.{Store, view, array, contents, append_elements, append_nil}
use gossipcache.Control.Clones.{
  HeldEvent, Memory, HeldBatch, own_key, clone_keys, clone_all_keys, clone_batch,
}
use gossipcache.Ownership.Frames.{get_or-append_last}
use mathlib.Core.List.{append_assoc}

-- The keys copied in turn, with no array of events.
unfoldable pub with_own_keys : Store ℕ → List HeldEvent → Store ℕ × List HeldEvent
with_own_keys s [] = (s, [])
with_own_keys s (e ∷ events) =
    let key = append_nil s e.key in
    let rest = with_own_keys key.0 events in (rest.0, record e { key = key.1 } ∷ rest.1)

module _ {A : Type 0} where
  get_elem?-append : (xs ys : List A) (x : A) → get_elem? (xs ++ x ∷ ys) (length xs) ≡ some x
  get_elem?-append [] ys x = refl
  get_elem?-append (y ∷ xs) ys x = get_elem?-append xs ys x

  set-append : (xs ys : List A) (x v : A) → set (xs ++ x ∷ ys) (length xs) v ≡ xs ++ v ∷ ys
  set-append [] ys x v = refl
  set-append (y ∷ xs) ys x v = ap (λ t. y ∷ t) (set-append xs ys x v)

  get_or-set_self : (xs : List A) (i : ℕ) (v d : A) → i < length xs → get_or (set xs i v) i d ≡ v
  get_or-set_self [] i v d h = absurd (omega arith)
  get_or-set_self (x ∷ xs) zero v d h = refl
  get_or-set_self (x ∷ xs) (suc i) v d h = get_or-set_self xs i v d (omega arith)

  set-set : (xs : List A) (i : ℕ) (v w : A) → set (set xs i v) i w ≡ set xs i w
  set-set [] i v w = refl
  set-set (x ∷ xs) zero v w = refl
  set-set (x ∷ xs) (suc i) v w = ap (λ t. x ∷ t) (set-set xs i v w)

  set-get_or : (xs : List A) (i : ℕ) (d v : A) → get_or xs i d ≡ v → i < length xs → set xs i v ≡ xs
  set-get_or [] i d v e h = refl
  set-get_or (x ∷ xs) zero d v e h = ap (λ t. t ∷ xs) (sym e)
  set-get_or (x ∷ xs) (suc i) d v e h = ap (λ t. x ∷ t) (set-get_or xs i d v e (omega arith))

-- At index i the array is what the loop has done so far, then the events that are left.
clone_keys-with_own_keys :
    (before events : List HeldEvent) (i address : ℕ) (m : Memory)
    → i ≡ length before
    → address < length m.events
    → array m.events address ≡ before ++ events
    → clone_keys (length events) i address m ≡ record {
      bytes = (with_own_keys m.bytes events).0;
      events = set m.events address (before ++ (with_own_keys m.bytes events).1);
    }
unfolding clone_keys own_key with_own_keys
clone_keys-with_own_keys before [] i address m at h e =
    rw (set-get_or m.events address [] (before ++ []) e h) refl
clone_keys-with_own_keys before (x ∷ events) i address m at h e =
    let key = append_nil m.bytes x.key in
    let own : HeldEvent = record x { key = key.1 } in
    let written = set m.events address (before ++ own ∷ events) in
    let next : Memory = record { bytes = key.0; events = written } in
    let seen : get_elem? (array m.events address) i ≡ some x =
      ap (λ xs. get_elem? xs i) e
      ∙ ap (λ j. get_elem? (before ++ x ∷ events) j) at
      ∙ get_elem?-append before events x in
    let put : set (array m.events address) i own ≡ before ++ own ∷ events =
      ap (λ xs. set xs i own) e
      ∙ ap (λ j. set (before ++ x ∷ events) j own) at
      ∙ set-append before events x own in
    let round : own_key i address m (get_elem? (array m.events address) i) ≡ next =
      ap (own_key i address m) seen
      ∙ ap (λ xs. record { bytes = key.0; events = set m.events address xs }) put in
    let now : array written address ≡ (before ++ own ∷ []) ++ events =
      get_or-set_self m.events address (before ++ own ∷ events) [] h
      ∙ sym (append_assoc before (own ∷ []) events) in
    ap (clone_keys (length events) (suc i) address) round
    ∙ clone_keys-with_own_keys (before ++ own ∷ []) events (suc i) address next
        (omega (arith, at, length-append before (own ∷ [])))
        (omega (arith, h, length-set m.events address (before ++ own ∷ events))) now
    ∙ rw
        (
          set-set m.events address (before ++ own ∷ events),
          append_assoc before (own ∷ []) (with_own_keys key.0 events).1,
        )
        refl

-- A clone made at once: the events, each with its own key, in a new array.
unfoldable pub clone_at_once : Memory → HeldBatch → Memory × HeldBatch
clone_at_once m b =
    let keys = with_own_keys m.bytes (contents m.events b.events) in
    let events = append_elements m.events keys.1 in
    (record { bytes = keys.0; events = events.0 }, record b { events = events.1 })

length-with_own_keys :
    (s : Store ℕ) (events : List HeldEvent) → length (with_own_keys s events).1 ≡ length events
unfolding with_own_keys
length-with_own_keys s [] = refl
length-with_own_keys s (e ∷ events) = ap suc (length-with_own_keys (append_nil s e.key).0 events)

loop_of :
    (m : Memory) (events : List HeldEvent)
    → clone_all_keys
        (append_elements m.events events).1
        (record { bytes = m.bytes; events = (append_elements m.events events).0 })
      ≡ record {
        bytes = (with_own_keys m.bytes events).0;
        events = (append_elements m.events (with_own_keys m.bytes events).1).0;
      }
unfolding clone_all_keys append_elements with_own_keys
loop_of m [] = refl
loop_of m (e ∷ events) =
    let start : Memory = record { bytes = m.bytes; events = m.events ++ (e ∷ events) ∷ [] } in
    clone_keys-with_own_keys [] (e ∷ events) 0 (length m.events) start refl
      (omega (arith, length-append m.events ((e ∷ events) ∷ [])))
      (get_or-append_last m.events (e ∷ events) [])
    ∙ rw (set-append m.events [] (e ∷ events)) refl

slice_of :
    (m : Memory) (events : List HeldEvent)
    → (append_elements m.events events).1
      ≡ (append_elements m.events (with_own_keys m.bytes events).1).1
unfolding append_elements with_own_keys
slice_of m [] = refl
slice_of m (e ∷ events) =
    ap (λ n. view (length m.events) 0 (suc n))
      (sym (length-with_own_keys (append_nil m.bytes e.key).0 events))

-- The loop over the new array leaves the clone that is made at once.
pub clone_batch-clone_at_once : (m : Memory) (b : HeldBatch) → clone_batch m b ≡ clone_at_once m b
unfolding clone_batch clone_at_once append_nil
clone_batch-clone_at_once m b =
    let events = contents m.events b.events in rw (loop_of m events, slice_of m events) refl
