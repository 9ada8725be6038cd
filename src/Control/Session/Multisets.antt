-- ===== src/Control/Session/Multisets.antt =====
-- What `Hello.Validate` of internal/control/types.go promises of the watermarks, as a multiset: the
-- list is in no order, and only counts matter.
use gossipcache.Common.{
  ℕ, ◌+◌, ◌<◌, ◌≤◌, ◌≡◌, ◌↔◌, Bool, true, ◌==◌, false, if◌then◌else◌, refl, ◌∙◌, none, List, [],
  ◌∷◌, length, All, arith,
}
use gossipcache.Wire.Protocol.Negotiation.{IsRange}
use gossipcache.Rpc.Handshake.Session.{IsClusterId}
use gossipcache.Control.Session.{
  StreamWatermark, Hello, contains, validate_hello, max_subscriptions,
}
use gossipcache.Control.Session.Subscriptions.{Distinct, HasGeneration, ids, validate_hello_iff}
use mathlib.Core.Logic.{∥∥₁_elim}
use mathlib.Core.List.{Perm, Permᴰ}
use mathlib.Core.Quot.{lift}
use mathlib.Mathlib.Data.Multiset.Defs.{Multiset, of_list}

module _ {A : Type 0} (p : A → Bool) where
  -- How many elements pass the test.
  abbrev count : List A → ℕ
  count [] = 0
  count (x ∷ xs) = (if p x then 1 else 0) + count xs

  count-Permᴰ : (xs ys : List A) → Permᴰ xs ys → count xs ≡ count ys
  count-Permᴰ _ _ Permᴰ.nil = refl
  count-Permᴰ _ _ (Permᴰ.cons {l₁ = l₁} {l₂ = l₂} e d) = ground (arith, e, count-Permᴰ l₁ l₂ d)
  count-Permᴰ _ _ (Permᴰ.swap e f) = ground (arith, e, f)
  count-Permᴰ _ _ (Permᴰ.trans {l₁} {l₂} {l₃} d d') = count-Permᴰ l₁ l₂ d ∙ count-Permᴰ l₂ l₃ d'

  pub count-Perm : (xs ys : List A) → Perm xs ys → count xs ≡ count ys
  count-Perm xs ys d = ∥∥₁_elim d (hlevel) (count-Permᴰ xs ys)

  unfoldable pub tally : Multiset A → ℕ
  tally = lift (hlevel) count count-Perm

abbrev without_generation : StreamWatermark → Bool
without_generation w = w.hub_generation == 0

-- A hello that a hub can serve, whatever the order of its watermarks.
pub record IsServed (m : Hello) (marks : Multiset StreamWatermark) : Type 0 where
  pub node : 0 < m.node_id
  pub range : IsRange m.protocol
  pub cluster : IsClusterId m.cluster_id
  pub few : tally (λ w. true) marks ≤ max_subscriptions
  pub generations : tally without_generation marks ≡ 0
  pub once : (id : ℕ) → tally (λ w. w.stream_id == id) marks ≤ 1

count-length : (ws : List StreamWatermark) → count (λ w. true) ws ≡ length ws
count-length [] = refl
count-length (w ∷ ws) = omega (arith, count-length ws)

All-count_iff :
    (ws : List StreamWatermark) → All HasGeneration ws ↔ (count without_generation ws ≡ 0)
All-count_iff [] = ground arith
All-count_iff (w ∷ ws) = ground (arith, All-count_iff ws)

contains-count_iff :
    (id : ℕ) (ws : List StreamWatermark)
    → (contains id (ids ws) ≡ false) ↔ (count (λ w. w.stream_id == id) ws ≡ 0)
unfolding contains
contains-count_iff id [] = ground arith
contains-count_iff id (w ∷ ws) = ground (arith, contains-count_iff id ws)

Distinct-count :
    (ws : List StreamWatermark) (id : ℕ) → Distinct (ids ws) → count (λ w. w.stream_id == id) ws ≤ 1
Distinct-count [] id h = omega arith
Distinct-count (w ∷ ws) id (h, k) =
    ground (arith, Distinct-count ws id k, contains-count_iff id ws, h)

count-Distinct :
    (ws : List StreamWatermark)
    → ((id : ℕ) → count (λ w. w.stream_id == id) ws ≤ 1)
    → Distinct (ids ws)
count-Distinct [] h = tt
count-Distinct (w ∷ ws) h = (
  ground (arith, h w.stream_id, contains-count_iff w.stream_id ws),
  count-Distinct ws (λ id. ground (arith, h id)),
)

-- A hello passes the check exactly when it has a node id, a valid protocol range and a cluster id
-- that is not blank, and the multiset of its watermarks has at most 4096 members, none without a
-- generation, and at most one for each stream. The order of the watermarks does not matter.
pub validate_hello-IsServed :
    (m : Hello) → (validate_hello m ≡ none) ↔ IsServed m (of_list m.subscriptions)
unfolding tally
validate_hello-IsServed m = (
  λ e.
      let h = (validate_hello_iff m).0 e in
      record {
        node = h.node;
        range = h.range;
        cluster = h.cluster;
        few = omega (arith, count-length m.subscriptions, h.few);
        generations = (All-count_iff m.subscriptions).0 h.generations;
        once = λ id. Distinct-count m.subscriptions id h.distinct;
      },
  λ s. (validate_hello_iff m).1 (record {
    node = s.node;
    range = s.range;
    cluster = s.cluster;
    few = omega (arith, count-length m.subscriptions, s.few);
    generations = (All-count_iff m.subscriptions).1 s.generations;
    distinct = count-Distinct m.subscriptions s.once;
  }),
)
