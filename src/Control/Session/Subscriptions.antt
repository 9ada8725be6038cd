-- ===== src/Control/Session/Subscriptions.antt =====
-- The hellos and subscriptions that internal/control/types.go accepts.
use gossipcache.Common.{
  ℕ, ◌<◌, ◌≤◌, ◌≡◌, refl, ◌↔◌, false, none, List, [], ◌∷◌, length, All, arith, is_blank_iff,
}
use gossipcache.Wire.Protocol.Negotiation.{IsRange, validate_protocol_range_iff}
use gossipcache.Rpc.Handshake.Session.{IsClusterId}
use gossipcache.Control.Session.{
  StreamWatermark, Hello, Subscribe, contains, check_watermarks, check_stream_ids, validate_hello,
  validate_subscribe, max_subscriptions,
}

-- No id stands twice in the list.
abbrev pub Distinct : List ℕ → Type 0
Distinct [] = Unit
Distinct (x ∷ xs) = (contains x xs ≡ false) × Distinct xs

-- No id of the list is among those seen.
abbrev Fresh : List ℕ → List ℕ → Type 0
Fresh seen [] = Unit
Fresh seen (x ∷ xs) = (contains x seen ≡ false) × Fresh seen xs

Fresh-cons :
    (x : ℕ) (seen xs : List ℕ) → Fresh (x ∷ seen) xs ↔ ((contains x xs ≡ false) × Fresh seen xs)
unfolding contains
Fresh-cons x seen [] = ground arith
Fresh-cons x seen (y ∷ xs) = ground (arith, Fresh-cons x seen xs)

Fresh-nil : (xs : List ℕ) → Fresh [] xs
unfolding contains
Fresh-nil [] = tt
Fresh-nil (x ∷ xs) = (refl, Fresh-nil xs)

check_stream_ids_iff :
    (seen ids : List ℕ) → (check_stream_ids seen ids ≡ none) ↔ (Distinct ids × Fresh seen ids)
unfolding check_stream_ids
check_stream_ids_iff seen [] = ground arith
check_stream_ids_iff seen (x ∷ ids) =
    ground (arith, check_stream_ids_iff (x ∷ seen) ids, Fresh-cons x seen ids)

-- A subscription passes exactly when it names a generation and 1 to 4096 streams, none twice.
pub validate_subscribe_iff :
    (m : Subscribe)
    → (validate_subscribe m ≡ none) ↔ (
        (0 < m.hub_generation)
        × (0 < length m.stream_ids)
        × (length m.stream_ids ≤ max_subscriptions)
        × Distinct m.stream_ids)
unfolding validate_subscribe
validate_subscribe_iff m =
    ground (arith, check_stream_ids_iff [] m.stream_ids, Fresh-nil m.stream_ids)

abbrev pub ids : List StreamWatermark → List ℕ
ids [] = []
ids (s ∷ subscriptions) = s.stream_id ∷ ids subscriptions

abbrev pub HasGeneration : StreamWatermark → Type 0
HasGeneration s = 0 < s.hub_generation

check_watermarks_iff :
    (seen : List ℕ) (ws : List StreamWatermark)
    → (check_watermarks seen ws ≡ none)
      ↔ (All HasGeneration ws × Distinct (ids ws) × Fresh seen (ids ws))
unfolding check_watermarks
check_watermarks_iff seen [] = ground arith
check_watermarks_iff seen (w ∷ ws) =
    ground
      (arith, check_watermarks_iff (w.stream_id ∷ seen) ws, Fresh-cons w.stream_id seen (ids ws))

pub record IsHello (m : Hello) : Type 0 where
  pub node : 0 < m.node_id
  pub range : IsRange m.protocol
  pub cluster : IsClusterId m.cluster_id
  pub few : length m.subscriptions ≤ max_subscriptions
  pub generations : All HasGeneration m.subscriptions
  pub distinct : Distinct (ids m.subscriptions)

-- A hello passes exactly when it has a node id, a valid range and a cluster id that is not blank,
-- and at most 4096 watermarks, each with a generation and no two of one stream.
pub validate_hello_iff : (m : Hello) → (validate_hello m ≡ none) ↔ IsHello m
unfolding validate_hello
validate_hello_iff m = ground (
  arith,
  validate_protocol_range_iff m.protocol,
  is_blank_iff m.cluster_id,
  check_watermarks_iff [] m.subscriptions,
  Fresh-nil (ids m.subscriptions),
)
