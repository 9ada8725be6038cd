-- ===== src/Wire/Partition/Termination.antt =====
-- The loops of xxHash64 in internal/wire/partition.go end by their tests.
use gossipcache.Common.{
  ℕ, ◌*◌, ◌/◌, ◌≤◌, ◌<◌, ◌≡◌, refl, sym, ◌∙◌, List, length, length-drop, arith,
}
use gossipcache.Wire.Partition.{Lanes, stripes, absorb_words}
use gossipcache.Wire.Partition.Reference.{stripes-lanes_after, absorb_words-words}

-- The two loops end by their tests, with less than a stripe or a word left, and more fuel than the
-- rounds that fit the bytes changes nothing: what the model does is what the loops without fuel do.
pub loops_end :
    (fuel hash : ℕ) (v : Lanes) (remaining : List ℕ)
    → length remaining / 8 ≤ fuel
    → (length (stripes fuel v remaining).1 < 32)
      × (stripes fuel v remaining ≡ stripes (length remaining / 32) v remaining)
      × (length (absorb_words fuel hash remaining).1 < 8)
      × (absorb_words fuel hash remaining ≡ absorb_words (length remaining / 8) hash remaining)
loops_end fuel hash v remaining h =
    let count = length remaining / 32 in
    let words = length remaining / 8 in
    let striped = stripes-lanes_after count fuel v remaining refl (omega (arith, h)) in
    let worded = absorb_words-words words fuel hash remaining refl h in
    (
      rw striped (omega (arith, length-drop (32 * count) remaining)),
      striped ∙ sym (stripes-lanes_after count count v remaining refl (omega arith)),
      rw worded (omega (arith, length-drop (8 * words) remaining)),
      worded ∙ sym (absorb_words-words words words hash remaining refl (omega arith)),
    )
