-- ===== src/Errors/Closed.antt =====
-- Conversions that fail closed: whoever ignores the error still holds a value that `Validate`
-- refuses.
use gossipcache.Common.{◌≡◌, ◌≢◌, ◌↔◌, none}
use gossipcache.Errors.{Check, Result, ok, err, conclude}

abbrev pub FailsClosed : {P M : Type 0} → (M → Check) → (P → M × Check) → Type 0
FailsClosed {P} {M} validate convert =
    (p : P) → (validate (convert p).0 ≡ none) ↔ ((convert p).1 ≡ none)

-- A conversion that ends in its validation fails closed if the zero value is invalid.
pub conclude-FailsClosed :
    {M : Type 0} (zero : M) (validate : M → Check)
    → validate zero ≢ none
    → (r : Result M)
    → (validate (conclude zero validate r).0 ≡ none) ↔ ((conclude zero validate r).1 ≡ none)
conclude-FailsClosed zero validate h (ok out) = (λ e. e, λ e. e)
conclude-FailsClosed zero validate h (err e) = (λ q. absurd (h q), λ q. cc)
