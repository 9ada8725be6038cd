-- ===== src/Errors/Outcomes.antt =====
-- The outcomes of a check form a set: whether two of them agree holds no further data.
use gossipcache.Errors.{Check}
use text.Mathlib.TextEquality.{IsScalar-prop}

pub Check-set : IsSet Check
Check-set = hlevel IsScalar-prop
