-- ===== src/Wire/Status/Classes.antt =====
-- The classes of a status, and its text.
use gossipcache.Common.{◌≡◌, ◌↔◌, ◌⊎◌, ◌≤◌, true, arith}
use gossipcache.Wire.Status.{Status, success, status_valid, status_class}
use gossipcache.Wire.Status.{status_retryable, status_terminal}

-- Every code has one class: it is retryable for exactly two codes, a success for exactly three, and
-- terminal otherwise, all undefined codes included.
pub status_class_table :
    (s : Status)
    → ((status_class s ≡ success) ↔ ((s ≡ 0) ⊎ (s ≡ 1) ⊎ (s ≡ 7)))
      × ((status_retryable s ≡ true) ↔ ((s ≡ 2) ⊎ (s ≡ 5)))
      × ((status_terminal s ≡ true) ↔ ((s ≡ 3) ⊎ (s ≡ 4) ⊎ (s ≡ 6) ⊎ (8 ≤ s)))
      × ((status_valid s ≡ true) ⊎ (status_terminal s ≡ true))
unfolding status_class status_retryable status_terminal status_valid
status_class_table s = (ground arith, ground arith, ground arith, ground arith)
