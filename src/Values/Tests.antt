-- ===== src/Values/Tests.antt =====
-- Bounds on concrete numbers.
use qtfra.Common.{ℕ, ◌≤◌, ◌<◌, ◌≡◌, ◌⊎◌, arith}
use qtfra.Values.{use_between}
use qtfra.Values.Bounds.{use_between_lem}

abbrev low : ℕ
low = 3

abbrev high : ℕ
high = 9

five_bounded :
    (low ≤ use_between 5 low high)
    × (use_between 5 low high ≤ high)
    × ((use_between 5 low high ≡ 5) ⊎ (5 < low) ⊎ (high < 5))
    × (use_between 5 low high ≤ use_between 12 low high)
five_bounded = use_between_lem 5 12 low high (omega arith) (omega arith)
