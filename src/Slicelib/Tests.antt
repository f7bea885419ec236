-- ===== src/Slicelib/Tests.antt =====
-- The slice functions on concrete inputs.

use mathlib.Core.List.{reverse}
use qtfra.Common.Tests.{nat_comparable}
use qtfra.Common.{ℕ, ◌%◌, ◌≡◌, List, [], ◌∷◌, refl}
use qtfra.Slicelib.{uniq_by, uniq_by_last}
use qtfra.Slicelib.Uniq.{first_with, Distinct, uniq_by_lem}
use qtfra.Slicelib.Swaps.{uniq_by_last_lem}

abbrev last_digit : ℕ → ℕ
last_digit n = n % 10

abbrev numbers : List ℕ
numbers = 11 ∷ 2 ∷ 21 ∷ 3 ∷ 12 ∷ []

uniq_numbers : uniq_by last_digit numbers ≡ 11 ∷ 2 ∷ 3 ∷ []
unfolding uniq_by
uniq_numbers = refl

uniq_last_numbers : uniq_by_last last_digit numbers ≡ 21 ∷ 3 ∷ 12 ∷ []
unfolding uniq_by_last
uniq_last_numbers = refl

uniq_by_lem_example :
    Distinct last_digit (uniq_by last_digit numbers)
    × ((c : ℕ)
        → first_with last_digit c (uniq_by last_digit numbers) ≡ first_with last_digit c numbers)
uniq_by_lem_example = uniq_by_lem last_digit numbers

uniq_by_last_lem_example :
    Distinct last_digit (reverse (uniq_by_last last_digit numbers))
    × ((c : ℕ)
        → first_with last_digit c (reverse (uniq_by_last last_digit numbers))
          ≡ first_with last_digit c (reverse numbers))
uniq_by_last_lem_example = uniq_by_last_lem last_digit numbers
