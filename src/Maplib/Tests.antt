-- ===== src/Maplib/Tests.antt =====
-- Maps and sets of numbers.
use qtfra.Common.{ℕ, ◌≡◌, ◌↔◌, false, ◌||◌, List, [], ◌∷◌, Option, none, some, refl}
use qtfra.Common.Tests.{if◌then◌else◌, nat_comparable, nat_beq}
use qtfra.Common.Maps.{lookup}
use qtfra.Maplib.{merge, copy, add, del, contains, contain_all, new_set_from_slice}
use qtfra.Maplib.Merges.{OneEach, find, or_else, among, all_in, find-merge, find-copy, set_lem}

abbrev left : List (ℕ × ℕ)
left = (1, 10) ∷ (2, 20) ∷ []

abbrev right : List (ℕ × ℕ)
right = (2, 21) ∷ (3, 31) ∷ []

right-OneEach : OneEach right
unfolding lookup
right-OneEach = (refl, (refl, tt))

find-merge_example :
    find 2 (merge (some left) (some right)) ≡ or_else (find 2 (some right)) (find 2 (some left))
find-merge_example = find-merge 2 (some left) (some right) right-OneEach

right_copied :
    ((copy (some right) ≡ none) ↔ (◌≡◌ {A = Option (List (ℕ × ℕ))} (some right) none))
    × ((k : ℕ) → find k (copy (some right)) ≡ find k (some right))
right_copied = find-copy (some right) right-OneEach

abbrev numbers : List ℕ
numbers = 4 ∷ 5 ∷ 4 ∷ []

abbrev asked : List ℕ
asked = 5 ∷ 4 ∷ []

numbers_in_set :
    (contains (new_set_from_slice numbers) 5 ≡ among numbers 5)
    × (contains (add 6 (new_set_from_slice numbers)) 5 ≡ (nat_beq 5 6 || among numbers 5))
    × (contains (del 4 (new_set_from_slice numbers)) 5
        ≡ (if nat_beq 5 4 then false else among numbers 5))
    × (contain_all (new_set_from_slice numbers) asked ≡ all_in (new_set_from_slice numbers) asked)
numbers_in_set = set_lem numbers asked 5 6 4
