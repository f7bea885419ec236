-- ===== src/Slicelib.antt =====
-- enhancements/slicelib/slices.go. A slice is a list: the nil slice and an empty one are not told
-- apart. Each loop is a recursion on the elements left, with the slice built so far in hand; a loop
-- that goes down the indices is one on the reversed list. A `seen` map is the list of its keys.
pub mod Uniq
pub mod Swaps
pub mod Loops
pub mod Distinct
mod Tests
use mathlib.Core.List.{reverse}
use qtfra.Common.{
  ℕ, zero, suc, ◌+◌, ◌-◌, Bool, true, false, not, ◌||◌, List, [], ◌∷◌, ◌++◌, Option, none, some,
}
use qtfra.Common.Tests.{Comparable, beq_iff, ◌==◌, if◌then◌else◌, ltb}
use qtfra.Common.Lists.{length, get_elem?, set}

module _ {ℓ κ} {T : Type ℓ} {N : Type κ} (block : T → N) where
  unfoldable pub map_loop : List N → List T → List N
  map_loop ret_arr [] = ret_arr
  map_loop ret_arr (it ∷ arr) = map_loop (ret_arr ++ block it ∷ []) arr

  -- Map
  unfoldable pub map : List T → List N
  unfolding map_loop
  map arr = map_loop [] arr

module _ {ℓ} {T : Type ℓ} where
  unfoldable pub filter_loop : (T → Bool) → List T → List T → List T
  filter_loop block ret_arr [] = ret_arr
  filter_loop block ret_arr (it ∷ arr) =
      filter_loop block (if block it then ret_arr ++ it ∷ [] else ret_arr) arr

  -- Filter
  unfoldable pub filter : (T → Bool) → List T → List T
  unfolding filter_loop
  filter block arr = filter_loop block [] arr

module _ {ℓ} {T : Type ℓ} where
  abbrev pub is_some : Option T → Bool
  is_some none = false
  is_some (some it) = true

  -- FilterNotNil: `none` is nil.
  unfoldable pub filter_not_nil : List (Option T) → List (Option T)
  unfolding filter
  filter_not_nil arr = filter is_some arr

  -- FilterNotDefault, for the type's default value.
  pub filter_not_default : ⦃e : Comparable T⦄ → T → List T → List T
  unfolding filter
  filter_not_default default_value arr = filter (λ it. not (it == default_value)) arr

  unfoldable pub filter_indexed_loop : (ℕ → T → Bool) → ℕ → List T → List T → List T
  filter_indexed_loop block index ret_arr [] = ret_arr
  filter_indexed_loop block index ret_arr (it ∷ arr) =
      filter_indexed_loop block (index + 1) (if block index it then ret_arr ++ it ∷ [] else ret_arr)
        arr

  -- FilterIndexed
  unfoldable pub filter_indexed : (ℕ → T → Bool) → List T → List T
  unfolding filter_indexed_loop
  filter_indexed block arr = filter_indexed_loop block 0 [] arr

  -- result[i], result[j] = result[j], result[i]
  abbrev pub swap : List T → ℕ → ℕ → List T
  swap xs i j = elim (get_elem? xs i) [
    | none ↦ xs
    | some a ↦ elim (get_elem? xs j) [ none ↦ xs | some b ↦ set (set xs i b) j a ]
  ]

  -- The loop that reverses in place: `i` goes up and `j` down until they meet.
  pub swaps : ℕ → ℕ → ℕ → List T → List T
  swaps zero i j xs = xs
  swaps (suc rounds) i j xs =
      let again = swaps rounds (i + 1) (j - 1) (swap xs i j) in if ltb i j then again else xs

-- `_, ok := seen[c]`
abbrev pub contains {ℓ} : {C : Type ℓ} ⦃e : Comparable C⦄ → List C → C → Bool
contains [] c = false
contains (x ∷ seen) c = x == c || contains seen c

module _ {ℓ κ} {T : Type ℓ} {C : Type κ} ⦃e : Comparable C⦄ (block : T → C) where
  uniq_by_loop : List C → List T → List T → List T
  uniq_by_loop seen result [] = result
  uniq_by_loop seen result (item ∷ arr) =
      let c = block item in
      let old = contains seen c in
      uniq_by_loop (if old then seen else c ∷ seen) (if old then result else result ++ item ∷ [])
        arr

  -- UniqBy
  unfoldable pub uniq_by : List T → List T
  unfolding uniq_by_loop
  uniq_by arr = uniq_by_loop [] [] arr

  -- UniqByLast
  unfoldable pub uniq_by_last : List T → List T
  unfolding uniq_by_loop swaps
  uniq_by_last arr =
      let result = uniq_by_loop [] [] (reverse arr) in
      swaps (length result) 0 (length result - 1) result

-- Uniq: UniqBy with the element itself for a key.
pub uniq {ℓ} : {T : Type ℓ} ⦃e : Comparable T⦄ → List T → List T
unfolding uniq_by
uniq arr = uniq_by (λ it. it) arr
