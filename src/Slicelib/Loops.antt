-- ===== src/Slicelib/Loops.antt =====
-- The loops of enhancements/slicelib/slices.go against the library's functions on lists.
use mathlib.Core.List
use qtfra.Common.{
  ℕ, ◌+◌, ◌≡◌, Bool, List, [], ◌∷◌, ◌++◌, sym, ◌∙◌, append_assoc, append-nil, inl, inr,
}
use qtfra.Common.Tests.{if◌then◌else◌, Bool-cases}
use qtfra.Slicelib.{map_loop, filter_loop, filter, filter_indexed_loop, filter_indexed, is_some}
use qtfra.Slicelib

-- The elements that pass, and those that pass with their index.
abbrev pub passing {ℓ} : {T : Type ℓ} → (T → Bool) → List T → List T
passing block [] = []
passing block (x ∷ xs) = let rest = passing block xs in if block x then x ∷ rest else rest

abbrev pub passing_from {ℓ} : {T : Type ℓ} → (ℕ → T → Bool) → ℕ → List T → List T
passing_from block i [] = []
passing_from block i (x ∷ xs) =
    let rest = passing_from block (i + 1) xs in if block i x then x ∷ rest else rest

map_loop_lem {ℓ κ} :
    {T : Type ℓ} {N : Type κ} (block : T → N) (arr : List T) (ret : List N)
    → map_loop block ret arr ≡ ret ++ List.map block arr
unfolding map_loop
map_loop_lem block [] ret = sym (append-nil ret)
map_loop_lem block (x ∷ xs) ret =
    map_loop_lem block xs (ret ++ block x ∷ [])
    ∙ append_assoc ret (block x ∷ []) (List.map block xs)

module _ {ℓ} {T : Type ℓ} where
  filter_loop_lem :
      (block : T → Bool) (arr ret : List T) → filter_loop block ret arr ≡ ret ++ passing block arr
  unfolding filter_loop
  filter_loop_lem block [] ret = sym (append-nil ret)
  filter_loop_lem block (x ∷ xs) ret = elim (Bool-cases (block x)) [
    | inl passes ↦
        rw passes
          (filter_loop_lem block xs (ret ++ x ∷ []) ∙ append_assoc ret (x ∷ []) (passing block xs))
    | inr fails ↦ rw fails (filter_loop_lem block xs ret)
  ]

  filter_indexed_loop_lem :
      (block : ℕ → T → Bool) (i : ℕ) (arr ret : List T)
      → filter_indexed_loop block i ret arr ≡ ret ++ passing_from block i arr
  unfolding filter_indexed_loop
  filter_indexed_loop_lem block i [] ret = sym (append-nil ret)
  filter_indexed_loop_lem block i (x ∷ xs) ret = elim (Bool-cases (block i x)) [
    | inl passes ↦ rw passes (
        filter_indexed_loop_lem block (i + 1) xs (ret ++ x ∷ [])
        ∙ append_assoc ret (x ∷ []) (passing_from block (i + 1) xs))
    | inr fails ↦ rw fails (filter_indexed_loop_lem block (i + 1) xs ret)
  ]

-- Map is the library's map, and Filter and FilterIndexed keep the elements that pass, in order: without
-- the slice that their loops build.
pub loops_lem {ℓ κ} :
    {T : Type ℓ} {N : Type κ} (block : T → N) (test : T → Bool) (test_at : ℕ → T → Bool)
    (arr : List T)
    → (Slicelib.map block arr ≡ List.map block arr)
      × (filter test arr ≡ passing test arr)
      × (filter_indexed test_at arr ≡ passing_from test_at 0 arr)
unfolding Slicelib.map filter filter_indexed
loops_lem block test test_at arr = (
  map_loop_lem block arr [],
  filter_loop_lem test arr [],
  filter_indexed_loop_lem test_at 0 arr [],
)
