-- ===== src/Maplib.antt =====
-- enhancements/maplib/: maps and sets. A map that may be nil is an Option of its entries; a range goes
-- through the entries in the order of the list. A slice as a value is a list, so that copying one
-- changes nothing here.
pub mod Merges
pub mod Indexes
mod Tests
use qtfra.Common.{ℕ, ◌+◌, Bool, true, false, ◌&&◌, List, [], ◌∷◌, Option, none, some}
use qtfra.Common.Tests.{Comparable, ◌==◌, if◌then◌else◌}
use qtfra.Common.Maps.{lookup, insert, erase}

module _ {ℓ} {E : Type ℓ} ⦃c : Comparable E⦄ where
  unfoldable pub index_loop : ℕ → List (E × ℕ) → List E → List (E × ℕ)
  index_loop i ret [] = ret
  index_loop i ret (v ∷ s) = index_loop (i + 1) (insert v i ret) s

  -- IndexMap
  unfoldable pub index_map : List E → List (E × ℕ)
  unfolding index_loop
  index_map s = index_loop 0 [] s

module _ {ℓ κ} {K : Type ℓ} {E : Type κ} ⦃c : Comparable K⦄ (fn : ℕ → E → K) where
  from_slice_loop : ℕ → List (K × E) → List E → List (K × E)
  from_slice_loop i ret [] = ret
  from_slice_loop i ret (v ∷ s) = from_slice_loop (i + 1) (insert (fn i v) v ret) s

  -- FromSliceFunc
  pub from_slice_func : List E → List (K × E)
  unfolding from_slice_loop
  from_slice_func s = from_slice_loop 0 [] s

module _ {ℓ κ} {K : Type ℓ} {V : Type κ} ⦃c : Comparable K⦄ where
  -- `for k, v := range source { destination[k] = v }`
  unfoldable pub put_all : List (K × V) → List (K × V) → List (K × V)
  put_all destination [] = destination
  put_all destination (entry ∷ source) = put_all (insert entry.0 entry.1 destination) source

  -- Merge, and Merge0, which copies the slices that are the values.
  unfoldable pub merge : Option (List (K × V)) → Option (List (K × V)) → Option (List (K × V))
  merge none source = source
  merge (some destination) none = some destination
  merge (some destination) (some source) = some (put_all destination source)

  -- Copy, and Copy0.
  unfoldable pub copy : Option (List (K × V)) → Option (List (K × V))
  copy none = none
  copy (some source) = some (put_all [] source)

  -- Contain: a key of a map, which may be nil.
  unfoldable pub contain : Option (List (K × V)) → K → Bool
  contain none k = false
  contain (some m) k = elim (lookup k m) [ none ↦ false | some v ↦ true ]

module _ {ℓ} {K : Type ℓ} ⦃c : Comparable K⦄ where
  -- Set's methods: a set is a map to true.
  unfoldable pub add : K → List (K × Bool) → List (K × Bool)
  add k s = insert k true s

  unfoldable pub del : K → List (K × Bool) → List (K × Bool)
  del k s = erase k s

  unfoldable pub contains : List (K × Bool) → K → Bool
  contains s k = elim (lookup k s) [ none ↦ false | some v ↦ true ]

  -- ContainAll, whose loop ends at the first key that is missing.
  unfoldable pub contain_all_loop : List (K × Bool) → Bool → List K → Bool
  contain_all_loop s contain [] = contain
  contain_all_loop s contain (k ∷ keys) =
      let rest = contain_all_loop s (contains s k) keys in if contain then rest else contain

  unfoldable pub contain_all : List (K × Bool) → List K → Bool
  contain_all s keys = contain_all_loop s true keys

  -- NewSetFromSlice
  unfoldable pub set_loop : List (K × Bool) → List K → List (K × Bool)
  set_loop set [] = set
  set_loop set (k ∷ s) = set_loop (add k set) s

  unfoldable pub new_set_from_slice : List K → List (K × Bool)
  new_set_from_slice s = set_loop [] s
