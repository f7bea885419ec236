-- ===== src/Maplib/Merges.antt =====
-- What the maps hold afterwards.
use qtfra.Common.{
  ◌≡◌, ◌↔◌, Bool, true, false, ◌&&◌, ◌||◌, List, [], ◌∷◌, Option, none, some, refl, ◌∙◌, arith,
}
use qtfra.Common.Tests.{Comparable, ◌==◌, if◌then◌else◌, beq_iff}
use qtfra.Common.Maps.{lookup, insert, lookup-insert, lookup-erase}
use qtfra.Maplib.{
  put_all, merge, copy, add, del, contains, contain_all_loop, contain_all, set_loop,
  new_set_from_slice,
}

module _ {κ} {V : Type κ} where
  abbrev pub or_else : Option V → Option V → Option V
  or_else (some v) other = some v
  or_else none other = other

module _ {ℓ κ} {K : Type ℓ} {V : Type κ} ⦃c : Comparable K⦄ where
  -- No key stands twice.
  abbrev pub OneEach : List (K × V) → Type κ
  OneEach [] = Unit
  OneEach (entry ∷ m) = (lookup entry.0 m ≡ none) × OneEach m

  lookup-put_all :
      (k : K) (destination source : List (K × V))
      → OneEach source
      → lookup k (put_all destination source) ≡ or_else (lookup k source) (lookup k destination)
  unfolding put_all lookup
  lookup-put_all k destination [] o = refl
  lookup-put_all k destination (entry ∷ source) (fresh, o) = ground (
    arith,
    lookup-put_all k (insert entry.0 entry.1 destination) source o,
    lookup-insert k entry.0 entry.1 destination,
    fresh,
    beq_iff k entry.0,
  )

  -- The entries of a map that may be nil.
  abbrev pub find : K → Option (List (K × V)) → Option V
  find k none = none
  find k (some m) = lookup k m

  abbrev pub OneEachOf : Option (List (K × V)) → Type κ
  OneEachOf none = Unit
  OneEachOf (some m) = OneEach m

  -- Merge, nil maps included: the result has under each key what the source has there, and what the
  -- destination has where the source has nothing; the source must have no key twice, as a Go map has.
  pub find-merge :
      (k : K) (destination source : Option (List (K × V)))
      → OneEachOf source
      → find k (merge destination source) ≡ or_else (find k source) (find k destination)
  unfolding merge
  find-merge k none none o = refl
  find-merge k none (some source) o = ground arith
  find-merge k (some destination) none o = refl
  find-merge k (some destination) (some source) o = lookup-put_all k destination source o

  -- A copy has what the map has, under every key; a nil map is copied to nil.
  pub find-copy :
      (source : Option (List (K × V)))
      → OneEachOf source
      → ((copy source ≡ none) ↔ (source ≡ none)) × ((k : K) → find k (copy source) ≡ find k source)
  unfolding copy lookup
  find-copy none o = ((λ e. refl, λ e. refl), λ k. refl)
  find-copy (some source) o = (
    (λ e. absurd (ground arith), λ e. absurd (ground arith)),
    λ k. ground (arith, lookup-put_all k [] source o),
  )

module _ {ℓ} {K : Type ℓ} ⦃c : Comparable K⦄ where
  -- Whether the slice has the key.
  abbrev pub among : List K → K → Bool
  among [] k = false
  among (x ∷ xs) k = k == x || among xs k

  -- Whether the set has each of the keys.
  abbrev pub all_in : List (K × Bool) → List K → Bool
  all_in s [] = true
  all_in s (k ∷ keys) = contains s k && all_in s keys

  contains-add : (s : List (K × Bool)) (k x : K) → contains (add x s) k ≡ (k == x || contains s k)
  unfolding contains add
  contains-add s k x = ground (arith, lookup-insert k x true s)

  contains-del :
      (s : List (K × Bool)) (k x : K)
      → contains (del x s) k ≡ (if k == x then false else contains s k)
  unfolding contains del
  contains-del s k x = ground (arith, lookup-erase k x s)

  contains-set_loop :
      (s : List (K × Bool)) (keys : List K) (k : K)
      → contains (set_loop s keys) k ≡ (contains s k || among keys k)
  unfolding set_loop
  contains-set_loop s [] k = ground arith
  contains-set_loop s (x ∷ keys) k =
      ground (arith, contains-set_loop (add x s) keys k, contains-add s k x)

  contain_all_loop-all_in :
      (s : List (K × Bool)) (contain : Bool) (keys : List K)
      → contain_all_loop s contain keys ≡ (contain && all_in s keys)
  unfolding contain_all_loop
  contain_all_loop-all_in s contain [] = ground arith
  contain_all_loop-all_in s contain (k ∷ keys) =
      ground (arith, contain_all_loop-all_in s (contains s k) keys)

  -- A set made from a slice has the elements of the slice and no others, also after an Add and a Del
  -- of any keys, where the key added last is there and the one deleted is not; ContainAll says whether
  -- all of the keys that it is given are there.
  pub set_lem :
      (xs keys : List K) (k added gone : K)
      → (contains (new_set_from_slice xs) k ≡ among xs k)
        × (contains (add added (new_set_from_slice xs)) k ≡ (k == added || among xs k))
        × (contains (del gone (new_set_from_slice xs)) k
            ≡ (if k == gone then false else among xs k))
        × (contain_all (new_set_from_slice xs) keys ≡ all_in (new_set_from_slice xs) keys)
  unfolding new_set_from_slice contain_all contains lookup
  set_lem xs keys k added gone =
      let made : contains (set_loop [] xs) k ≡ among xs k =
        contains-set_loop [] xs k ∙ nothing k (among xs k) in
      (
        made,
        ground (arith, contains-add (set_loop [] xs) k added),
        ground (arith, contains-del (set_loop [] xs) k gone),
        ground (arith, contain_all_loop-all_in (set_loop [] xs) true keys),
      )
    where
      nothing : (k : K) (b : Bool) → (contains [] k || b) ≡ b
      nothing k b = refl
