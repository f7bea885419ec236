-- ===== src/Maplib/Indexes.antt =====
-- What IndexMap of enhancements/maplib/from.go finds of a slice.
use qtfra.Common.{
  ℕ, zero, suc, ◌+◌, ◌≡◌, ◌⊎◌, List, [], ◌∷◌, none, some, sym, ap, ◌∙◌, inl, inr, arith,
}
use qtfra.Common.Tests.{Comparable, ◌==◌, beq_iff, Bool-cases}
use qtfra.Common.Lists.{get_elem?}
use qtfra.Common.Maps.{lookup, insert, lookup-insert}
use qtfra.Maplib.{index_loop, index_map}

module _ {ℓ} {E : Type ℓ} ⦃c : Comparable E⦄ where
  -- The element stands at the index; it stands nowhere.
  abbrev pub StandsAt : E → ℕ → List E → Type ℓ
  StandsAt k i s = get_elem? s i ≡ some k

  abbrev pub StandsNowhere : E → List E → Type ℓ
  StandsNowhere k s = (i : ℕ) → get_elem? s i ≡ some k → ⊥

  loop_found :
      (i : ℕ) (ret : List (E × ℕ)) (s : List E) (k : E) (j : ℕ)
      → lookup k (index_loop i ret s) ≡ some j
      → (lookup k ret ≡ some j) ⊎ ((n : ℕ) × (j ≡ i + n) × StandsAt k n s)
  unfolding index_loop
  loop_found i ret [] k j e = inl e
  loop_found i ret (v ∷ s) k j e = elim (loop_found (i + 1) (insert v i ret) s k j e) [
    | inr (n, at_n, stands) ↦ inr (suc n, omega arith, stands)
    | inl before ↦ elim (Bool-cases (k == v)) [
      | inl same ↦
          inr (zero, ground (arith, lookup-insert k v i ret), ap some (sym ((beq_iff k v).0 same)))
      | inr differs ↦ inl (ground (arith, lookup-insert k v i ret))
    ]
  ]

  loop_missing :
      (i : ℕ) (ret : List (E × ℕ)) (s : List E) (k : E)
      → lookup k (index_loop i ret s) ≡ none
      → (lookup k ret ≡ none) × StandsNowhere k s
  unfolding index_loop
  loop_missing i ret [] k e = (e, λ n stands. absurd (ground arith))
  loop_missing i ret (v ∷ s) k e =
      let (before, after) = loop_missing (i + 1) (insert v i ret) s k e in
      (ground (arith, lookup-insert k v i ret), nowhere before after)
    where
      nowhere : lookup k (insert v i ret) ≡ none → StandsNowhere k s → StandsNowhere k (v ∷ s)
      nowhere before after zero stands = ground (arith, lookup-insert k v i ret, beq_iff k v)
      nowhere before after (suc n) stands = after n stands

  -- What IndexMap has under an element is an index at which it stands; an element without an entry
  -- stands nowhere.
  pub index_map-StandsAt :
      (s : List E) (k : E) (j : ℕ) → lookup k (index_map s) ≡ some j → StandsAt k j s
  unfolding index_map lookup
  index_map-StandsAt s k j e = elim (loop_found 0 [] s k j e) [
    | inl before ↦ absurd (ground arith)
    | inr (n, at_n, stands) ↦ (let same : j ≡ n = omega arith in ap (get_elem? s) same ∙ stands)
  ]

  pub index_map-StandsNowhere :
      (s : List E) (k : E) → lookup k (index_map s) ≡ none → StandsNowhere k s
  unfolding index_map
  index_map-StandsNowhere s k e = (loop_missing 0 [] s k e).1
