-- ===== src/Slicelib/Uniq.antt =====
-- UniqBy keeps the first element of each key.
use qtfra.Common.{
  ◌≡◌, List, [], ◌∷◌, ◌++◌, Option, none, some, refl, sym, ◌∙◌, append_assoc, append-nil, inl, inr,
  arith,
}
use qtfra.Common.Tests.{Comparable, beq_iff, ◌==◌, if◌then◌else◌, Bool-cases}
use qtfra.Slicelib.{contains, uniq_by_loop, uniq_by}

module _ {ℓ κ} {T : Type ℓ} {C : Type κ} ⦃e : Comparable C⦄ (block : T → C) where
  -- The first element with the key.
  abbrev pub first_with : C → List T → Option T
  first_with c [] = none
  first_with c (x ∷ xs) = if block x == c then some x else first_with c xs

  -- No two elements have one key.
  abbrev pub Distinct : List T → Type ℓ
  Distinct [] = Unit
  Distinct (x ∷ xs) = (first_with (block x) xs ≡ none) × Distinct xs

  -- The elements whose key is not seen, nor that of an element before them.
  firsts : List C → List T → List T
  firsts seen [] = []
  firsts seen (x ∷ xs) =
      let skip = firsts seen xs in
      let keep = x ∷ firsts (block x ∷ seen) xs in if contains seen (block x) then skip else keep

  loop-firsts :
      (seen : List C) (result arr : List T)
      → uniq_by_loop block seen result arr ≡ result ++ firsts seen arr
  unfolding uniq_by_loop firsts
  loop-firsts seen result [] = sym (append-nil result)
  loop-firsts seen result (x ∷ xs) = elim (Bool-cases (contains seen (block x))) [
    | inl old ↦ rw old (loop-firsts seen result xs)
    | inr new ↦ rw new (
        loop-firsts (block x ∷ seen) (result ++ x ∷ []) xs
        ∙ append_assoc result (x ∷ []) (firsts (block x ∷ seen) xs))
  ]

  first_with-firsts :
      (c : C) (seen : List C) (arr : List T)
      → first_with c (firsts seen arr) ≡ (if contains seen c then none else first_with c arr)
  unfolding firsts
  first_with-firsts c seen [] = ground arith
  first_with-firsts c seen (x ∷ xs) = ground (
    arith,
    beq_iff (block x) c,
    first_with-firsts c seen xs,
    first_with-firsts c (block x ∷ seen) xs,
  )

  firsts-Distinct : (seen : List C) (arr : List T) → Distinct (firsts seen arr)
  unfolding firsts
  firsts-Distinct seen [] = tt
  firsts-Distinct seen (x ∷ xs) = elim (Bool-cases (contains seen (block x))) [
    | inl old ↦ rw old (firsts-Distinct seen xs)
    | inr new ↦ rw new (
      first_with-firsts (block x) (block x ∷ seen) xs ∙ rw ((beq_iff (block x) (block x)).1 refl),
      firsts-Distinct (block x ∷ seen) xs,
    )
  ]

  -- The result of UniqBy has no key twice, and for each key that occurs in the slice it has the first
  -- element with that key.
  pub uniq_by_lem :
      (arr : List T)
      → Distinct (uniq_by block arr)
        × ((c : C) → first_with c (uniq_by block arr) ≡ first_with c arr)
  unfolding uniq_by
  uniq_by_lem arr =
      rw (loop-firsts [] [] arr) (firsts-Distinct [] arr, λ c. first_with-firsts c [] arr)
