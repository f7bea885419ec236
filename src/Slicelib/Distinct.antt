-- ===== src/Slicelib/Distinct.antt =====
-- Slices in which no two elements have one key, changed in one place.
use mathlib.Core.List.{reverse, reverse-cons}
use qtfra.Common.{
  ℕ, zero, suc, ◌≡◌, false, List, [], ◌∷◌, ◌++◌, Option, none, some, refl, sym, ap, subst, ◌∙◌, inl,
  inr, arith,
}
use qtfra.Common.Tests.{Comparable, ◌==◌, beq_iff, beq_sym, if◌then◌else◌, Bool-cases, the_one}
use qtfra.Common.Lists.{get_elem?, set}
use qtfra.Slicelib.Uniq.{first_with, Distinct}

-- The first of two that is there.
abbrev pub or_else {ℓ} : {A : Type ℓ} → Option A → Option A → Option A
or_else none o = o
or_else (some a) o = some a

module _ {ℓ κ} {T : Type ℓ} {C : Type κ} ⦃e : Comparable C⦄ (block : T → C) where
  pub first_with-append :
      (c : C) (xs ys : List T)
      → first_with block c (xs ++ ys) ≡ or_else (first_with block c xs) (first_with block c ys)
  first_with-append c [] ys = refl
  first_with-append c (x ∷ xs) ys = ground (arith, first_with-append c xs ys)

  -- An element of a new key goes to the end.
  pub append-Distinct :
      (xs : List T) (x : T)
      → Distinct block xs
      → first_with block (block x) xs ≡ none
      → Distinct block (xs ++ x ∷ [])
  append-Distinct [] x d new = (refl, tt)
  append-Distinct (y ∷ xs) x (d, ds) new = (
    first_with-append (block y) xs (x ∷ []) ∙ ground (arith, beq_sym (block x) (block y)),
    append-Distinct xs x ds (ground arith),
  )

  -- An element that stands in the slice is found by its key.
  pub first_with-here :
      (xs : List T) (i : ℕ) (old : T) (c : C)
      → get_elem? xs i ≡ some old
      → block old ≡ c
      → first_with block c xs ≡ none
      → ⊥
  first_with-here [] i old c at_i same missing = absurd (ground arith)
  first_with-here (x ∷ xs) zero old c at_i same missing =
      ground (arith, ap block (the_one x old at_i), beq_iff (block x) c)
  first_with-here (x ∷ xs) (suc i) old c at_i same missing =
      first_with-here xs i old c at_i same (ground arith)

  -- The key of the element at an index is not that of another.
  other_key :
      (x : T) (xs : List T) (i : ℕ) (a old : T)
      → first_with block (block x) xs ≡ none
      → get_elem? xs i ≡ some old
      → block old ≡ block a
      → (block a == block x) ≡ false
  other_key x xs i a old new at_i same = elim (Bool-cases (block a == block x)) [
    | inl e' ↦
        absurd
          (first_with-here xs i old (block x) at_i (same ∙ (beq_iff (block a) (block x)).0 e') new)
    | inr differs ↦ differs
  ]

  -- An element takes the place of one with its key.
  pub first_with-set :
      (xs : List T) (i : ℕ) (a old : T)
      → Distinct block xs
      → get_elem? xs i ≡ some old
      → block old ≡ block a
      → (c : C)
      → first_with block c (set xs i a) ≡ (if block a == c then some a else first_with block c xs)
  first_with-set [] i a old d at_i same c = absurd (ground arith)
  first_with-set (x ∷ xs) zero a old d at_i same c =
      ground (arith, beq_iff (block x) c, beq_iff (block a) c, ap block (the_one x old at_i))
  first_with-set (x ∷ xs) (suc i) a old (d, ds) at_i same c = ground (
    arith,
    first_with-set xs i a old ds at_i same c,
    other_key x xs i a old d at_i same,
    beq_iff (block x) c,
    beq_iff (block a) c,
    beq_iff (block a) (block x),
  )

  pub set-Distinct :
      (xs : List T) (i : ℕ) (a old : T)
      → Distinct block xs
      → get_elem? xs i ≡ some old
      → block old ≡ block a
      → Distinct block (set xs i a)
  set-Distinct [] i a old d at_i same = tt
  set-Distinct (x ∷ xs) zero a old (d, ds) at_i same =
      (ap (λ k. first_with block k xs) (sym same ∙ sym (ap block (the_one x old at_i))) ∙ d, ds)
  set-Distinct (x ∷ xs) (suc i) a old (d, ds) at_i same = (
    first_with-set xs i a old ds at_i same (block x)
        ∙ ground (arith, other_key x xs i a old d at_i same),
    set-Distinct xs i a old ds at_i same,
  )

  pub last_apart :
      (xs : List T) (x : T)
      → Distinct block (xs ++ x ∷ [])
      → Distinct block xs × (first_with block (block x) xs ≡ none)
  last_apart [] x d = (tt, refl)
  last_apart (y ∷ xs) x (d, ds) =
      let (rest, new) = last_apart xs x ds in
      (
        (ground (arith, first_with-append (block y) xs (x ∷ [])), rest),
        ground (arith, first_with-append (block y) xs (x ∷ []), beq_sym (block y) (block x)),
      )

  -- A slice without keys twice has them once in whatever direction it is read.
  pub Distinct-reverse :
      (xs : List T)
      → Distinct block (reverse xs)
      → Distinct block xs × ((c : C) → first_with block c xs ≡ first_with block c (reverse xs))
  Distinct-reverse [] d = (tt, λ c. refl)
  Distinct-reverse (x ∷ xs) d =
      let (before, new) =
        last_apart (reverse xs) x (subst (Distinct block) (reverse-cons x xs) d) in
      let (rest, same) = Distinct-reverse xs before in
      (
        (same (block x) ∙ new, rest),
        λ c. found c (same c) new ∙ sym (ap (first_with block c) (reverse-cons x xs)),
      )
    where
      found :
          (c : C)
          → first_with block c xs ≡ first_with block c (reverse xs)
          → first_with block (block x) (reverse xs) ≡ none
          → first_with block c (x ∷ xs) ≡ first_with block c (reverse xs ++ x ∷ [])
      found c same new = elim (Bool-cases (block x == c)) [
        | inl e' ↦
            let none_before : first_with block c (reverse xs) ≡ none =
              ap (λ k. first_with block k (reverse xs)) (sym ((beq_iff (block x) c).0 e')) ∙ new in
            rw e' (sym (first_with-append c (reverse xs) (x ∷ []) ∙ rw (none_before, e') refl))
        | inr differs ↦ ground (arith, differs, same, first_with-append c (reverse xs) (x ∷ []))
      ]
