-- ===== src/Slicelib/Swaps.antt =====
-- The swaps of UniqByLast reverse the slice, so UniqByLast keeps the last element of each key.
use mathlib.Core.List.{reverse, reverse-append, reverse-cons, reverse-reverse}
use qtfra.Common.{
  ℕ, zero, suc, ◌+◌, ◌-◌, ◌*◌, ◌≤◌, ◌≡◌, ◌⊎◌, true, false, List, [], ◌∷◌, ◌++◌, some, refl, sym, ap,
  ◌∙◌, append_assoc, append-nil, inl, inr, arith,
}
use qtfra.Common.Tests.{Comparable, ltb}
use qtfra.Common.Lists.{length, get_elem?, set, length-append}
use qtfra.Slicelib.{swap, swaps, uniq_by, uniq_by_last}
use qtfra.Slicelib.Uniq.{first_with, Distinct, uniq_by_lem}

module _ {ℓ} {T : Type ℓ} where
  get_elem?-middle :
      (xs : List T) (a : T) (ys : List T) (i : ℕ)
      → i ≡ length xs
      → get_elem? (xs ++ a ∷ ys) i ≡ some a
  get_elem?-middle [] a ys zero e = refl
  get_elem?-middle [] a ys (suc i) e = absurd (omega arith)
  get_elem?-middle (x ∷ xs) a ys zero e = absurd (omega arith)
  get_elem?-middle (x ∷ xs) a ys (suc i) e = get_elem?-middle xs a ys i (omega arith)

  set-middle :
      (xs : List T) (a b : T) (ys : List T) (i : ℕ)
      → i ≡ length xs
      → set (xs ++ a ∷ ys) i b ≡ xs ++ b ∷ ys
  set-middle [] a b ys zero e = refl
  set-middle [] a b ys (suc i) e = absurd (omega arith)
  set-middle (x ∷ xs) a b ys zero e = absurd (omega arith)
  set-middle (x ∷ xs) a b ys (suc i) e = ap (◌∷◌ x) (set-middle xs a b ys i (omega arith))

  swap_lem :
      (xs : List T) (i j : ℕ) (a b : T)
      → get_elem? xs i ≡ some a
      → get_elem? xs j ≡ some b
      → swap xs i j ≡ set (set xs i b) j a
  swap_lem xs i j a b e f = ground arith

  swap_ends :
      (pre : List T) (a : T) (m : List T) (b : T) (post : List T) (i j : ℕ)
      → i ≡ length pre
      → j ≡ length pre + suc (length m)
      → swap (pre ++ a ∷ (m ++ b ∷ post)) i j ≡ pre ++ b ∷ (m ++ a ∷ post)
  swap_ends pre a m b post i j ei ej =
      swap_lem _ i j a b (get_elem?-middle pre a (m ++ b ∷ post) i ei) right
      ∙ (ap (λ t. set t j a) (set-middle pre a b (m ++ b ∷ post) i ei)
          ∙ ap (λ t. set t j a) (sym (append_assoc pre (b ∷ m) (b ∷ post)))
          ∙ set-middle (pre ++ b ∷ m) b a post j (omega (arith, length-append pre (b ∷ m)))
          ∙ append_assoc pre (b ∷ m) (a ∷ post))
    where
      right : get_elem? (pre ++ a ∷ (m ++ b ∷ post)) j ≡ some b
      right =
          ap (λ t. get_elem? t j) (sym (append_assoc pre (a ∷ m) (b ∷ post)))
          ∙ get_elem?-middle (pre ++ a ∷ m) b post j (omega (arith, length-append pre (a ∷ m)))

  -- A list of two elements or more has a first and a last one.
  ends : (a : T) (xs : List T) → (xs ≡ []) ⊎ ((m : List T) × (b : T) × (xs ≡ m ++ b ∷ []))
  ends a [] = inl refl
  ends a (x ∷ xs) = elim (ends x xs) [
    | inl e ↦ inr ([], x, rw e)
    | inr (m, b, e) ↦ inr (x ∷ m, b, rw e)
  ]

  swaps_stop : (rounds i j : ℕ) (xs : List T) → ltb i j ≡ false → swaps rounds i j xs ≡ xs
  unfolding swaps
  swaps_stop zero i j xs h = refl
  swaps_stop (suc rounds) i j xs h = rw h

  swaps_go :
      (rounds i j : ℕ) (xs : List T)
      → ltb i j ≡ true
      → swaps (suc rounds) i j xs ≡ swaps rounds (i + 1) (j - 1) (swap xs i j)
  unfolding swaps
  swaps_go rounds i j xs h = rw h

  reverse_ends :
      (a : T) (m : List T) (b : T) → reverse (a ∷ (m ++ b ∷ [])) ≡ b ∷ (reverse m ++ a ∷ [])
  reverse_ends a m b =
      reverse-cons a (m ++ b ∷ []) ∙ ap (λ t. t ++ a ∷ []) (reverse-append m (b ∷ []))

  swaps-middle :
      (rounds : ℕ) (pre mid post : List T) (i j : ℕ)
      → i ≡ length pre
      → (j + 1 ≡ i + length mid) ⊎ (j ≤ i) × (mid ≡ [])
      → length mid ≤ 2 * rounds + 1
      → swaps rounds i j (pre ++ (mid ++ post)) ≡ pre ++ (reverse mid ++ post)
  swaps-middle rounds pre [] post i j ei ej h = swaps_stop rounds i j (pre ++ post) (ground arith)
  swaps-middle zero pre (a ∷ mid) post i j ei (inr (_, e)) h = cc
  swaps-middle (suc rounds) pre (a ∷ mid) post i j ei (inr (_, e)) h = cc
  swaps-middle zero pre (a ∷ mid) post i j ei (inl ej) h = elim (ends a mid) [
    | inl e ↦ rw e (swaps_stop 0 i j (pre ++ a ∷ post) (ground (arith, ap length e)))
    | inr (m, b, e) ↦ absurd (omega (arith, ap length e, length-append m (b ∷ [])))
  ]
  swaps-middle (suc rounds) pre (a ∷ mid) post i j ei (inl ej) h = elim (ends a mid) [
    | inl e ↦ rw e (swaps_stop (suc rounds) i j (pre ++ a ∷ post) (ground (arith, ap length e)))
    | inr (m, b, e) ↦
        let n : length mid ≡ suc (length m) =
          omega (arith, ap length e, length-append m (b ∷ [])) in
        rw (e, append_assoc m (b ∷ []) post)
          (swaps_go rounds i j (pre ++ a ∷ (m ++ b ∷ post)) (ground arith)
            ∙ ap (swaps rounds (i + 1) (j - 1)) (swap_ends pre a m b post i j ei (omega arith))
            ∙ ap (swaps rounds (i + 1) (j - 1)) (sym (append_assoc pre (b ∷ []) (m ++ a ∷ post)))
            ∙ swaps-middle rounds (pre ++ b ∷ []) m (a ∷ post) (i + 1) (j - 1)
                (omega (arith, length-append pre (b ∷ []))) (inner n) (omega arith)
            ∙ append_assoc pre (b ∷ []) (reverse m ++ a ∷ post)
            ∙ ap (λ t. pre ++ b ∷ t) (sym (append_assoc (reverse m) (a ∷ []) post))
            ∙ ap (λ t. pre ++ (t ++ post)) (sym (reverse_ends a m b)))
  ]
    where
      inner :
          {m : List T}
          → length mid ≡ suc (length m)
          → (j - 1 + 1 ≡ i + 1 + length m) ⊎ (j - 1 ≤ i + 1) × (m ≡ [])
      inner n = inl (omega arith)

  -- The loop that UniqByLast ends with reverses the slice.
  pub swaps-reverse : (xs : List T) → swaps (length xs) 0 (length xs - 1) xs ≡ reverse xs
  swaps-reverse xs =
      ap (swaps (length xs) 0 (length xs - 1)) (sym (append-nil xs))
      ∙ swaps-middle (length xs) [] xs [] 0 (length xs - 1) refl (whole xs) (omega arith)
      ∙ append-nil (reverse xs)
    where
      whole : (xs : List T) → (length xs - 1 + 1 ≡ 0 + length xs) ⊎ (length xs - 1 ≤ 0) × (xs ≡ [])
      whole [] = inr (omega arith, refl)
      whole (x ∷ xs) = inl (omega arith)

module _ {ℓ κ} {T : Type ℓ} {C : Type κ} ⦃e : Comparable C⦄ (block : T → C) where
  -- Read from its end, the result of UniqByLast has no key twice, and for each key that occurs in the
  -- slice it has the last element with that key.
  pub uniq_by_last_lem :
      (arr : List T)
      → Distinct block (reverse (uniq_by_last block arr))
        × ((c : C)
            → first_with block c (reverse (uniq_by_last block arr))
              ≡ first_with block c (reverse arr))
  unfolding uniq_by_last uniq_by
  uniq_by_last_lem arr =
      rw
        (swaps-reverse (uniq_by block (reverse arr)), reverse-reverse (uniq_by block (reverse arr)))
        (uniq_by_lem block (reverse arr))
