-- ===== src/Common/Windows.antt =====
-- Reading a window of a list that has been written over.
use Prim.Native.Nat.{ℕ, zero, suc, ◌+◌, ◌-◌, ◌≤◌, ◌<◌, min}
use mathlib.Core.Path.{◌≡◌, refl, sym, ap, ◌∙◌}
use mathlib.Core.Option.{some}
use mathlib.Core.List.{List, [], ◌∷◌, ◌++◌}
use native.Mathlib.Omega.{arith}
use qtfra.Common.Lists.{length, get_elem?, take, drop, window, overwrite, length-take, length-drop}

module _ {ℓ} {A : Type ℓ} where
  pub length-overwrite :
      (xs : List A) (i : ℕ) (bs : List A) → length (overwrite xs i bs) ≡ length xs
  length-overwrite [] i bs = refl
  length-overwrite (x ∷ xs) (suc i) bs = ap suc (length-overwrite xs i bs)
  length-overwrite (x ∷ xs) zero [] = refl
  length-overwrite (x ∷ xs) zero (b ∷ bs) = ap suc (length-overwrite xs zero bs)

  drop-overwrite :
      (r k j : ℕ) (xs bs : List A)
      → j ≡ r + k
      → drop r (overwrite xs j bs) ≡ overwrite (drop r xs) k bs
  drop-overwrite zero k j xs bs e = ap (λ i. overwrite xs i bs) (omega arith)
  drop-overwrite (suc r) k j [] bs e = refl
  drop-overwrite (suc r) k zero (x ∷ xs) bs e = absurd (omega arith)
  drop-overwrite (suc r) k (suc j) (x ∷ xs) bs e = drop-overwrite r k j xs bs (omega arith)

  take-overwrite :
      (k j : ℕ) (xs bs : List A)
      → j ≡ k + length bs
      → j ≤ length xs
      → take j (overwrite xs k bs) ≡ take k xs ++ bs
  take-overwrite zero zero xs [] e h = refl
  take-overwrite zero (suc j) xs [] e h = absurd (omega arith)
  take-overwrite zero zero xs (b ∷ bs) e h = absurd (omega arith)
  take-overwrite zero (suc j) [] (b ∷ bs) e h = absurd (omega arith)
  take-overwrite zero (suc j) (x ∷ xs) (b ∷ bs) e h =
      ap (◌∷◌ b) (take-overwrite zero j xs bs (omega arith) (omega arith))
  take-overwrite (suc k) zero xs bs e h = absurd (omega arith)
  take-overwrite (suc k) (suc j) [] bs e h = absurd (omega arith)
  take-overwrite (suc k) (suc j) (x ∷ xs) bs e h =
      ap (◌∷◌ x) (take-overwrite k j xs bs (omega arith) (omega arith))

  pub length-window :
      (xs : List A) (lo hi : ℕ) → hi ≤ length xs → length (window xs lo hi) ≡ hi - lo
  length-window xs lo hi h = omega (arith, length-take (hi - lo) (drop lo xs), length-drop lo xs)

  -- What is written at the end of a window is appended to it.
  pub window-overwrite :
      (xs bs : List A) (lo hi : ℕ)
      → lo ≤ hi
      → hi + length bs ≤ length xs
      → window (overwrite xs hi bs) lo (hi + length bs) ≡ window xs lo hi ++ bs
  window-overwrite xs bs lo hi h k =
      ap (take (hi + length bs - lo)) (drop-overwrite lo (hi - lo) hi xs bs (omega arith))
      ∙ take-overwrite (hi - lo) (hi + length bs - lo) (drop lo xs) bs (omega arith)
          (omega (arith, length-drop lo xs))

  drop-drop : (m n j : ℕ) (xs : List A) → j ≡ n + m → drop m (drop n xs) ≡ drop j xs
  drop-drop m zero j xs e = ap (λ k. drop k xs) (omega arith)
  drop-drop m (suc n) zero xs e = absurd (omega arith)
  drop-drop zero (suc n) (suc j) [] e = refl
  drop-drop (suc m) (suc n) (suc j) [] e = refl
  drop-drop m (suc n) (suc j) (x ∷ xs) e = drop-drop m n j xs (omega arith)

  drop-take : (m n k : ℕ) (xs : List A) → n ≡ m + k → drop m (take n xs) ≡ take k (drop m xs)
  drop-take zero n k xs e = ap (λ i. take i xs) (omega arith)
  drop-take (suc m) zero k xs e = absurd (omega arith)
  drop-take (suc m) (suc n) zero [] e = refl
  drop-take (suc m) (suc n) (suc k) [] e = refl
  drop-take (suc m) (suc n) k (x ∷ xs) e = drop-take m n k xs (omega arith)

  take-take : (m n : ℕ) (xs : List A) → m ≤ n → take m (take n xs) ≡ take m xs
  take-take zero n xs h = refl
  take-take (suc m) zero xs h = absurd (omega arith)
  take-take (suc m) (suc n) [] h = refl
  take-take (suc m) (suc n) (x ∷ xs) h = ap (◌∷◌ x) (take-take m n xs (omega arith))

  -- Moving the start of a window forward drops elements.
  pub window-drop :
      (xs : List A) (lo mid hi : ℕ)
      → lo ≤ mid
      → mid ≤ hi
      → window xs mid hi ≡ drop (mid - lo) (window xs lo hi)
  window-drop xs lo mid hi h k = sym (
      drop-take (mid - lo) (hi - lo) (hi - mid) (drop lo xs) (omega arith)
      ∙ ap (take (hi - mid)) (drop-drop (mid - lo) lo mid xs (omega arith)))

  -- A shorter window holds the first elements.
  pub window-take :
      (xs : List A) (lo mid hi : ℕ)
      → mid ≤ hi
      → window xs lo mid ≡ take (mid - lo) (window xs lo hi)
  window-take xs lo mid hi k = sym (take-take (mid - lo) (hi - lo) (drop lo xs) (omega arith))

  pub drop-min : (k : ℕ) (xs : List A) → drop (min k (length xs)) xs ≡ drop k xs
  drop-min zero xs = let e : min 0 (length xs) ≡ 0 = omega arith in rw e
  drop-min (suc k) [] = let e : min (suc k) 0 ≡ 0 = omega arith in rw e
  drop-min (suc k) (x ∷ xs) =
      let e : min (suc k) (suc (length xs)) ≡ suc (min k (length xs)) = omega arith in
      rw e (drop-min k xs)

  pub take-min : (k : ℕ) (xs : List A) → take (min k (length xs)) xs ≡ take k xs
  take-min zero xs = let e : min 0 (length xs) ≡ 0 = omega arith in rw e
  take-min (suc k) [] = let e : min (suc k) 0 ≡ 0 = omega arith in rw e
  take-min (suc k) (x ∷ xs) =
      let e : min (suc k) (suc (length xs)) ≡ suc (min k (length xs)) = omega arith in
      rw e (ap (◌∷◌ x) (take-min k xs))

  -- The first element of a window that is not empty.
  pub window-cons :
      (xs : List A) (lo hi : ℕ)
      → lo < hi
      → hi ≤ length xs
      → (x : A) × (get_elem? xs lo ≡ some x) × (window xs lo hi ≡ x ∷ window xs (lo + 1) hi)
  window-cons [] lo hi h k = absurd (omega arith)
  window-cons (x ∷ xs) zero zero h k = absurd (omega arith)
  window-cons (x ∷ xs) zero (suc hi) h k =
      let e : suc hi - 0 ≡ suc hi = omega arith in
      let f : suc hi - 1 ≡ hi = omega arith in (x, refl, rw (e, f))
  window-cons (x ∷ xs) (suc lo) zero h k = absurd (omega arith)
  window-cons (x ∷ xs) (suc lo) (suc hi) h k =
      let (y, found, rest) = window-cons xs lo hi (omega arith) (omega arith) in
      let e : suc hi - suc lo ≡ hi - lo = omega arith in
      let f : suc hi - (suc lo + 1) ≡ hi - (lo + 1) = omega arith in
      let g : suc lo + 1 ≡ suc (lo + 1) = omega arith in (y, found, rw (e, f, g) rest)
