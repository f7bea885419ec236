-- ===== src/Buf/Buffer/Stream/Rounds.antt =====
-- How the loops of ReadFrom and WriteTo end, told by their rounds: how many bytes each moved, and the
-- error that it had.
use qtfra.Common.{
  ℕ, suc, ◌+◌, ◌≤◌, ◌≡◌, ◌⊎◌, true, List, [], ◌∷◌, ◌++◌, Option, none, some, refl, ap, ◌∙◌,
  append_assoc, inl, inr, zero, sym, arith,
}
use qtfra.Common.Tests.{ltb, nat_beq, if◌then◌else◌, Bool-cases}
use qtfra.Common.Lists.{replicate}
use qtfra.Ex.Error.{Error, leaf, no_progress}

abbrev pub Round : Type 0
Round = ℕ × Option Error

-- Rounds without an error, by their counts.
abbrev pub quiet : List ℕ → List Round
quiet [] = []
quiet (n ∷ counts) = (n, none) ∷ quiet counts

-- No round had an error, and the last hundred and one, those before the trace included, were empty.
abbrev pub Stuck : ℕ → List Round → Type 0
Stuck retry trace =
    (counts : List ℕ) × (before : List ℕ) × (trace ≡ quiet counts)
    × (replicate retry 0 ++ counts ≡ before ++ replicate 101 0)

-- Why a loop that has been empty for `retry` rounds stops: it is done, and no round had an error; it is
-- stuck; or the last round, and no other, had an error, which it shows.
abbrev pub EndsWith : ℕ → Type 0 → (Error → Option Error) → List Round → Option Error → Type 0
EndsWith retry Done shown trace err =
    ((err ≡ none) × Done × (counts : List ℕ) × (trace ≡ quiet counts))
    ⊎ ((err ≡ some (leaf no_progress)) × Stuck retry trace)
    ⊎ ((counts : List ℕ) × (n : ℕ) × (e : Error) × (trace ≡ quiet counts ++ (n, some e) ∷ [])
        × (err ≡ shown e))

replicate_snoc : (n : ℕ) (xs : List ℕ) → replicate n 0 ++ 0 ∷ xs ≡ 0 ∷ (replicate n 0 ++ xs)
replicate_snoc zero xs = refl
replicate_snoc (suc n) xs = ap (◌∷◌ 0) (replicate_snoc n xs)

idle_now :
    (retry x : ℕ)
    → retry ≤ 100
    → ltb 100 (if nat_beq x 0 then retry + 1 else 0) ≡ true
    → Stuck retry ((x, none) ∷ [])
idle_now retry x r h =
    let full : retry ≡ 100 = ground arith in
    let empty : x ≡ 0 = ground arith in rw (full, empty) (0 ∷ [], [], refl, replicate_snoc 100 [])

Stuck-before :
    (retry x : ℕ) (trace : List Round)
    → Stuck (if nat_beq x 0 then retry + 1 else 0) trace
    → Stuck retry ((x, none) ∷ trace)
Stuck-before retry x trace = elim (Bool-cases (nat_beq x 0)) [
  | inl e ↦
      let empty : x ≡ 0 = ground arith in
      rw (e, empty)
        (λ (counts, before, t, h).
          let next : retry + 1 ≡ suc retry = omega arith in
          (
            0 ∷ counts,
            before,
            ap (◌∷◌ (0, none)) t,
            replicate_snoc retry counts ∙ (ap (λ k. replicate k 0 ++ counts) (sym next) ∙ h),
          ))
  | inr moved ↦ rw moved (λ (counts, before, t, h). (
    x ∷ counts,
    replicate retry 0 ++ x ∷ before,
    ap (◌∷◌ (x, none)) t,
    ap (λ c. replicate retry 0 ++ x ∷ c) h
        ∙ sym (append_assoc (replicate retry 0) (x ∷ before) (replicate 101 0)),
  ))
]

module _ {Done : Type 0} {shown : Error → Option Error} where
  -- The same with a round without an error before.
  pub EndsWith-before :
      (retry x : ℕ) {trace : List Round} {err : Option Error}
      → EndsWith (if nat_beq x 0 then retry + 1 else 0) Done shown trace err
      → EndsWith retry Done shown ((x, none) ∷ trace) err
  EndsWith-before retry x (inl (fine, done, counts, t)) =
      inl (fine, done, x ∷ counts, ap (◌∷◌ (x, none)) t)
  EndsWith-before retry x {trace} (inr (inl (idle, stuck))) =
      inr (inl (idle, Stuck-before retry x trace stuck))
  EndsWith-before retry x (inr (inr (counts, n, e, t, is_shown))) =
      inr (inr (x ∷ counts, n, e, ap (◌∷◌ (x, none)) t, is_shown))

  pub ends_done :
      (retry x : ℕ) {e : Option Error}
      → e ≡ none
      → Done
      → EndsWith retry Done shown ((x, e) ∷ []) none
  ends_done retry x fine done = inl (refl, done, x ∷ [], ap (λ o. (x, o) ∷ []) fine)

  pub ends_stuck :
      (retry x : ℕ) {e : Option Error}
      → e ≡ none
      → retry ≤ 100
      → ltb 100 (if nat_beq x 0 then retry + 1 else 0) ≡ true
      → EndsWith retry Done shown ((x, e) ∷ []) (some (leaf no_progress))
  ends_stuck retry x fine r h = rw fine (inr (inl (refl, idle_now retry x r h)))

  pub ends_failed :
      (retry x : ℕ) {o : Option Error} {e : Error}
      → o ≡ some e
      → EndsWith retry Done shown ((x, o) ∷ []) (shown e)
  ends_failed retry x {e = e} failed = inr (inr ([], x, e, ap (λ o. (x, o) ∷ []) failed, refl))
