-- ===== src/Threads/Group/Counts.antt =====
-- Sums over the goroutines of a Run, and one of them changed.
use qtfra.Common.{
  ℕ, zero, suc, ◌+◌, ◌≤◌, ◌<◌, ◌≡◌, ◌⊎◌, Bool, true, false, List, [], ◌∷◌, some, refl, sym, ap, ◌∙◌,
  inl, inr, arith,
}
use qtfra.Common.Tests.{if◌then◌else◌, nat_beq, nat_comparable, beq_iff, Bool-cases, the_one}
use qtfra.Common.Lists.{get_elem?, set}
use qtfra.Threads.Group.{Stage, waiting, running, ended, counted, leaving, gone}

abbrev pub total : (Stage → ℕ) → List Stage → ℕ
total weight [] = 0
total weight (x ∷ xs) = weight x + total weight xs

-- A goroutine that has not counted its task down yet, and one that holds a token of the queue.
abbrev pub uncounted : Stage → ℕ
uncounted waiting = 1
uncounted running = 1
uncounted (ended result) = 1
uncounted (counted n) = 0
uncounted leaving = 0
uncounted gone = 0

abbrev pub holding : Stage → ℕ
holding waiting = 0
holding running = 1
holding (ended result) = 1
holding (counted n) = 1
holding leaving = 1
holding gone = 0

pub total-set :
    (weight : Stage → ℕ) (xs : List Stage) (i : ℕ) (old stage : Stage)
    → get_elem? xs i ≡ some old
    → total weight (set xs i stage) + weight old ≡ total weight xs + weight stage
total-set weight [] i old stage e = absurd (ground arith)
total-set weight (x ∷ xs) zero old stage e = omega (arith, ap weight (the_one x old e))
total-set weight (x ∷ xs) (suc i) old stage e = omega (arith, total-set weight xs i old stage e)

pub weight-le-total :
    (weight : Stage → ℕ) (xs : List Stage) (i : ℕ) (old : Stage)
    → get_elem? xs i ≡ some old
    → weight old ≤ total weight xs
weight-le-total weight [] i old e = absurd (ground arith)
weight-le-total weight (x ∷ xs) zero old e = omega (arith, ap weight (the_one x old e))
weight-le-total weight (x ∷ xs) (suc i) old e = omega (arith, weight-le-total weight xs i old e)

-- The stage of another goroutine, or of the one that was changed.
pub get_elem?-set :
    (xs : List Stage) (i j : ℕ) (old stage : Stage)
    → get_elem? xs i ≡ some old
    → get_elem? (set xs i stage) j ≡ (if nat_beq i j then some stage else get_elem? xs j)
get_elem?-set [] i j old stage e = absurd (ground arith)
get_elem?-set (x ∷ xs) zero zero old stage e = refl
get_elem?-set (x ∷ xs) zero (suc j) old stage e = ground arith
get_elem?-set (x ∷ xs) (suc i) zero old stage e = ground arith
get_elem?-set (x ∷ xs) (suc i) (suc j) old stage e = get_elem?-set xs i j old stage e ∙ ground arith

-- Where no goroutine is in a stage before its count, and one is asked for, it is found.
pub some_weight :
    (weight : Stage → ℕ) (xs : List Stage)
    → (total weight xs ≡ 0)
      ⊎ ((i : ℕ) × (stage : Stage) × (get_elem? xs i ≡ some stage) × (0 < weight stage))
some_weight weight [] = inl refl
some_weight weight (x ∷ xs) = elim (Bool-cases (nat_beq (weight x) 0)) [
  | inr heavy ↦ inr (zero, x, refl, ground arith)
  | inl light ↦ elim (some_weight weight xs) [
    | inl none_left ↦ inl (omega (arith, (beq_iff (weight x) 0).0 light))
    | inr (i, stage, e, heavy) ↦ inr (suc i, stage, e, heavy)
  ]
]

module _ (test : Stage → Bool) (xs : List Stage) (i j : ℕ) (old stage other : Stage)
    (at_i : get_elem? xs i ≡ some old) where
  -- A goroutine that passes a test stands where it was, if the one that goes on did not pass it.
  pub still_there :
      test old ≡ false
      → get_elem? xs j ≡ some other
      → test other ≡ true
      → get_elem? (set xs i stage) j ≡ some other
  still_there fails at_j passes = elim (Bool-cases (nat_beq i j)) [
    | inl e ↦
        let same : old ≡ other =
          the_one old other (sym at_i ∙ (ap (get_elem? xs) ((beq_iff i j).0 e) ∙ at_j)) in
        absurd (ground (arith, ap test same))
    | inr e ↦ get_elem?-set xs i j old stage at_i ∙ rw e at_j
  ]

  -- And one that passes it stood there before, if the next stage does not pass it.
  pub there_before :
      test stage ≡ false
      → get_elem? (set xs i stage) j ≡ some other
      → test other ≡ true
      → get_elem? xs j ≡ some other
  there_before fails at_j passes = elim (Bool-cases (nat_beq i j)) [
    | inl e ↦
        let same : stage ≡ other = the_one stage other (
          ap (λ b. if b then some stage else get_elem? xs j) (sym e)
          ∙ (sym (get_elem?-set xs i j old stage at_i) ∙ at_j)) in
        absurd (ground (arith, ap test same))
    | inr e ↦
        ap (λ b. if b then some stage else get_elem? xs j) (sym e)
        ∙ (sym (get_elem?-set xs i j old stage at_i) ∙ at_j)
  ]

pub stands_here :
    (xs : List Stage) (i : ℕ) (old stage : Stage)
    → get_elem? xs i ≡ some old
    → get_elem? (set xs i stage) i ≡ some stage
stands_here xs i old stage at_i =
    get_elem?-set xs i i old stage at_i
    ∙ ap (λ b. if b then some stage else get_elem? xs i) ((beq_iff i i).1 refl)
