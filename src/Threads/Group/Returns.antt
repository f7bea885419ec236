-- ===== src/Threads/Group/Returns.antt =====
-- What Run of threads/group.go returns, and when.
use qtfra.Common.{
  ℕ, ◌-◌, ◌≡◌, ◌⊎◌, Bool, true, false, ◌||◌, ◌&&◌, List, [], ◌∷◌, Option, none, some, refl, sym, ap,
  subst, ◌∙◌, inl, inr, arith,
}
use qtfra.Common.Tests.{
  if◌then◌else◌, nat_beq, nat_comparable, string_comparable, ◌==◌, beq_iff, Bool-cases, the_one,
}
use qtfra.Common.Lists.{get_elem?, set}
use qtfra.Ex.Error.{Error, Sentinel, is}
use qtfra.Threads.Group.{
  Group, TaskItem, Run, Stage, waiting, running, ended, counted, leaving, gone, started,
  after_count, is_done, join_error, named, result_of, Caller, returned, Step, Steps, here, next,
  context_ends, enters, skips, ends, counts, closes, leaves, sees_cancel, sees_context, cleans,
  returns_result,
}
use qtfra.Threads.Group.Counts.{
  total, uncounted, weight-le-total, get_elem?-set, still_there, stands_here,
}
use qtfra.Threads.Group.Sound.{IsCounted, Steps-IsCounted}

-- `errors.Is(err, target)`, where nil is nothing.
abbrev pub is_found : Option Error → Sentinel → Bool
is_found none target = false
is_found (some err) target = is err target

-- Whatever errors.Is finds in the error it finds in the other.
abbrev pub Within : Error → Option Error → Type 0
Within err found = (target : Sentinel) → (is err target && is_found found target) ≡ is err target

abbrev pub AllWithin : List Error → Option Error → Type 0
AllWithin [] found = Unit
AllWithin (err ∷ errs) found = Within err found × AllWithin errs found

-- An error that a task returned waits for the lock, or is in the error of Run.
abbrev Found : List Stage → Option Error → Error → Type 0
Found threads found err =
    ((i : ℕ) × (get_elem? threads i ≡ some (ended (some err)))) ⊎ Within err found

abbrev AllFound : List Stage → Option Error → List Error → Type 0
AllFound threads found [] = Unit
AllFound threads found (err ∷ errs) = Found threads found err × AllFound threads found errs

is_named : (task : Option TaskItem) (err : Error) (t : Sentinel) → is (named task err) t ≡ is err t
unfolding is
is_named none err t = refl
is_named (some task) err t = elim (Bool-cases (task.name == "")) [
  | inl unnamed ↦ rw unnamed refl
  | inr has_name ↦ rw has_name refl
]

is_found-join_error :
    (old : Option Error) (err : Error) (t : Sentinel)
    → is_found (some (join_error old err)) t ≡ (is_found old t || is err t)
unfolding is
is_found-join_error none err t = ground arith
is_found-join_error (some old) err t = ground arith

-- The error that is joined is in the result, and what was there stays.
join-Within :
    (old : Option Error) (task : Option TaskItem) (err : Error)
    → Within err (some (join_error old (named task err)))
join-Within old task err t =
    rw (is_found-join_error old (named task err) t, is_named task err t) (ground arith)

grown-Within :
    (old : Option Error) (err' err : Error)
    → Within err old
    → Within err (some (join_error old err'))
grown-Within old err' err w t =
    let known = w t in rw (is_found-join_error old err' t) (ground arith)

abbrev is_ended : Stage → Bool
is_ended (ended result) = true
is_ended waiting = false
is_ended running = false
is_ended (counted n) = false
is_ended leaving = false
is_ended gone = false

moved-AllFound :
    (threads : List Stage) (i : ℕ) (old stage : Stage) (found : Option Error) (errs : List Error)
    → get_elem? threads i ≡ some old
    → is_ended old ≡ false
    → AllFound threads found errs
    → AllFound (set threads i stage) found errs
moved-AllFound threads i old stage found [] at_i e all = tt
moved-AllFound threads i old stage found (err ∷ errs) at_i e (first, all) = (
  elim first [
    | inl (j, at_j) ↦
        inl (j, still_there is_ended threads i j old stage (ended (some err)) at_i e at_j refl)
    | inr w ↦ inr w
  ],
  moved-AllFound threads i old stage found errs at_i e all,
)

-- The error after the lock.
abbrev locked : Group → ℕ → Option Error → Option Error → Option Error
locked g i none found = found
locked g i (some err) found = some (join_error found (named (get_elem? g.tasks i) err))

locked-Within :
    (g : Group) (i : ℕ) (result found : Option Error) (err : Error)
    → Within err found
    → Within err (locked g i result found)
locked-Within g i none found err w = w
locked-Within g i (some e) found err w = grown-Within found (named (get_elem? g.tasks i) e) err w

just_locked :
    (g : Group) (i : ℕ) (result found : Option Error) (err : Error)
    → result ≡ some err
    → Within err (locked g i result found)
just_locked g i none found err e = absurd (ground arith)
just_locked g i (some err') found err e =
    subst (λ x. Within x (locked g i (some err') found)) (the_one err' err e)
      (join-Within found (get_elem? g.tasks i) err')

what_ended : Stage → Option Error
what_ended (ended result) = result
what_ended _ = none

locked-AllFound :
    (g : Group) (threads : List Stage) (i n : ℕ) (result found : Option Error) (errs : List Error)
    → get_elem? threads i ≡ some (ended result)
    → AllFound threads found errs
    → AllFound (set threads i (counted n)) (locked g i result found) errs
unfolding what_ended
locked-AllFound g threads i n result found [] at_i all = tt
locked-AllFound g threads i n result found (err ∷ errs) at_i (first, all) = (
  elim first [
    | inr w ↦ inr (locked-Within g i result found err w)
    | inl (j, at_j) ↦ elim (Bool-cases (nat_beq i j)) [
      | inl e ↦
          let at_j' = sym at_i ∙ (ap (get_elem? threads) ((beq_iff i j).0 e) ∙ at_j) in
          inr (
            just_locked g i result found err
              (ap what_ended (the_one (ended result) (ended (some err)) at_j')))
      | inr e ↦ inl (j, get_elem?-set threads i j (ended result) (counted n) at_i ∙ rw e at_j)
    ]
  ],
  locked-AllFound g threads i n result found errs at_i all,
)

pub record Answered (s : Run) : Type 0 where
  pub known : s.upstream_err ≡ true → is_done s.upstream ≡ true
  pub answers : (r : Option Error) → s.caller ≡ returned r → (s.finished ≡ true) × (r ≡ result_of s)
  pub heard : AllFound s.threads s.return_error s.reports

started-Answered : (g : Group) → Answered (started g)
started-Answered g = record {
  known = λ e. absurd (ground arith);
  answers = λ r e. absurd (ground arith);
  heard = tt;
}

-- Goroutines go on while the rest of what matters here stays.
threads-Answered :
    {s : Run} (i : ℕ) (old stage : Stage) (t : Run)
    → Answered s
    → get_elem? s.threads i ≡ some old
    → is_ended old ≡ false
    → t.threads ≡ set s.threads i stage
    → t.return_error ≡ s.return_error
    → t.reports ≡ s.reports
    → t.upstream ≡ s.upstream
    → t.upstream_err ≡ s.upstream_err
    → t.caller ≡ s.caller
    → (s.finished ≡ true → t.finished ≡ true)
    → Answered t
threads-Answered {s} i old stage t v at_i e threads found reports upstream upstream_err caller
      more =
    record {
      known = λ u. ap is_done upstream ∙ v.known (sym upstream_err ∙ u);
      answers = λ r at_end.
          let (fin, same) = v.answers r (sym caller ∙ at_end) in
          (more fin, rw (upstream_err, upstream, found) same);
      heard =
          rw (threads, found, reports)
            (moved-AllFound s.threads i old stage s.return_error s.reports at_i e v.heard);
    }

what_returned : Caller → Option Error
what_returned (returned r) = r
what_returned _ = none

waits_none :
    (threads : List Stage) (found : Option Error) (errs : List Error)
    → total uncounted threads ≡ 0
    → AllFound threads found errs
    → AllWithin errs found
waits_none threads found [] none_open all = tt
waits_none threads found (err ∷ errs) none_open (first, all) = (
  elim first [
    | inr w ↦ w
    | inl (i, at_i) ↦
        absurd (omega (arith, weight-le-total uncounted threads i (ended (some err)) at_i))
  ],
  waits_none threads found errs none_open all,
)

module _ {g : Group} where
  -- Before the last lock nothing is finished.
  still_open :
      (s : Run) (i : ℕ) (result : Option Error)
      → IsCounted g s
      → get_elem? s.threads i ≡ some (ended result)
      → s.finished ≡ true
      → ⊥
  still_open s i result c at_i fin = omega (
    arith,
    c.finished_zero fin,
    c.open_tasks,
    weight-le-total uncounted s.threads i (ended result) at_i,
  )

  Step-Answered : {s t : Run} → Step g s t → IsCounted g s → Answered s → Answered t
  unfolding what_returned
  Step-Answered (context_ends s err e) c v = record {
    known = λ u. refl;
    answers = λ r at_end.
        let (fin, same) = v.answers r at_end in
        (
          fin,
          elim (Bool-cases s.upstream_err) [
            | inl u ↦ absurd (ground (arith, v.known u))
            | inr u ↦ same ∙ rw u refl
          ],
        );
    heard = v.heard;
  }
  Step-Answered (enters s i n at_i e) c v =
      threads-Answered i waiting running _ v at_i refl refl refl refl refl refl refl (λ f. f)
  Step-Answered (skips s i at_i e) c v =
      threads-Answered i waiting gone _ v at_i refl refl refl refl refl refl refl
        (λ f. ground arith)
  Step-Answered (ends s i none at_i) c v =
      threads-Answered i running (ended none) _ v at_i refl refl refl refl refl refl refl (λ f. f)
  Step-Answered (ends s i (some err) at_i) c v = record {
    known = v.known;
    answers = v.answers;
    heard = (
      inl (i, stands_here s.threads i running (ended (some err)) at_i),
      moved-AllFound s.threads i running (ended (some err)) s.return_error s.reports at_i refl
          v.heard,
    );
  }
  Step-Answered (counts s i none at_i) c v = record {
    known = v.known;
    answers = λ r at_end. absurd (still_open s i none c at_i (v.answers r at_end).0);
    heard =
        locked-AllFound g s.threads i (s.task_count - 1) none s.return_error s.reports at_i v.heard;
  }
  Step-Answered (counts s i (some err) at_i) c v = record {
    known = v.known;
    answers = λ r at_end. absurd (still_open s i (some err) c at_i (v.answers r at_end).0);
    heard =
        locked-AllFound g s.threads i (s.task_count - 1) (some err) s.return_error s.reports at_i
          v.heard;
  }
  Step-Answered (closes s i n at_i) c v =
      threads-Answered i (counted n) (after_count g.queue) _ v at_i refl refl refl refl refl refl
        refl (λ f. ground arith)
  Step-Answered (leaves s i capacity at_i e room) c v =
      threads-Answered i leaving gone _ v at_i refl refl refl refl refl refl refl (λ f. f)
  Step-Answered (sees_cancel s e done) c v = record {
    known = v.known;
    answers = λ r at_end. absurd (ground arith);
    heard = v.heard;
  }
  Step-Answered (sees_context s e done) c v = record {
    known = λ u. done;
    answers = λ r at_end. absurd (ground arith);
    heard = v.heard;
  }
  Step-Answered (cleans s e) c v = record {
    known = v.known;
    answers = λ r at_end. absurd (ground arith);
    heard = v.heard;
  }
  Step-Answered (returns_result s e fin) c v = record {
    known = v.known;
    answers = λ r at_end. (fin, ap what_returned (sym at_end));
    heard = v.heard;
  }

  Steps-Answered : {s : Run} → Steps g (started g) s → Answered s
  Steps-Answered here = started-Answered g
  Steps-Answered (next steps step) =
      Step-Answered step (Steps-IsCounted steps) (Steps-Answered steps)

-- Run returns only when every task has ended and is counted down. It returns ctx.Err() where it saw
-- that the caller's context was done; otherwise it returns an error in which errors.Is finds all that
-- it finds in any error that a task returned.
pub Steps-returned :
    (g : Group) (s : Run) (r : Option Error)
    → Steps g (started g) s
    → s.caller ≡ returned r
    → (total uncounted s.threads ≡ 0)
      × (if s.upstream_err then r ≡ s.upstream else AllWithin s.reports r)
Steps-returned g s r steps at_end =
    let c = Steps-IsCounted steps in
    let v = Steps-Answered {g = g} steps in
    let (fin, same) = v.answers r at_end in
    let none_open : total uncounted s.threads ≡ 0 = sym c.open_tasks ∙ c.finished_zero fin in
    (
      none_open,
      elim (Bool-cases s.upstream_err) [
        | inl u ↦ rw u (same ∙ rw u refl)
        | inr u ↦ rw u (
            subst (AllWithin s.reports) (sym (same ∙ rw u refl))
              (waits_none s.threads s.return_error s.reports none_open v.heard))
      ],
    )
