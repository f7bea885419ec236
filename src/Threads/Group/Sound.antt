-- ===== src/Threads/Group/Sound.antt =====
-- The count of Run in threads/group.go goes down once for each task, and taskFinish is called when
-- it is zero, not before.
use qtfra.Common.{
  ℕ, zero, suc, ◌-◌, ◌<◌, ◌≡◌, ◌⊎◌, Bool, true, false, ◌||◌, List, [], ◌∷◌, Option, none, some, map,
  refl, sym, ap, subst, inl, inr, arith,
}
use qtfra.Common.Tests.{nat_beq, nat_comparable, Bool-cases, the_one}
use qtfra.Common.Lists.{length, get_elem?, set}
use qtfra.Ex.Error.{Error}
use qtfra.Threads.Group.{
  Group, TaskItem, Run, Stage, waiting, running, ended, counted, leaving, gone, first_stage,
  started, after_count, Step, Steps, here, next, context_ends, enters, skips, ends, counts, closes,
  leaves, sees_cancel, sees_context, cleans, returns_result,
}
use qtfra.Threads.Group.Counts.{
  total, uncounted, total-set, weight-le-total, still_there, there_before, stands_here,
}

-- The goroutine that is to call taskFinish.
abbrev pub is_last : Stage → Bool
is_last (counted zero) = true
is_last (counted (suc n)) = false
is_last waiting = false
is_last running = false
is_last (ended result) = false
is_last leaving = false
is_last gone = false

-- What the goroutines, the count and the two contexts have to do with each other.
pub record Counted (g : Group) (threads : List Stage) (count : ℕ) (finished cancelled : Bool)
    : Type 0 where
  pub open_tasks : count ≡ total uncounted threads
  pub last_zero :
      (i : ℕ) (stage : Stage) → get_elem? threads i ≡ some stage → is_last stage ≡ true → count ≡ 0
  pub finished_zero : finished ≡ true → count ≡ 0
  pub finished_done : finished ≡ true → cancelled ≡ true
  pub zero_finishes :
      0 < length g.tasks
      → count ≡ 0
      → (finished ≡ true)
        ⊎ ((i : ℕ) × (stage : Stage) × (get_elem? threads i ≡ some stage) × (is_last stage ≡ true))

abbrev pub IsCounted : Group → Run → Type 0
IsCounted g s = Counted g s.threads s.task_count s.finished s.cancelled

module _ {g : Group} {threads : List Stage} {count : ℕ} {finished cancelled : Bool} where
  -- A goroutine goes on, with the count where it is.
  move-Counted :
      (i : ℕ) (old stage : Stage)
      → Counted g threads count finished cancelled
      → get_elem? threads i ≡ some old
      → uncounted old ≡ uncounted stage
      → is_last old ≡ false
      → is_last stage ≡ false
      → Counted g (set threads i stage) count finished cancelled
  move-Counted i old stage v at_i same before after = record {
    open_tasks = omega (arith, v.open_tasks, total-set uncounted threads i old stage at_i, same);
    last_zero = λ j other at_j last.
        v.last_zero j other (there_before is_last threads i j old stage other at_i after at_j last)
          last;
    finished_zero = v.finished_zero;
    finished_done = v.finished_done;
    zero_finishes = λ some_tasks none_open. elim (v.zero_finishes some_tasks none_open) [
      | inl done ↦ inl done
      | inr (j, other, at_j, last) ↦
          inr
            (j, other, still_there is_last threads i j old stage other at_i before at_j last, last)
    ];
  }

  -- A goroutine counts its task down, and calls taskFinish at once or is to do so.
  down-Counted :
      (i : ℕ) (old stage : Stage) (finished' cancelled' : Bool)
      → Counted g threads count finished cancelled
      → get_elem? threads i ≡ some old
      → uncounted old ≡ 1
      → uncounted stage ≡ 0
      → is_last old ≡ false
      → (is_last stage ≡ true → count ≡ 1)
      → (count ≡ 1 → (finished' ≡ true) ⊎ (is_last stage ≡ true))
      → (finished' ≡ true → count ≡ 1)
      → (finished' ≡ true → cancelled' ≡ true)
      → Counted g (set threads i stage) (count - 1) finished' cancelled'
  down-Counted i old stage finished' cancelled' v at_i one none_left before marks finishes zero_left
        done =
      let sum = total-set uncounted threads i old stage at_i in
      let here = weight-le-total uncounted threads i old at_i in
      record {
        open_tasks = omega (arith, v.open_tasks, sum, one, none_left);
        last_zero = λ j other at_j last. elim (Bool-cases (is_last stage)) [
          | inl marked ↦ omega (arith, marks marked)
          | inr unmarked ↦ omega (
            arith,
            v.last_zero j other
                (there_before is_last threads i j old stage other at_i unmarked at_j last) last,
          )
        ];
        finished_zero = λ fin. omega (arith, zero_left fin);
        finished_done = done;
        zero_finishes = λ some_tasks none_open.
            elim (finishes (omega (arith, v.open_tasks, here, one))) [
              | inl done' ↦ inl done'
              | inr marked ↦ inr (i, stage, stands_here threads i old stage at_i, marked)
            ];
      }

  -- Before the last task is counted down taskFinish is not called.
  unfinished :
      (i : ℕ) (old : Stage)
      → Counted g threads count finished cancelled
      → get_elem? threads i ≡ some old
      → uncounted old ≡ 1
      → (0 < count) × (finished ≡ false)
  unfinished i old v at_i one =
      let here = weight-le-total uncounted threads i old at_i in
      let positive : 0 < count = omega (arith, v.open_tasks, here, one) in
      (
        positive,
        elim (Bool-cases finished) [
          | inl done ↦ absurd (omega (arith, v.finished_zero done))
          | inr not_yet ↦ not_yet
        ],
      )

all_weight :
    (tasks : List TaskItem) (queue : Option ℕ)
    → total uncounted (map (λ task. first_stage queue) tasks) ≡ length tasks
all_weight [] queue = refl
all_weight (task ∷ tasks) none = omega (arith, all_weight tasks none)
all_weight (task ∷ tasks) (some n) = omega (arith, all_weight tasks (some n))

none_last :
    (tasks : List TaskItem) (queue : Option ℕ) (i : ℕ) (stage : Stage)
    → get_elem? (map (λ task. first_stage queue) tasks) i ≡ some stage
    → is_last stage ≡ false
none_last [] queue i stage e = absurd (ground arith)
none_last (task ∷ tasks) none zero stage e = ap is_last (sym (the_one running stage e))
none_last (task ∷ tasks) (some n) zero stage e = ap is_last (sym (the_one waiting stage e))
none_last (task ∷ tasks) queue (suc i) stage e = none_last tasks queue i stage e

started-IsCounted : (g : Group) → IsCounted g (started g)
started-IsCounted g = record {
  open_tasks = sym (all_weight g.tasks g.queue);
  last_zero = λ i stage at_i last. absurd (ground (arith, none_last g.tasks g.queue i stage at_i));
  finished_zero = λ e. absurd (ground arith);
  finished_done = λ e. absurd (ground arith);
  zero_finishes = λ some_tasks none_open. absurd (omega arith);
}

closed_stage :
    (queue : Option ℕ) → (uncounted (after_count queue) ≡ 0) × (is_last (after_count queue) ≡ false)
closed_stage none = (refl, refl)
closed_stage (some n) = (refl, refl)

last_at_zero : (n : ℕ) → is_last (counted n) ≡ true → n ≡ 0
last_at_zero zero e = refl
last_at_zero (suc n) e = absurd (ground arith)

zero_is_last : (n : ℕ) → n ≡ 0 → is_last (counted n) ≡ true
zero_is_last zero e = refl
zero_is_last (suc n) e = absurd (omega arith)

not_zero : (n : ℕ) → nat_beq (suc n) 0 ≡ false
not_zero n = ground arith

module _ {g : Group} where
  more_cancelled :
      {threads : List Stage} {count : ℕ} {finished cancelled : Bool} (cancelled' : Bool)
      → (cancelled ≡ true → cancelled' ≡ true)
      → Counted g threads count finished cancelled
      → Counted g threads count finished cancelled'
  more_cancelled cancelled' more v = record {
    open_tasks = v.open_tasks;
    last_zero = v.last_zero;
    finished_zero = v.finished_zero;
    finished_done = λ e. more (v.finished_done e);
    zero_finishes = v.zero_finishes;
  }

  -- After the lock, with the context cancelled by this or before.
  counted-Counted :
      {threads : List Stage} {count : ℕ} {finished cancelled : Bool} (i : ℕ) (result : Option Error)
      (cancelled' : Bool)
      → Counted g threads count finished cancelled
      → get_elem? threads i ≡ some (ended result)
      → Counted g (set threads i (counted (count - 1))) (count - 1) finished cancelled'
  counted-Counted {count = count} {finished = finished} i result cancelled' v at_i =
      let (positive, not_yet) = unfinished i (ended result) v at_i refl in
      down-Counted i (ended result) (counted (count - 1)) finished cancelled' v at_i refl refl refl
        (λ marked. omega (arith, positive, last_at_zero (count - 1) marked))
        (λ one. inr (zero_is_last (count - 1) (omega arith))) (λ fin. absurd (ground arith))
        (λ fin. absurd (ground arith))

  -- The goroutine with the last count calls taskFinish.
  closed-Counted :
      {threads : List Stage} {count : ℕ} {finished cancelled : Bool} (i : ℕ)
      → Counted g threads count finished cancelled
      → get_elem? threads i ≡ some (counted 0)
      → Counted g (set threads i (after_count g.queue)) count true true
  closed-Counted {threads} i v at_i =
      let (none_left, unmarked) = closed_stage g.queue in
      let none_open = v.last_zero i (counted 0) at_i refl in
      record {
        open_tasks = omega (
          arith,
          v.open_tasks,
          total-set uncounted threads i (counted 0) (after_count g.queue) at_i,
          none_left,
        );
        last_zero = λ j other at_j last. none_open;
        finished_zero = λ e. none_open;
        finished_done = λ e. refl;
        zero_finishes = λ some_tasks e. inl refl;
      }

  pub Step-IsCounted : {s t : Run} → Step g s t → IsCounted g s → IsCounted g t
  Step-IsCounted (context_ends s err e) v = v
  Step-IsCounted (enters s i n at_i e) v = move-Counted i waiting running v at_i refl refl refl
  Step-IsCounted (skips s i at_i e) v =
      let (positive, not_yet) = unfinished i waiting v at_i refl in
      down-Counted i waiting gone _ _ v at_i refl refl refl (λ e. absurd (ground arith))
        (λ one. inl (ground arith)) (λ fin. ground arith) (λ fin. ground arith)
  Step-IsCounted (ends s i result at_i) v =
      move-Counted i running (ended result) v at_i refl refl refl
  Step-IsCounted (counts s i none at_i) v = counted-Counted i none s.cancelled v at_i
  Step-IsCounted (counts s i (some err) at_i) v =
      counted-Counted i (some err) (g.fast_fail || s.cancelled) v at_i
  Step-IsCounted (closes s i zero at_i) v = closed-Counted i v at_i
  Step-IsCounted (closes s i (suc n) at_i) v =
      let (none_left, unmarked) = closed_stage g.queue in
      subst
        (λ b.
          Counted g (set s.threads i (after_count g.queue)) s.task_count (b || s.finished)
            (b || s.cancelled))
        (sym (not_zero n))
        (move-Counted i (counted (suc n)) (after_count g.queue) v at_i (sym none_left) refl
          unmarked)
  Step-IsCounted (leaves s i capacity at_i e room) v =
      move-Counted i leaving gone v at_i refl refl refl
  Step-IsCounted (sees_cancel s e done) v = v
  Step-IsCounted (sees_context s e done) v = more_cancelled true (λ e. refl) v
  Step-IsCounted (cleans s e) v = v
  Step-IsCounted (returns_result s e fin) v = more_cancelled true (λ e. refl) v

  -- Wherever a Run gets to, taskFinish is called only when every task is counted down.
  pub Steps-IsCounted : {s : Run} → Steps g (started g) s → IsCounted g s
  Steps-IsCounted here = started-IsCounted g
  Steps-IsCounted (next steps step) = Step-IsCounted step (Steps-IsCounted steps)
