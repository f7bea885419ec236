-- ===== src/Threads/Group/Progress.antt =====
-- A Run of threads/group.go never gets stuck: it can go on to its return from wherever it is.
use qtfra.Common.{
  ℕ, zero, suc, ◌+◌, ◌-◌, ◌≤◌, ◌<◌, ◌≡◌, ◌⊎◌, true, List, [], ◌∷◌, Option, none, some, map, refl,
  ap, ◌∙◌, inl, inr, arith,
}
use qtfra.Common.Lists.{length, get_elem?, set}
use qtfra.Ex.Error.{Error}
use qtfra.Threads.Group.{
  Group, TaskItem, Run, Stage, waiting, running, ended, counted, leaving, gone, first_stage,
  first_tokens, started, after_count, Caller, selecting, cleaning, awaiting, returned, Step, Steps,
  here, next, context_ends, enters, skips, ends, counts, closes, leaves, sees_cancel, sees_context,
  cleans, returns_result,
}
use qtfra.Threads.Group.Counts.{total, uncounted, holding, total-set, weight-le-total, some_weight}
use qtfra.Threads.Group.Sound.{is_last, IsCounted, Steps-IsCounted}

-- A goroutine that takes a token or gives one back.
abbrev queueing : Stage → ℕ
queueing waiting = 1
queueing running = 0
queueing (ended result) = 0
queueing (counted n) = 0
queueing leaving = 1
queueing gone = 0

-- Each token is in the queue or held by a goroutine; without a queue no goroutine asks for one.
abbrev Held : Option ℕ → List Stage → ℕ → Type 0
Held none threads tokens = total queueing threads ≡ 0
Held (some capacity) threads tokens = tokens + total holding threads ≡ capacity

move-Held :
    (queue : Option ℕ) (threads : List Stage) (tokens tokens' i : ℕ) (old stage : Stage)
    → Held queue threads tokens
    → get_elem? threads i ≡ some old
    → queueing stage ≤ queueing old
    → tokens' + holding stage ≡ tokens + holding old
    → Held queue (set threads i stage) tokens'
move-Held none threads tokens tokens' i old stage v at_i less same = omega (
  arith,
  total-set queueing threads i old stage at_i,
  weight-le-total queueing threads i old at_i,
)
move-Held (some capacity) threads tokens tokens' i old stage v at_i less same =
    omega (
      arith,
      total-set holding threads i old stage at_i,
      weight-le-total holding threads i old at_i,
    )

closed-Held :
    (queue : Option ℕ) (threads : List Stage) (tokens i n : ℕ)
    → Held queue threads tokens
    → get_elem? threads i ≡ some (counted n)
    → Held queue (set threads i (after_count queue)) tokens
closed-Held none threads tokens i n v at_i =
    omega (arith, total-set queueing threads i (counted n) gone at_i)
closed-Held (some capacity) threads tokens i n v at_i =
    omega (arith, total-set holding threads i (counted n) leaving at_i)

started-Held :
    (queue : Option ℕ) (tasks : List TaskItem)
    → Held queue (map (λ task. first_stage queue) tasks) (first_tokens queue)
started-Held none [] = refl
started-Held none (task ∷ tasks) = omega (arith, started-Held none tasks)
started-Held (some n) [] = omega arith
started-Held (some n) (task ∷ tasks) = omega (arith, started-Held (some n) tasks)

module _ {g : Group} where
  Step-Held :
      {s t : Run} → Step g s t → Held g.queue s.threads s.tokens → Held g.queue t.threads t.tokens
  Step-Held (context_ends s err e) v = v
  Step-Held (enters s i n at_i e) v =
      move-Held g.queue s.threads s.tokens n i waiting running v at_i (omega arith) (omega arith)
  Step-Held (skips s i at_i e) v =
      move-Held g.queue s.threads s.tokens s.tokens i waiting gone v at_i (omega arith) refl
  Step-Held (ends s i result at_i) v =
      move-Held g.queue s.threads s.tokens s.tokens i running (ended result) v at_i (omega arith)
        refl
  Step-Held (counts s i none at_i) v =
      move-Held g.queue s.threads s.tokens s.tokens i (ended none) (counted (s.task_count - 1)) v
        at_i (omega arith) refl
  Step-Held (counts s i (some err) at_i) v =
      move-Held g.queue s.threads s.tokens s.tokens i (ended (some err))
        (counted (s.task_count - 1)) v at_i (omega arith) refl
  Step-Held (closes s i n at_i) v = closed-Held g.queue s.threads s.tokens i n v at_i
  Step-Held (leaves s i capacity at_i e room) v =
      move-Held g.queue s.threads s.tokens (s.tokens + 1) i leaving gone v at_i (omega arith)
        (omega arith)
  Step-Held (sees_cancel s e done) v = v
  Step-Held (sees_context s e done) v = v
  Step-Held (cleans s e) v = v
  Step-Held (returns_result s e fin) v = v

  Steps-Held : {s : Run} → Steps g (started g) s → Held g.queue s.threads s.tokens
  Steps-Held here = started-Held g.queue g.tasks
  Steps-Held (next steps step) = Step-Held step (Steps-Held steps)

-- How many steps a goroutine, and the caller, have before them.
abbrev to_go : Stage → ℕ
to_go waiting = 5
to_go running = 4
to_go (ended result) = 3
to_go (counted n) = 2
to_go leaving = 1
to_go gone = 0

abbrev caller_to_go : Caller → ℕ
caller_to_go selecting = 3
caller_to_go cleaning = 2
caller_to_go awaiting = 1
caller_to_go (returned r) = 0

abbrev steps_to_go : Run → ℕ
steps_to_go s = total to_go s.threads + caller_to_go s.caller

-- The queue has a place.
abbrev pub HasRoom : Option ℕ → Type 0
HasRoom none = Unit
HasRoom (some capacity) = 0 < capacity

closed_to_go : (queue : Option ℕ) → to_go (after_count queue) < 2
closed_to_go none = omega arith
closed_to_go (some n) = omega arith

abbrev waits : Stage → ℕ
waits waiting = 1
waits running = 0
waits (ended result) = 0
waits (counted n) = 0
waits leaving = 0
waits gone = 0

only_waiting : (stage : Stage) → 0 < waits stage → stage ≡ waiting
only_waiting waiting h = refl
only_waiting running h = absurd (omega arith)
only_waiting (ended result) h = absurd (omega arith)
only_waiting (counted n) h = absurd (omega arith)
only_waiting leaving h = absurd (omega arith)
only_waiting gone h = absurd (omega arith)

last_holds : (stage : Stage) → is_last stage ≡ true → 0 < holding stage
last_holds waiting e = absurd (ground arith)
last_holds running e = absurd (ground arith)
last_holds (ended result) e = absurd (ground arith)
last_holds (counted n) e = omega arith
last_holds leaving e = absurd (ground arith)
last_holds gone e = absurd (ground arith)

uncounted-le : (stage : Stage) → uncounted stage ≤ holding stage + waits stage
uncounted-le waiting = omega arith
uncounted-le running = omega arith
uncounted-le (ended result) = omega arith
uncounted-le (counted n) = omega arith
uncounted-le leaving = omega arith
uncounted-le gone = omega arith

total-uncounted :
    (threads : List Stage) → total uncounted threads ≤ total holding threads + total waits threads
total-uncounted [] = omega arith
total-uncounted (x ∷ xs) = omega (arith, uncounted-le x, total-uncounted xs)

module _ (g : Group) where
  -- A step that brings the return nearer.
  abbrev Nearer : Run → Type 0
  Nearer s = (t : Run) × Step g s t × (steps_to_go t < steps_to_go s)

  thread-Nearer :
      (s : Run) (i : ℕ) (old stage : Stage) (t : Run)
      → get_elem? s.threads i ≡ some old
      → Step g s t
      → t.threads ≡ set s.threads i stage
      → t.caller ≡ s.caller
      → to_go stage < to_go old
      → Nearer s
  thread-Nearer s i old stage t at_i step threads caller less = (
    t,
    step,
    rw (threads, caller)
        (omega (
          arith,
          total-set to_go s.threads i old stage at_i,
          weight-le-total to_go s.threads i old at_i,
        )),
  )

  -- A goroutine that holds a token, or has none to wait for, goes on.
  token-Nearer :
      (s : Run) (i : ℕ) (stage : Stage) (queue : Option ℕ)
      → g.queue ≡ queue
      → Held queue s.threads s.tokens
      → get_elem? s.threads i ≡ some stage
      → 0 < holding stage
      → Nearer s
  token-Nearer s i waiting queue q v at_i h = absurd (omega arith)
  token-Nearer s i running queue q v at_i h =
      thread-Nearer s i running (ended none) _ at_i (ends s i none at_i) refl refl (omega arith)
  token-Nearer s i (ended none) queue q v at_i h =
      thread-Nearer s i (ended none) (counted (s.task_count - 1)) _ at_i (counts s i none at_i) refl
        refl (omega arith)
  token-Nearer s i (ended (some err)) queue q v at_i h =
      thread-Nearer s i (ended (some err)) (counted (s.task_count - 1)) _ at_i
        (counts s i (some err) at_i) refl refl (omega arith)
  token-Nearer s i (counted n) queue q v at_i h =
      thread-Nearer s i (counted n) (after_count g.queue) _ at_i (closes s i n at_i) refl refl
        (closed_to_go g.queue)
  token-Nearer s i leaving none q v at_i h =
      absurd (omega (arith, weight-le-total queueing s.threads i leaving at_i))
  token-Nearer s i leaving (some capacity) q v at_i h =
      thread-Nearer s i leaving gone _ at_i
        (leaves s i capacity at_i q
          (omega (arith, weight-le-total holding s.threads i leaving at_i)))
        refl refl (omega arith)
  token-Nearer s i gone queue q v at_i h = absurd (omega arith)

  -- With no token out, a goroutine that waits for one takes one.
  waiting-Nearer :
      (s : Run) (i : ℕ) (queue : Option ℕ)
      → g.queue ≡ queue
      → HasRoom queue
      → Held queue s.threads s.tokens
      → total holding s.threads ≡ 0
      → get_elem? s.threads i ≡ some waiting
      → Nearer s
  waiting-Nearer s i none q room v none_out at_i =
      absurd (omega (arith, weight-le-total queueing s.threads i waiting at_i))
  waiting-Nearer s i (some capacity) q room v none_out at_i =
      thread-Nearer s i waiting running _ at_i
        (enters s i (s.tokens - 1) at_i (omega (arith, room, v, none_out))) refl refl (omega arith)

  -- When every goroutine is at its end the caller goes on to its return.
  caller-Nearer :
      (s : Run) (caller : Caller)
      → s.caller ≡ caller
      → s.finished ≡ true
      → s.cancelled ≡ true
      → ((r : Option Error) × (s.caller ≡ returned r)) ⊎ Nearer s
  caller-Nearer s selecting at_c fin done =
      inr (_, sees_cancel s at_c (rw done refl), rw at_c (omega arith))
  caller-Nearer s cleaning at_c fin done = inr (_, cleans s at_c, rw at_c (omega arith))
  caller-Nearer s awaiting at_c fin done = inr (_, returns_result s at_c fin, rw at_c (omega arith))
  caller-Nearer s (returned r) at_c fin done = inl (r, at_c)

  progress :
      (s : Run)
      → IsCounted g s
      → Held g.queue s.threads s.tokens
      → 0 < length g.tasks
      → HasRoom g.queue
      → ((r : Option Error) × (s.caller ≡ returned r)) ⊎ Nearer s
  progress s c v some_tasks room = elim (some_weight holding s.threads) [
    | inr (i, stage, at_i, heavy) ↦ inr (token-Nearer s i stage g.queue refl v at_i heavy)
    | inl none_out ↦ elim (some_weight waits s.threads) [
      | inr (i, stage, at_i, heavy) ↦
          let at_i' = at_i ∙ ap some (only_waiting stage heavy) in
          inr (waiting-Nearer s i g.queue refl room v none_out at_i')
      | inl none_waits ↦
          let none_open : s.task_count ≡ 0 =
            omega (arith, c.open_tasks, total-uncounted s.threads, none_out, none_waits) in
          elim (c.zero_finishes some_tasks none_open) [
            | inl fin ↦ caller-Nearer s s.caller refl fin (c.finished_done fin)
            | inr (i, stage, at_i, last) ↦ absurd (
                omega (
                  arith,
                  none_out,
                  last_holds stage last,
                  weight-le-total holding s.threads i stage at_i,
                ))
          ]
    ]
  ]

  completes :
      (fuel : ℕ) (s t : Run)
      → Steps g (started g) t
      → Steps g s t
      → 0 < length g.tasks
      → HasRoom g.queue
      → steps_to_go t ≤ fuel
      → (u : Run) × (r : Option Error) × Steps g s u × (u.caller ≡ returned r)
  completes zero s t reached steps some_tasks room less =
      elim (progress t (Steps-IsCounted reached) (Steps-Held {g = g} reached) some_tasks room) [
        | inl (r, at_end) ↦ (t, r, steps, at_end)
        | inr (u, step, nearer) ↦ absurd (omega (arith, nearer, less))
      ]
  completes (suc fuel) s t reached steps some_tasks room less =
      elim (progress t (Steps-IsCounted reached) (Steps-Held {g = g} reached) some_tasks room) [
        | inl (r, at_end) ↦ (t, r, steps, at_end)
        | inr (u, step, nearer) ↦
            completes fuel s u (next reached step) (next steps step) some_tasks room
              (omega (arith, nearer, less))
      ]

  -- From wherever a Run with tasks gets to, whatever came before, it can go on to its return, if its
  -- queue, where it has one, has a place: it is never stuck.
  pub Steps-completes :
      (s : Run)
      → Steps g (started g) s
      → 0 < length g.tasks
      → HasRoom g.queue
      → (u : Run) × (r : Option Error) × Steps g s u × (u.caller ≡ returned r)
  Steps-completes s reached some_tasks room =
      completes (steps_to_go s) s s reached here some_tasks room (omega arith)
