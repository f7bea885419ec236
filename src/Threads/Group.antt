-- ===== src/Threads/Group.antt =====
-- threads/group.go: the group of tasks, and Run as steps of its goroutines, of its caller and of the
-- context. A step is one critical section, one receive or send, or one return of a task, which may
-- report any error and may come at any time. `context` and `errors.Join` are read as documented:
-- taskCancelContext is done once taskCancel was called or the caller's context is done.
pub mod Counts
pub mod Sound
pub mod Returns
pub mod Progress
pub mod Idle
mod Tests
use qtfra.Common.{
  ℕ, zero, suc, ◌+◌, ◌-◌, ◌<◌, ◌≡◌, Bool, true, false, ◌||◌, List, [], ◌∷◌, ◌++◌, Option, none,
  some, String, map,
}
use qtfra.Common.Tests.{if◌then◌else◌, nat_beq, string_comparable, ◌==◌}
use qtfra.Common.Lists.{length, get_elem?, set}
use qtfra.Ex.Error.{Error, Errors, cause, joined, nil, cons}

-- taskItem; what its Run returns is chosen by a step. A name of "" is no name.
pub record TaskItem : Type 0 where
  pub name : String

-- Group: whether it has a cleanup, and the capacity of its queue, where it has one.
pub record Group : Type 0 where
  pub tasks : List TaskItem
  pub has_cleanup : Bool
  pub fast_fail : Bool
  pub queue : Option ℕ

pub append : String → Group → Group
append name g = record g { tasks = g.tasks ++ record { name = name } ∷ [] }

pub append0 : Group → Group
append0 g = record g { tasks = g.tasks ++ record { name = "" } ∷ [] }

pub cleanup : Group → Group
cleanup g = record g { has_cleanup = true }

pub set_fast_fail : Group → Group
set_fast_fail g = record g { fast_fail = true }

-- Concurrency, for a count that is not negative; the queue begins with a token for each place.
pub concurrency : ℕ → Group → Group
concurrency n g = record g { queue = some n }

-- Where a task's goroutine is: in its select, in the task, before the lock with what the task
-- returned, after the lock with its count, before it gives the token back, at its end.
pub data Stage : Type 0 where
  waiting running : Stage
  ended : Option Error → Stage
  counted : ℕ → Stage
  leaving gone : Stage

-- Where the caller of Run is: in its select, before the cleanup, at `<-taskContext.Done()`, returned.
pub data Caller : Type 0 where
  selecting cleaning awaiting : Caller
  returned : Option Error → Caller

-- The variables of Run. `tokens` are in the queue, `cancelled` and `finished` say that taskCancel and
-- taskFinish were called, `upstream` is ctx.Err() once the caller's context is done. `reports` is what
-- tasks returned, a history that no step reads.
pub record Run : Type 0 where
  pub threads : List Stage
  pub task_count : ℕ
  pub return_error : Option Error
  pub tokens : ℕ
  pub cancelled : Bool
  pub finished : Bool
  pub upstream : Option Error
  pub upstream_err : Bool
  pub cleanups : ℕ
  pub caller : Caller
  pub reports : List Error

abbrev pub first_stage : Option ℕ → Stage
first_stage none = running
first_stage (some n) = waiting

abbrev pub first_tokens : Option ℕ → ℕ
first_tokens none = 0
first_tokens (some n) = n

-- Run up to its select, with all goroutines started.
abbrev pub started : Group → Run
started g = record {
  threads = map (λ task. first_stage g.queue) g.tasks;
  task_count = length g.tasks;
  return_error = none;
  tokens = first_tokens g.queue;
  cancelled = false;
  finished = false;
  upstream = none;
  upstream_err = false;
  cleanups = 0;
  caller = selecting;
  reports = [];
}

abbrev pub is_done : Option Error → Bool
is_done none = false
is_done (some err) = true

-- `errors.Join(returnError, err)`
abbrev pub join_error : Option Error → Error → Error
join_error none err = joined (cons err nil)
join_error (some old) err = joined (cons old (cons err nil))

abbrev pub named : Option TaskItem → Error → Error
named none err = err
named (some task) err = if task.name == "" then err else cause err task.name

abbrev pub move : ℕ → Stage → Run → Run
move i stage s = record s { threads = set s.threads i stage }

-- `taskCancel(…); taskFinish(…)` where the count is zero.
abbrev pub finish_at_zero : ℕ → Run → Run
finish_at_zero count s =
    let zero_left = nat_beq count 0 in
    record s { cancelled = zero_left || s.cancelled; finished = zero_left || s.finished }

-- The goroutine that finds its context done in the queue's select.
abbrev pub skip : ℕ → Run → Run
skip i s =
    let count = s.task_count - 1 in
    finish_at_zero count (record (move i gone s) { task_count = count })

-- Under the lock: the error is joined, a fast failing group is cancelled, the count goes down.
abbrev pub record_error : Group → ℕ → Option Error → Run → Run
record_error g i none s = s
record_error g i (some err) s =
    let err' = named (get_elem? g.tasks i) err in
    record s {
      return_error = some (join_error s.return_error err');
      cancelled = g.fast_fail || s.cancelled;
    }

abbrev pub count_down : Group → ℕ → Option Error → Run → Run
count_down g i result s =
    let count = s.task_count - 1 in
    move i (counted count) (record (record_error g i result s) { task_count = count })

abbrev pub after_count : Option ℕ → Stage
after_count none = gone
after_count (some n) = leaving

abbrev pub reported : Option Error → List Error → List Error
reported none reports = reports
reported (some err) reports = err ∷ reports

abbrev pub result_of : Run → Option Error
result_of s = if s.upstream_err then s.upstream else s.return_error

-- One step of Run.
pub data Step (g : Group) : Run → Run → Type 0 where
  context_ends :
      (s : Run) (err : Error) → s.upstream ≡ none → Step g s (record s { upstream = some err })
  enters :
      (s : Run) (i n : ℕ)
      → get_elem? s.threads i ≡ some waiting
      → s.tokens ≡ suc n
      → Step g s (record (move i running s) { tokens = n })
  skips :
      (s : Run) (i : ℕ)
      → get_elem? s.threads i ≡ some waiting
      → (s.cancelled || is_done s.upstream) ≡ true
      → Step g s (skip i s)
  ends :
      (s : Run) (i : ℕ) (result : Option Error)
      → get_elem? s.threads i ≡ some running
      → Step g s (record (move i (ended result) s) { reports = reported result s.reports })
  counts :
      (s : Run) (i : ℕ) (result : Option Error)
      → get_elem? s.threads i ≡ some (ended result)
      → Step g s (count_down g i result s)
  closes :
      (s : Run) (i count : ℕ)
      → get_elem? s.threads i ≡ some (counted count)
      → Step g s (finish_at_zero count (move i (after_count g.queue) s))
  leaves :
      (s : Run) (i capacity : ℕ)
      → get_elem? s.threads i ≡ some leaving
      → g.queue ≡ some capacity
      → s.tokens < capacity
      → Step g s (record (move i gone s) { tokens = s.tokens + 1 })
  sees_cancel :
      (s : Run)
      → s.caller ≡ selecting
      → (s.cancelled || is_done s.upstream) ≡ true
      → Step g s (record s { caller = cleaning })
  sees_context :
      (s : Run)
      → s.caller ≡ selecting
      → is_done s.upstream ≡ true
      → Step g s (record s { caller = cleaning; upstream_err = true; cancelled = true })
  cleans :
      (s : Run)
      → s.caller ≡ cleaning
      → Step g s
          (record s { caller = awaiting; cleanups = s.cleanups + (if g.has_cleanup then 1 else 0) })
  returns_result :
      (s : Run)
      → s.caller ≡ awaiting
      → s.finished ≡ true
      → Step g s (record s { caller = returned (result_of s); cancelled = true })

-- Any number of steps.
pub data Steps (g : Group) (s : Run) : Run → Type 0 where
  here : Steps g s s
  next : {t u : Run} → Steps g s t → Step g t u → Steps g s u
