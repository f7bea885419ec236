-- ===== src/Threads/Group/Tests.antt =====
-- A group of one task without a queue, whose task fails; one with a queue of one place; and one without
-- tasks.
use qtfra.Common.{◌≡◌, ◌≢◌, true, false, [], ◌∷◌, Option, none, some, refl, arith}
use qtfra.Common.Tests.{if◌then◌else◌, string_comparable}
use qtfra.Ex.Error.{Error, leaf, canceled, unexpected_eof}
use qtfra.Threads.Group.{
  Group, Run, running, ended, gone, started, move, skip, count_down, finish_at_zero, result_of,
  cleaning, awaiting, returned, Steps, here, next, context_ends, enters, skips, ends, counts,
  closes, sees_cancel, cleans, returns_result,
}
use qtfra.Threads.Group.Counts.{total, uncounted}
use qtfra.Threads.Group.Returns.{AllWithin, Steps-returned}
use qtfra.Threads.Group.Progress.{Steps-completes}
use qtfra.Threads.Group.Idle.{Steps-waits}

abbrev boom : Error
boom = leaf unexpected_eof

abbrev one_task : Group
one_task = record {
  tasks = record { name = "a" } ∷ [];
  has_cleanup = true;
  fast_fail = false;
  queue = none;
}

abbrev after_end : Run
after_end = record (move 0 (ended (some boom)) (started one_task)) { reports = boom ∷ [] }

abbrev after_lock : Run
after_lock = count_down one_task 0 (some boom) after_end

abbrev after_close : Run
after_close = finish_at_zero 0 (move 0 gone after_lock)

abbrev after_clean : Run
after_clean = record after_close { caller = awaiting; cleanups = 1 }

abbrev at_return : Run
at_return = record after_clean { caller = returned (result_of after_clean); cancelled = true }

to_return : Steps one_task (started one_task) at_return
to_return =
    next
      (next
        (next
          (next
            (next (next here (ends (started one_task) 0 (some boom) refl))
              (counts after_end 0 (some boom) refl))
            (closes after_lock 0 0 refl))
          (sees_cancel after_close refl refl))
        (cleans (record after_close { caller = cleaning }) refl))
      (returns_result after_clean refl refl)

Steps-returned_example :
    (total uncounted at_return.threads ≡ 0)
    × (if at_return.upstream_err
        then result_of after_clean ≡ at_return.upstream
        else AllWithin at_return.reports (result_of after_clean))
Steps-returned_example = Steps-returned one_task at_return (result_of after_clean) to_return refl

abbrev queued : Group
queued = record one_task { queue = some 1 }

abbrev after_enter : Run
after_enter = record (move 0 running (started queued)) { tokens = 0 }

Steps-completes_example :
    (u : Run) × (r : Option Error) × Steps queued after_enter u × (u.caller ≡ returned r)
Steps-completes_example =
    Steps-completes queued after_enter (next here (enters (started queued) 0 0 refl refl))
      (omega arith) (omega arith)

abbrev no_tasks : Group
no_tasks = record one_task { tasks = [] }

abbrev told : Run
told = record (started no_tasks) { upstream = some (leaf canceled) }

Steps-waits_example : told.caller ≢ returned none
Steps-waits_example =
    Steps-waits no_tasks told none
      (next here (context_ends (started no_tasks) (leaf canceled) refl)) refl

-- The context is done before the task gets its token, the caller's select takes taskCancelContext, and
-- Run returns no error though no task has run.
abbrev ended_early : Run
ended_early = record (started queued) { upstream = some (leaf canceled) }

abbrev skipped_one : Run
skipped_one = skip 0 ended_early

abbrev cleaned : Run
cleaned = record skipped_one { caller = awaiting; cleanups = 1 }

abbrev silent : Run
silent = record cleaned { caller = returned none; cancelled = true }

silent_return : Steps queued (started queued) silent
silent_return =
    next
      (next
        (next
          (next (next here (context_ends (started queued) (leaf canceled) refl))
            (skips ended_early 0 refl refl))
          (sees_cancel skipped_one refl refl))
        (cleans (record skipped_one { caller = cleaning }) refl))
      (returns_result cleaned refl refl)
