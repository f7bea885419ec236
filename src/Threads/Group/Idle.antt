-- ===== src/Threads/Group/Idle.antt =====
-- Run of threads/group.go without tasks.
use qtfra.Common.{ℕ, ◌≡◌, ◌≢◌, false, List, [], ◌∷◌, Option, some, refl, ap, map, arith}
use qtfra.Common.Lists.{get_elem?}
use qtfra.Ex.Error.{Error}
use qtfra.Threads.Group.{
  Group, Run, Stage, waiting, running, ended, counted, leaving, first_stage, started, returned,
  Step, Steps, here, next, context_ends, enters, skips, ends, counts, closes, leaves, sees_cancel,
  sees_context, cleans, returns_result,
}

-- No goroutine, taskFinish not called, and the caller not past it.
record Idle (s : Run) : Type 0 where
  no_threads : s.threads ≡ []
  unfinished : s.finished ≡ false
  not_returned : (r : Option Error) → s.caller ≢ returned r

nobody :
    (threads : List Stage) (i : ℕ) (stage : Stage)
    → threads ≡ []
    → get_elem? threads i ≡ some stage
    → ⊥
nobody [] i stage e at_i = ground arith
nobody (x ∷ threads) i stage e at_i = ground arith

module _ {g : Group} where
  Step-Idle : {s t : Run} → Step g s t → Idle s → Idle t
  Step-Idle (context_ends s err e) v = record {
    no_threads = v.no_threads;
    unfinished = v.unfinished;
    not_returned = v.not_returned;
  }
  Step-Idle (enters s i n at_i e) v = absurd (nobody s.threads i waiting v.no_threads at_i)
  Step-Idle (skips s i at_i e) v = absurd (nobody s.threads i waiting v.no_threads at_i)
  Step-Idle (ends s i result at_i) v = absurd (nobody s.threads i running v.no_threads at_i)
  Step-Idle (counts s i result at_i) v =
      absurd (nobody s.threads i (ended result) v.no_threads at_i)
  Step-Idle (closes s i n at_i) v = absurd (nobody s.threads i (counted n) v.no_threads at_i)
  Step-Idle (leaves s i capacity at_i e room) v =
      absurd (nobody s.threads i leaving v.no_threads at_i)
  Step-Idle (sees_cancel s e done) v = record {
    no_threads = v.no_threads;
    unfinished = v.unfinished;
    not_returned = λ r at_end. ground arith;
  }
  Step-Idle (sees_context s e done) v = record {
    no_threads = v.no_threads;
    unfinished = v.unfinished;
    not_returned = λ r at_end. ground arith;
  }
  Step-Idle (cleans s e) v = record {
    no_threads = v.no_threads;
    unfinished = v.unfinished;
    not_returned = λ r at_end. ground arith;
  }
  Step-Idle (returns_result s e fin) v = absurd (ground (arith, v.unfinished))

  Steps-Idle : {s : Run} → Steps g (started g) s → g.tasks ≡ [] → Idle s
  Steps-Idle here e = record {
    no_threads = ap (map (λ task. first_stage g.queue)) e;
    unfinished = refl;
    not_returned = λ r at_end. ground arith;
  }
  Steps-Idle (next steps step) e = Step-Idle step (Steps-Idle steps e)

-- A Run of a group without tasks never returns, whatever its context does.
pub Steps-waits :
    (g : Group) (s : Run) (r : Option Error)
    → Steps g (started g) s
    → g.tasks ≡ []
    → s.caller ≢ returned r
Steps-waits g s r steps e = (Steps-Idle steps e).not_returned r
