-- ===== src/Services/Tests.antt =====
-- A service that counts its phases and fails in Start.
use qtfra.Common.{ℕ, ◌+◌, ◌≡◌, none, some, refl}
use qtfra.Ex.Error.{leaf, canceled, wrap}
use qtfra.Services.{LifeCycle, Phase, start, close, context_or}
use qtfra.Services.Sequences.{Ran, start_phases, close_phases, start-Ran, close-Ran}

abbrev counts : Phase ℕ
counts n = (none, n + 1)

abbrev failing : LifeCycle ℕ ℕ
failing = record {
  pre_start = some (λ ctx. counts);
  start_method = λ ctx n. (some (leaf canceled), n + 10);
  post_start = some (λ ctx. counts);
  pre_close = none;
  close_method = counts;
  post_close = some counts;
}

start-failing : start 7 none failing 0 ≡ (some (wrap "Start" (leaf canceled)), 11)
unfolding start
start-failing = refl

start-Ran_example :
    Ran
      (start_phases (context_or 7 none) failing)
      0
      (start 7 none failing 0).0
      (start 7 none failing 0).1
start-Ran_example = start-Ran 7 none failing 0

close-Ran_example : Ran (close_phases failing) 0 (close failing 0).0 (close failing 0).1
close-Ran_example = close-Ran failing 0
