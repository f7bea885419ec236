-- ===== src/Iolib/Counter/Tests.antt =====
-- Counters told by numbers.
use qtfra.Common.{ℕ, ◌+◌, ◌≡◌, Bool, [], ◌∷◌, none, some, arith}
use qtfra.Common.Tests.{nat_beq}
use qtfra.Common.Outcomes.{returns, runs_on}
use qtfra.Iolib.Counter.{
  Stack, base, over, counting, new_reader, called, unwrap_writer_counter, unwrap_read_counter,
}
use qtfra.Iolib.Counter.Unwraps.{count, new_reader-count, unwrap_writer_counter-cases}

abbrev is_one : ℕ → Bool
is_one n = nat_beq n 1

abbrev stack : Stack ℕ
stack = over (some (1 ∷ [])) (counting (2 ∷ 1 ∷ []) (base none 0))

abbrev rootless : Stack ℕ
rootless = base (some (7 ∷ [])) 5

new_reader-count_example :
    count is_one (called (new_reader stack (1 ∷ 3 ∷ [])))
    ≡ count is_one (called stack) + count is_one (1 ∷ 3 ∷ [])
new_reader-count_example = new_reader-count is_one stack (1 ∷ 3 ∷ []) tt

unwrap_writer_counter-cases_example :
    (unwrap_writer_counter 3 stack ≡ returns (unwrap_read_counter stack))
    × ((rounds : ℕ) → unwrap_writer_counter rounds rootless ≡ runs_on)
    × (unwrap_read_counter rootless ≡ (rootless, 7 ∷ []))
unwrap_writer_counter-cases_example =
    unwrap_writer_counter-cases 3 stack (7 ∷ []) 5 tt (omega arith)
