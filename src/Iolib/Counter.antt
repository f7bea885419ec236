-- ===== src/Iolib/Counter.antt =====
-- enhancements/iolib/counter/: readers and writers that call functions with the bytes they move. A
-- stack is what wraps what: a *counter.Reader or *counter.Writer is `counting`; a foreign type may have
-- counters, and may have something below it.
pub mod Unwraps
mod Tests
use qtfra.Common.{ℕ, zero, suc, ◌+◌, Bool, true, false, List, [], ◌∷◌, ◌++◌, Option, none, some}
use qtfra.Common.Tests.{if◌then◌else◌, nat_beq}
use qtfra.Common.Lists.{length}
use qtfra.Common.Outcomes.{Outcome, returns, runs_on, ◌>>=◌}

pub data Stack (F : Type 0) : Type 0 where
  base : Option (List F) → ℕ → Stack F
  over : Option (List F) → Stack F → Stack F
  counting : List F → Stack F → Stack F

module _ {F : Type 0} where
  -- The loop of UnwrapReadCounter, with the counters found so far.
  unwrap_read_loop : Stack F → List F → Stack F × List F
  unwrap_read_loop (base none n) ans = (base none n, ans)
  unwrap_read_loop (base (some cs) n) ans = (base (some cs) n, ans ++ cs)
  unwrap_read_loop (over none r) ans = (over none r, ans)
  unwrap_read_loop (over (some cs) r) ans = unwrap_read_loop r (ans ++ cs)
  unwrap_read_loop (counting cs r) ans = unwrap_read_loop r (ans ++ cs)

  -- UnwrapReadCounter
  pub unwrap_read_counter : Stack F → Stack F × List F
  unfolding unwrap_read_loop
  unwrap_read_counter r = unwrap_read_loop r []

  -- The loop of UnwrapWriterCounter: it goes round again whenever it saw a counter, with the writer
  -- below if there is one and with the same writer if not.
  unwrap_writer_loop : ℕ → Stack F → List F → Outcome (Stack F × List F)
  unwrap_writer_loop zero w ans = runs_on
  unwrap_writer_loop (suc fuel) (base none n) ans = returns (base none n, ans)
  unwrap_writer_loop (suc fuel) (base (some cs) n) ans =
      unwrap_writer_loop fuel (base (some cs) n) (ans ++ cs)
  unwrap_writer_loop (suc fuel) (over none w) ans = returns (over none w, ans)
  unwrap_writer_loop (suc fuel) (over (some cs) w) ans = unwrap_writer_loop fuel w (ans ++ cs)
  unwrap_writer_loop (suc fuel) (counting cs w) ans = unwrap_writer_loop fuel w (ans ++ cs)

  -- UnwrapWriterCounter
  pub unwrap_writer_counter : ℕ → Stack F → Outcome (Stack F × List F)
  unfolding unwrap_writer_loop
  unwrap_writer_counter fuel w = unwrap_writer_loop fuel w []

  -- The slow path: the counters that were there come first.
  abbrev pub flattened : Stack F × List F → List F → Stack F
  flattened (inner, extra) counters = counting (extra ++ counters) inner

  -- NewReader, of a reader that is not nil.
  abbrev pub new_counted : Stack F → List F → Stack F
  new_counted (counting cs r) counters = counting (cs ++ counters) r
  new_counted (base d n) counters = flattened (unwrap_read_counter (base d n)) counters
  new_counted (over d r) counters = flattened (unwrap_read_counter (over d r)) counters

  pub new_reader : Stack F → List F → Stack F
  unfolding unwrap_read_counter
  new_reader r counters = if nat_beq (length counters) 0 then r else new_counted r counters

  -- NewWriter, of a writer that is not nil.
  abbrev pub new_counted_writer : ℕ → Stack F → List F → Outcome (Stack F)
  new_counted_writer fuel (counting cs w) counters = returns (counting (cs ++ counters) w)
  new_counted_writer fuel w counters =
      unwrap_writer_counter fuel w >>= λ found. returns (flattened found counters)

  pub new_writer : ℕ → Stack F → List F → Outcome (Stack F)
  unfolding unwrap_writer_counter
  new_writer fuel w counters =
      if nat_beq (length counters) 0 then returns w else new_counted_writer fuel w counters

  -- Read and Write of a stack that moved some bytes: the counters that are called, in order.
  unfoldable pub called : Stack F → List F
  called (base none n) = []
  called (base (some cs) n) = cs
  called (over none r) = called r
  called (over (some cs) r) = called r ++ cs
  called (counting cs r) = called r ++ cs
