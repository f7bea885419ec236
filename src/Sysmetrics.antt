-- ===== src/Sysmetrics.antt =====
-- sys/sysmetrics: a Collector's tasks, its producers, and how it ends. What gopsutil reads is an
-- argument; so is what a task's context says. Logging is left out.
use qtfra.Common.{ℕ, zero, suc, ◌≡◌, Bool, true, false, List, [], ◌∷◌, Option, none, some, refl}
use qtfra.Common.Tests.{if◌then◌else◌}
use qtfra.Common.Outcomes.{Outcome, returns, panics, ◌>>=◌}
use qtfra.Ex.Error.{Error, Sentinel, leaf, is_multi}

-- NetMetrics and Metrics; the structs of gopsutil are parameters.
record NetMetrics : Type 0 where
  pub tx : ℕ
  pub rx : ℕ
  pub tx_all : ℕ
  pub rx_all : ℕ

record Metrics (Load Misc Mem : Type 0) : Type 0 where
  pub time : ℕ
  pub uptime : ℕ
  pub load : Option Load
  pub load_misc : Option Misc
  pub mem : Option Mem
  pub net : Option NetMetrics

-- What a call of gopsutil returns.
data Stat (V : Type 0) : Type 0 where
  stat : V → Stat V
  failed : Error → Stat V

-- collectTask, with the count of its WaitGroup and whether its context is done.
record CollectTask (Load Misc Mem : Type 0) : Type 0 where
  pub cancelled : Bool
  pub m : Metrics Load Misc Mem
  pub wg : ℕ
  pub err : Option Error

-- WaitGroup's Done, which panics below zero.
abbrev wait_group_done : ℕ → Outcome ℕ
wait_group_done zero = panics
wait_group_done (suc n) = returns n

-- ct.err keeps its value where there is no error.
abbrev keep_error : Option Error → Option Error → Option Error
keep_error none old = old
keep_error (some e) old = some e

-- What a producer's select takes: c.done, the group's context, a task, or a closed channel.
data Event (Load Misc Mem : Type 0) : Type 0 where
  collector_done : Event Load Misc Mem
  context_done : Error → Event Load Misc Mem
  task : CollectTask Load Misc Mem → Event Load Misc Mem
  channel_closed : Event Load Misc Mem

-- Whether a producer ended, or goes on with the task it took as it left it.
data Round (Load Misc Mem : Type 0) : Type 0 where
  ended : Error → Round Load Misc Mem
  goes_on : CollectTask Load Misc Mem → Round Load Misc Mem

module _ {Load Misc Mem : Type 0} where
  -- newCollectTask
  abbrev new_collect_task : ℕ → Bool → CollectTask Load Misc Mem
  new_collect_task now cancelled = record {
    cancelled = cancelled;
    m = record { time = now; uptime = 0; load = none; load_misc = none; mem = none; net = none };
    wg = 0;
    err = none;
  }

  -- The producers of Start. The first network counter is what was sent and what was received.
  abbrev first_counter : List (ℕ × ℕ) → Metrics Load Misc Mem → Metrics Load Misc Mem
  first_counter [] m = m
  first_counter (counter ∷ _) m = record m {
    net = some (record { tx = 0; rx = 0; tx_all = counter.0; rx_all = counter.1 });
  }

  net : Stat (List (ℕ × ℕ)) → Metrics Load Misc Mem → Option Error × Metrics Load Misc Mem
  net (Stat.failed err) m = (some err, m)
  net (Stat.stat counter) m = (none, first_counter counter m)

  load_avg : Stat (Option Load) → Metrics Load Misc Mem → Option Error × Metrics Load Misc Mem
  load_avg (Stat.failed err) m = (some err, m)
  load_avg (Stat.stat none) m = (none, m)
  load_avg (Stat.stat (some v)) m = (none, record m { load = some v })

  load_misc : Stat (Option Misc) → Metrics Load Misc Mem → Option Error × Metrics Load Misc Mem
  load_misc (Stat.failed err) m = (some err, m)
  load_misc (Stat.stat none) m = (none, m)
  load_misc (Stat.stat (some v)) m = (none, record m { load_misc = some v })

  mem : Stat (Option Mem) → Metrics Load Misc Mem → Option Error × Metrics Load Misc Mem
  mem (Stat.failed err) m = (some err, m)
  mem (Stat.stat none) m = (none, m)
  mem (Stat.stat (some v)) m = (none, record m { mem = some v })

  uptime : Stat ℕ → Metrics Load Misc Mem → Option Error × Metrics Load Misc Mem
  uptime (Stat.failed err) m = (some err, m)
  uptime (Stat.stat zero) m = (none, m)
  uptime (Stat.stat (suc n)) m = (none, record m { uptime = suc n })

  -- fn on the task's metrics, unless its context is done.
  abbrev produced :
      (Metrics Load Misc Mem → Option Error × Metrics Load Misc Mem)
      → CollectTask Load Misc Mem
      → CollectTask Load Misc Mem
  produced fn ct =
      let result = fn ct.m in
      if ct.cancelled then ct else record ct { m = result.1; err = keep_error result.0 ct.err }

  -- A round of a producer: a task's wg is never nil, and the task that comes from a closed channel is,
  -- so that asking for its wg panics.
  unfoldable round :
      (Metrics Load Misc Mem → Option Error × Metrics Load Misc Mem)
      → Event Load Misc Mem
      → Outcome (Round Load Misc Mem)
  round fn Event.collector_done = returns (Round.ended (leaf Sentinel.collector_closed))
  round fn (Event.context_done err) = returns (Round.ended err)
  round fn Event.channel_closed = panics
  round fn (Event.task ct) =
      wait_group_done ct.wg >>= λ n. returns (Round.goes_on (record (produced fn ct) { wg = n }))

  -- A task that newCollectTask made crashes the producer that takes it, cancelled or not: nothing adds
  -- to its WaitGroup.
  round-new_collect_task :
      (fn : Metrics Load Misc Mem → Option Error × Metrics Load Misc Mem) (now : ℕ)
      (cancelled : Bool)
      → round fn (Event.task (new_collect_task now cancelled)) ≡ panics
  unfolding round
  round-new_collect_task fn now cancelled = refl

-- The channel done of a Collector, which nothing is sent to.
data DoneChannel : Type 0 where
  unmade opened closed : DoneChannel

-- close of Go: of a nil or of a closed channel it panics.
abbrev close_channel : DoneChannel → Outcome DoneChannel
close_channel DoneChannel.unmade = panics
close_channel DoneChannel.opened = returns DoneChannel.closed
close_channel DoneChannel.closed = panics

-- The receive of Close: none where it would wait, else the second value, false for a closed channel.
abbrev received : DoneChannel → Option Bool
received DoneChannel.closed = some false
received _ = none

abbrev close_received : Error → Option Bool → DoneChannel → Outcome (Option Error × DoneChannel)
close_received been_closed (some true) done_channel = returns (some been_closed, done_channel)
close_received been_closed (some false) done_channel =
    close_channel done_channel >>= λ done_channel'. returns (none, done_channel')
close_received been_closed none done_channel =
    close_channel done_channel >>= λ done_channel'. returns (none, done_channel')

-- (*Collector).Close; been_closed is the error for a closed collector.
unfoldable close_collector : Error → DoneChannel → Outcome (Option Error × DoneChannel)
close_collector been_closed DoneChannel.unmade = returns (none, DoneChannel.unmade)
close_collector been_closed DoneChannel.opened =
    close_received been_closed (received DoneChannel.opened) DoneChannel.opened
close_collector been_closed DoneChannel.closed =
    close_received been_closed (received DoneChannel.closed) DoneChannel.closed

-- What Start's goroutine does with the result of the group's Run.
unfoldable run_ended : Option Error → DoneChannel → Outcome DoneChannel
run_ended none done_channel = close_channel done_channel
run_ended (some err) done_channel =
    if is_multi (some err) (Sentinel.canceled ∷ Sentinel.collector_closed ∷ [])
    then close_channel done_channel
    else (if is_multi (some err) (Sentinel.subscriber_closed ∷ [])
        then panics
        else close_channel done_channel)

-- Once Close has closed the channel, closing it again panics instead of returning the error, and so
-- does the end of a Run whose group ended without an error.
close_collector-closed :
    (been_closed : Error)
    → close_collector been_closed DoneChannel.opened ≡ returns (none, DoneChannel.closed)
      × close_collector been_closed DoneChannel.closed ≡ panics
      × run_ended none DoneChannel.closed ≡ panics
unfolding close_collector run_ended
close_collector-closed been_closed = (refl, refl, refl)
