-- ===== src/Log/Console/Handle.antt =====
-- log/loghandler/console_handler.go: Handle, from the new state to the deferred Free. Of the state's
-- Free, that it recovers from a panic is left out; the flush error that it reports to the internal log
-- is returned beside Handle's own.
use qtfra.Common.{ℕ, ◌+◌, Bool, List, [], ◌∷◌, Option, none, some, String}
use qtfra.Common.Tests.{if◌then◌else◌, nat_comparable}
use qtfra.Common.Words.{lt_int}
use qtfra.Common.Outcomes.{Outcome, returns, ◌>>=◌}
use qtfra.Ex.Error.{Error, cause}
use qtfra.Buf.Alloc.{Allocator}
use qtfra.Buf.Buffer.{new_size, free}
use qtfra.Buf.Buffer.Stream.{WriteCall}
use qtfra.Iolib.BufWriter.{BufWriter, new_buf_writer, flush}
use qtfra.Log.Attrs.{Text, Value, Attr}
use qtfra.Log.Console.State.{
  State, Source, is_blank, space, write, write_string, write_time, write_level, write_attr,
  write_meta, next_line, write_source,
}
use qtfra.Log.Console.Handler.{ConsoleHandler, Record, default_buffer_size}

-- What the handler asks of code outside it: slog's text of a value, decimal digits, the clock, and the
-- text of the error on an entry of the metadata; and whether the build has the debug flag.
pub record Outside (V T : Type 0) : Type 0 where
  pub string_of : Value V T → Text
  pub decimal : ℕ → Text
  pub debug_enabled : Bool
  pub now : T
  pub is_zero : T → Bool
  pub entry_failed : ℕ → Attr V T → String

-- `state.Err != nil`: Handle returns it under a description.
abbrev pub failed_or :
    {W T : Type 0}
    → String
    → Option Error
    → State W T
    → Outcome (Option Error × State W T)
    → Outcome (Option Error × State W T)
failed_or due (some err) s m = returns (some (cause err due), s)
failed_or due none s m = m

module _ {W V T : Type 0} (write_call : WriteCall W) (fuel : ℕ) (outside : Outside V T)
    (h : ConsoleHandler V T) where
  -- newState, with the buffer that NewSize made.
  abbrev pub new_state : BufWriter W → State W T
  new_state buffer = record {
    err = none;
    buffer = buffer;
    group = h.group_prefix;
    level = h.level_format;
    time = some h.time_format;
  }

  abbrev pub stamp : Record V T → State W T → Outcome (State W T)
  stamp r s =
      if h.enable_time
      then write_time write_call fuel (if outside.is_zero r.time then outside.now else r.time) s
      else returns s

  abbrev pub stamp_space : State W T → Outcome (State W T)
  stamp_space s = if h.enable_time then space write_call fuel s else returns s

  -- The loop over the metadata, and then what follows it.
  unfoldable pub entries :
      ℕ
      → List (Attr V T)
      → (State W T → Outcome (Option Error × State W T))
      → State W T
      → Outcome (Option Error × State W T)
  entries i [] rest s = rest s
  entries i (m ∷ metadata) rest s = do
    s' ← write_meta outside.string_of write_call fuel m.value s
    failed_or (outside.entry_failed i m) s'.err s' (entries (i + 1) metadata rest s')

  abbrev pub message : Record V T → State W T → Outcome (State W T)
  message r s = do s' ← space write_call fuel s; write_string write_call fuel r.message s'

  abbrev pub pre_formated : State W T → Outcome (State W T)
  pre_formated s =
      if is_blank h.pre_formated_attr
      then returns s
      else (do s' ← space write_call fuel s; write write_call fuel h.pre_formated_attr s')

  -- `r.Attrs(state.WriteAttr)`, which stops at the first false.
  unfoldable pub each_attr : List (Attr V T) → State W T → Outcome (State W T)
  each_attr [] s = returns s
  each_attr (a ∷ attrs) s = do
    done ← write_attr outside.string_of write_call fuel a.key a.value s
    let rest = each_attr attrs done.1
    (if done.0 then rest else returns done.1)

  abbrev pub found_source : Option Source → State W T → Outcome (State W T)
  found_source none s = returns s
  found_source (some source) s =
      write_source write_call fuel outside.decimal outside.debug_enabled source s

  abbrev pub traced : Record V T → State W T → Outcome (State W T)
  traced r s = if lt_int r.level h.source_level then returns s else found_source r.source s

  -- Handle from the message on, and Handle between newState and its return.
  abbrev pub write_rest : Record V T → State W T → Outcome (Option Error × State W T)
  write_rest r s = do
    s ← message r s
    failed_or "write message" s.err s (do
      s ← pre_formated s
      failed_or "write attrs" s.err s (do
        s ← each_attr r.attrs s
        failed_or "write attrs" s.err s (do
          s ← next_line write_call fuel s
          failed_or "next line" s.err s (do s ← traced r s; returns (s.err, s)))))

  abbrev pub write_line : Record V T → State W T → Outcome (Option Error × State W T)
  write_line r s = do
    s ← stamp r s
    failed_or "write time" s.err s (do
      s ← stamp_space s
      s ← write_level write_call fuel r.level s
      failed_or "write level" s.err s (entries 0 h.metadata (write_rest r) s))

  -- The state's Free: what it reports, the writer, and the allocator after the buffer's Free.
  abbrev pub free_state : Allocator → State W T → Outcome (Option Error × W × Allocator)
  free_state alloc s = do
    flushed ← flush write_call fuel s.buffer
    freed ← free alloc flushed.1.buffer
    returns (flushed.0, flushed.1.underlay, freed.1)

  -- Handle: its error, what Free reports, the writer and the allocator after it.
  unfoldable pub handle :
      Allocator → ℕ → Record V T → W → Outcome (Option Error × Option Error × W × Allocator)
  handle alloc choice r w = do
    made ← new_size alloc choice default_buffer_size
    writer ← new_buf_writer made.1 choice w (some made.0)
    done ← write_line r (new_state writer.0)
    freed ← free_state writer.1 done.1
    returns (done.0, freed.0, freed.1, freed.2)
