-- ===== src/Log/Console/Handled.antt =====
-- What a writer has of a record after Handle of log/loghandler/console_handler.go.
use qtfra.Common.{
  ℕ, ◌+◌, ◌*◌, ◌≤◌, ◌<◌, ◌≡◌, Bool, true, false, List, [], ◌++◌, Option, none, some, refl, sym, ap,
  ◌∙◌, append-nil, arith, subst,
}
use qtfra.Common.Lists.{length}
use qtfra.Common.Words.{max_int}
use qtfra.Common.Outcomes.{Outcome, returns, ◌>>=◌}
use qtfra.Ex.Error.{Error}
use qtfra.Buf.Slice.{Slice, cap_of}
use qtfra.Buf.Alloc.{Allocator}
use qtfra.Buf.Alloc.Safety.{IsStocked}
use qtfra.Buf.Buffer.{Buffer, new_size, free}
use qtfra.Buf.Buffer.Valid.{IsValid, contents, length-contents}
use qtfra.Buf.Buffer.Lifecycle.{Returnable, IsFresh, IsReturnable, new_size-IsFresh, free-IsStocked}
use qtfra.Buf.Buffer.Stream.{WriteCall}
use qtfra.Iolib.BufWriter.{new_buf_writer}
use qtfra.Iolib.BufWriter.Ordered.{Honest, stream, flush-Takes}
use qtfra.Iolib.BufWriter.Written.{no_bytes}
use qtfra.Log.Console.State.{State}
use qtfra.Log.Console.Handler.{ConsoleHandler, Record, default_buffer_size}
use qtfra.Log.Console.Handle.{Outside, new_state, write_line, free_state, handle}
use qtfra.Log.Console.Rendered.{line}
use qtfra.Log.Console.Lines.{Sent, write_line-Sent}

-- A buffer that can be given back stays so over an array of the same length.
stays-IsReturnable :
    (b b' : Buffer)
    → IsReturnable b
    → 0 < cap_of b.bytes
    → cap_of b'.bytes ≡ cap_of b.bytes
    → b'.managed ≡ b.managed
    → IsReturnable b'
stays-IsReturnable b b' ret some_room same_array same_kind =
    subst (λ m. Returnable m b'.bytes) (sym same_kind)
      (by_kind b.managed b.bytes b'.bytes ret some_room same_array)
  where
    by_kind :
        (m : Bool) (d d' : Option Slice)
        → Returnable m d
        → 0 < cap_of d
        → cap_of d' ≡ cap_of d
        → Returnable m d'
    by_kind false d none ret some_room same = tt
    by_kind false d (some s) ret some_room same = tt
    by_kind true d none ret some_room same = tt
    by_kind true none (some s) ret some_room same = absurd (omega arith)
    by_kind true (some s) (some s') (k, e, small) some_room same = (k, same ∙ e, small)

module _ {W V T : Type 0} (write_call : WriteCall W) (log : W → List ℕ) (fuel : ℕ)
    (outside : Outside V T) (h : ConsoleHandler V T) where
  -- Handle returned: its error, what Free reported, and what became of the line.
  pub record Handled (r : Record V T) (w : W)
      (res : Outcome (Option Error × Option Error × W × Allocator)) : Type 0 where
    pub err : Option Error
    pub reported : Option Error
    pub last : W
    pub alloc : Allocator
    pub returned : res ≡ returns (err, reported, last, alloc)
    pub stocked : IsStocked alloc
    pub taken : List ℕ
    pub left : List ℕ
    pub lost : List ℕ
    pub split : taken ++ left ≡ line outside h r
    pub kept : log last ++ lost ≡ log w ++ taken
    pub all_or_error : err ≡ none → left ≡ []
    pub none_lost : reported ≡ none → lost ≡ []

  module _ (honest : Honest write_call log) where
    -- The state's Free: what waits goes to the writer, or is lost where a flush error is reported.
    freed :
        (alloc : Allocator) (s : State W T)
        → IsStocked alloc
        → IsReturnable s.buffer.buffer
        → 0 < cap_of s.buffer.buffer.bytes
        → IsValid s.buffer.buffer
        → s.buffer.buffer.size * 102 + 101 ≤ fuel
        → (reported : Option Error) × (last : W) × (alloc' : Allocator) × (free_state write_call
              fuel outside h alloc s
            ≡ returns (reported, last, alloc'))
          × IsStocked alloc'
          × ((lost : List ℕ) × (log last ++ lost ≡ stream write_call log s.buffer)
              × (reported ≡ none → lost ≡ []))
    freed alloc s stocked ret some_room v enough =
        let (err, b, e, t, empty) = flush-Takes write_call log honest fuel s.buffer v enough in
        let (b', alloc', e', _, _, stocked') =
          free-IsStocked alloc b.buffer stocked (
            stays-IsReturnable s.buffer.buffer b.buffer ret some_room t.array_stays t.kind_stays) in
        (
          err,
          b.underlay,
          alloc',
          ap
                (λ o. o >>= λ flushed. free alloc flushed.1.buffer >>= λ freed.
                  returns (flushed.0, flushed.1.underlay, freed.1))
                e
              ∙ ap (λ o. o >>= λ freed. returns (err, b.underlay, freed.1)) e',
          stocked',
          (
            contents b.buffer,
            t.in_order ∙ append-nil (stream write_call log s.buffer),
            λ fine.
                no_bytes (contents b.buffer)
                  (omega (arith, empty fine, length-contents t.still_valid)),
          ),
        )

    -- The state that newState makes over a fresh buffer.
    abbrev fresh_state : W → Buffer → State W T
    fresh_state w b = new_state write_call fuel outside h (record { underlay = w; buffer = b })

    -- A record's line that was sent, and the state's Free after it.
    line-Handled :
        (alloc alloc' : Allocator) (choice : ℕ) (r : Record V T) (w : W) (b : Buffer)
        → new_size alloc choice default_buffer_size ≡ returns (b, alloc')
        → IsFresh default_buffer_size b
        → IsReturnable b
        → IsStocked alloc'
        → default_buffer_size * 102 + 101 ≤ fuel
        → Sent write_call log
            (line outside h r)
            (fresh_state w b)
            (write_line write_call fuel outside h r (fresh_state w b))
        → Handled r w (handle write_call fuel outside h alloc choice r w)
    unfolding handle new_buf_writer
    line-Handled alloc alloc' choice r w b made fresh ret stocked' enough sent =
        let m = sent.moved in
        let room : 0 < cap_of b.bytes = omega (arith, fresh.size_is, fresh.valid) in
        let (reported, last, alloc'', e, stocked'', (lost, kept, none_lost)) =
          freed alloc' sent.after stocked'
            (stays-IsReturnable b sent.after.buffer.buffer ret room m.takes.array_stays
              m.takes.kind_stays)
            (omega (arith, room, m.takes.array_stays)) m.takes.still_valid
            (omega (arith, m.takes.size_stays, fresh.size_is, enough)) in
        let empty : contents b ≡ [] =
          no_bytes (contents b)
            (omega (arith, length-contents fresh.valid, fresh.no_reads, fresh.no_writes)) in
        record {
          err = sent.err;
          reported = reported;
          last = last;
          alloc = alloc'';
          returned = rw made (
              ap
                (λ o. o >>= λ done. free_state write_call fuel outside h alloc' done.1 >>= λ gone.
                  returns (done.0, gone.0, gone.1, gone.2))
                sent.returned
              ∙ ap (λ o. o >>= λ gone. returns (sent.err, gone.0, gone.1, gone.2)) e);
          stocked = stocked'';
          taken = m.taken;
          left = m.left;
          lost = lost;
          split = m.split;
          kept =
              kept
              ∙ (m.takes.in_order
                  ∙ ap (λ c. c ++ m.taken) (ap (◌++◌ (log w)) empty ∙ append-nil (log w)));
          all_or_error = λ fine. m.all_or_error (sent.reported fine);
          none_lost = none_lost;
        }

    -- Handle returns for every writer that keeps io.Writer's contract, and what the writer has taken of
    -- it, with what is lost where Free reports a flush error, is the beginning of the record's line:
    -- the whole line, where Handle reports no error.
    pub handle-Handled :
        (alloc : Allocator) (choice : ℕ) (r : Record V T) (w : W)
        → IsStocked alloc
        → default_buffer_size * 102 + 101 ≤ fuel
        → default_buffer_size + length (line outside h r) ≤ max_int
        → Handled r w (handle write_call fuel outside h alloc choice r w)
    handle-Handled alloc choice r w stocked enough fits =
        let (b, alloc', made, fresh, ret, stocked') =
          new_size-IsFresh alloc choice default_buffer_size stocked (omega arith) in
        line-Handled alloc alloc' choice r w b made fresh ret stocked' enough (
          write_line-Sent write_call log honest fuel (length (line outside h r)) outside h r
            (fresh_state w b)
            (record {
              valid = fresh.valid;
              enough = omega (arith, fresh.size_is, enough);
              fits = omega (arith, fresh.size_is, fits);
              group_is = refl;
              level_is = refl;
              time_is = refl;
            })
            (omega arith))
