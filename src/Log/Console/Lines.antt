-- ===== src/Log/Console/Lines.antt =====
-- Handle of log/loghandler/console_handler.go writes the line of its record, between newState and Free.
use qtfra.Common.{
  ℕ, ◌+◌, ◌≤◌, ◌≡◌, Bool, true, false, List, [], ◌∷◌, ◌++◌, Option, none, some, String, ap, ◌∙◌,
  inl, inr, arith,
}
use qtfra.Common.Tests.{if◌then◌else◌, nat_comparable, Option-cases}
use qtfra.Common.Lists.{length, length-append}
use qtfra.Common.Words.{lt_int}
use qtfra.Common.Outcomes.{Outcome, returns, ◌>>=◌}
use qtfra.Ex.Error.{Error, cause}
use qtfra.Buf.Buffer.Stream.{WriteCall}
use qtfra.Iolib.BufWriter.Ordered.{Honest}
use qtfra.Log.Attrs.{Attr}
use qtfra.Log.Console.State.{State, Source, is_nil, is_blank, space_byte, space, write_attr}
use qtfra.Log.Console.Handler.{ConsoleHandler, Record}
use qtfra.Log.Console.Handle.{
  Outside, failed_or, entries, each_attr, found_source, traced, write_rest, write_line,
}
use qtfra.Log.Console.Rendered.{
  attr_text, record_attrs, found_text, traced_text, rest_text, entries_text, line,
}
use qtfra.Log.Console.Moved.{
  Moved, Ready, Steps, step_nothing, step_on, Moved-Ready, steps_joined, skipped,
}
use qtfra.Log.Console.Elements.{
  write-Out, write_string-Out, write_time-Out, write_level-Out, write_byte-Out, write_source-Out,
  write_meta-Out,
}
use qtfra.Log.Console.Attributes.{write_attr-Told}

module _ {W T : Type 0} (write_call : WriteCall W) (log : W → List ℕ) where
  -- Handle from some step on has written the text, all of it unless it reports an error.
  pub record Sent (bs : List ℕ) (s : State W T) (res : Outcome (Option Error × State W T))
      : Type 0 where
    pub err : Option Error
    pub after : State W T
    pub returned : res ≡ returns (err, after)
    pub moved : Moved write_call log bs s after
    pub reported : err ≡ none → after.err ≡ none

module _ {W V T : Type 0} (write_call : WriteCall W) (log : W → List ℕ)
    (honest : Honest write_call log) (fuel limit : ℕ) (outside : Outside V T)
    (h : ConsoleHandler V T) where
  abbrev Good : State W T → Type 0
  Good s = Ready write_call log fuel limit h.group_prefix h.level_format h.time_format s

  abbrev Writes : List ℕ → (State W T → Outcome (State W T)) → Type 0
  Writes bs f = Steps write_call log fuel limit h.group_prefix h.level_format h.time_format bs f

  abbrev Sends : List ℕ → (State W T → Outcome (Option Error × State W T)) → Type 0
  Sends bs f = (s : State W T) → Good s → length bs ≤ limit → Sent write_call log bs s (f s)

  -- A step, and what follows it.
  step_before :
      {a c : List ℕ} (f : State W T → Outcome (State W T))
      (k : State W T → Outcome (Option Error × State W T))
      → Writes a f
      → Sends c k
      → Sends (a ++ c) (λ s. f s >>= k)
  step_before {a} {c} f k first next s r small =
      let (mid, e, m) = first s r (omega (arith, length-append a c)) in
      let sent =
        next mid
          (Moved-Ready write_call log fuel limit h.group_prefix h.level_format h.time_format r m)
          (omega (arith, length-append a c)) in
      record {
        err = sent.err;
        after = sent.after;
        returned = ap (λ o. o >>= k) e ∙ sent.returned;
        moved = steps_joined write_call log m sent.moved;
        reported = sent.reported;
      }

  -- Handle returns at the first error, and has written nothing more.
  checked :
      {bs : List ℕ} (due : String) (f : State W T → Outcome (Option Error × State W T))
      → Sends bs f
      → Sends bs (λ s. failed_or due s.err s (f s))
  checked {bs} due f sends s r small = elim (Option-cases s.err) [
    | inl calm ↦
        let sent = sends s r small in
        record {
          err = sent.err;
          after = sent.after;
          returned = ap (λ o. failed_or due o s (f s)) calm ∙ sent.returned;
          moved = sent.moved;
          reported = sent.reported;
        }
    | inr (e, failed) ↦ record {
      err = some (cause e due);
      after = s;
      returned = ap (λ o. failed_or due o s (f s)) failed;
      moved = skipped write_call log bs s failed r.valid;
      reported = λ fine. absurd (ground arith);
    }
  ]

  one_attr :
      (a : Attr V T) (k : State W T → Outcome (State W T)) {c : List ℕ}
      → Writes c k
      → Writes (attr_text outside.string_of h.group_prefix h.time_format a.key a.value ++ c) (λ s.
        do
          done ← write_attr outside.string_of write_call fuel a.key a.value s
          (if done.0 then k done.1 else returns done.1))
  one_attr a k {c} next s r small =
      let text = attr_text outside.string_of h.group_prefix h.time_format a.key a.value in
      let told =
        write_attr-Told write_call log honest fuel limit h.group_prefix h.level_format h.time_format
          outside.string_of a.key a.value s r (omega (arith, length-append text c)) in
      let r' =
        Moved-Ready write_call log fuel limit h.group_prefix h.level_format h.time_format r
          told.moved in
      let start =
        ap (λ o. o >>= λ done. if done.0 then k done.1 else returns done.1) told.returned in
      let go : Option Error → Outcome (State W T) =
        λ o. if is_nil o then k told.after else returns told.after in
      elim (Option-cases told.after.err) [
        | inl calm ↦
            let (after, e, m) = next told.after r' (omega (arith, length-append text c)) in
            (after, start ∙ (ap go calm ∙ e), steps_joined write_call log told.moved m)
        | inr (e, failed) ↦ (
          told.after,
          start ∙ ap go failed,
          steps_joined write_call log told.moved
              (skipped write_call log c told.after failed r'.valid),
        )
      ]

  each_attr-Out :
      (attrs : List (Attr V T))
      → Writes (record_attrs outside h attrs) (each_attr write_call fuel outside h attrs)
  unfolding each_attr
  each_attr-Out [] =
      step_nothing write_call log fuel limit h.group_prefix h.level_format h.time_format
  each_attr-Out (a ∷ attrs) =
      one_attr a (each_attr write_call fuel outside h attrs) (each_attr-Out attrs)

  when :
      {bs : List ℕ} {f : State W T → Outcome (State W T)} (c : Bool)
      → Writes bs f
      → Writes (if c then bs else []) (λ s. if c then f s else returns s)
  when true writes = writes
  when false writes =
      step_nothing write_call log fuel limit h.group_prefix h.level_format h.time_format

  unless :
      {bs : List ℕ} {f : State W T → Outcome (State W T)} (c : Bool)
      → Writes bs f
      → Writes (if c then [] else bs) (λ s. if c then returns s else f s)
  unless true writes =
      step_nothing write_call log fuel limit h.group_prefix h.level_format h.time_format
  unless false writes = writes

  space-Out : Writes (space_byte ∷ []) (space write_call fuel)
  space-Out =
      write_byte-Out write_call log honest fuel limit h.group_prefix h.level_format h.time_format
        space_byte

  -- A space and then a text.
  behind_space :
      {bs : List ℕ} {f : State W T → Outcome (State W T)}
      → Writes bs f
      → Writes (space_byte ∷ [] ++ bs) (λ s. do s' ← space write_call fuel s; f s')
  behind_space {f = f} writes =
      step_on write_call log fuel limit h.group_prefix h.level_format h.time_format
        (space write_call fuel) f space-Out writes

  found_source-Out :
      (source : Option Source)
      → Writes (found_text outside h source) (found_source write_call fuel outside h source)
  found_source-Out none =
      step_nothing write_call log fuel limit h.group_prefix h.level_format h.time_format
  found_source-Out (some source) =
      write_source-Out write_call log honest fuel limit h.group_prefix h.level_format h.time_format
        outside.decimal outside.debug_enabled source

  -- The last step, whose error Handle returns as it is.
  traced-Sent :
      (r : Record V T)
      → Sends
          (traced_text outside h r)
          (λ s. do s ← traced write_call fuel outside h r s; returns (s.err, s))
  traced-Sent rec s r small =
      let (after, e, m) =
        unless (lt_int rec.level h.source_level) (found_source-Out rec.source) s r small in
      record {
        err = after.err;
        after = after;
        returned = ap (λ o. o >>= λ l. returns (l.err, l)) e;
        moved = m;
        reported = λ fine. fine;
      }

  write_rest-Sent :
      (r : Record V T) → Sends (rest_text outside h r) (write_rest write_call fuel outside h r)
  write_rest-Sent r =
      step_before _ _
        (behind_space (
          write_string-Out write_call log honest fuel limit h.group_prefix h.level_format
            h.time_format r.message))
        (checked "write message" _ (
          step_before _ _
            (unless (is_blank h.pre_formated_attr) (
              behind_space (
                write-Out write_call log honest fuel limit h.group_prefix h.level_format
                  h.time_format h.pre_formated_attr)))
            (checked "write attrs" _ (
              step_before _ _ (each_attr-Out r.attrs) (
                checked "write attrs" _ (
                  step_before _ _
                    (write_byte-Out write_call log honest fuel limit h.group_prefix h.level_format
                      h.time_format 10)
                    (checked "next line" _ (traced-Sent r))))))))

  entries-Sent :
      (i : ℕ) (metadata : List (Attr V T)) {bs : List ℕ}
      (rest : State W T → Outcome (Option Error × State W T))
      → Sends bs rest
      → Sends
          (entries_text outside h metadata bs)
          (entries write_call fuel outside h i metadata rest)
  unfolding entries
  entries-Sent i [] rest sends = sends
  entries-Sent i (m ∷ metadata) rest sends =
      step_before _ _
        (write_meta-Out write_call log honest fuel limit h.group_prefix h.level_format h.time_format
          outside.string_of m.value)
        (checked (outside.entry_failed i m) _ (entries-Sent (i + 1) metadata rest sends))

  -- From the state that newState makes to the return, Handle writes the record's line.
  pub write_line-Sent :
      (r : Record V T) → Sends (line outside h r) (write_line write_call fuel outside h r)
  write_line-Sent r =
      step_before _ _
        (when h.enable_time (
          write_time-Out write_call log honest fuel limit h.group_prefix h.level_format
            h.time_format (if outside.is_zero r.time then outside.now else r.time)))
        (checked "write time" _ (
          step_before _ _ (when h.enable_time space-Out) (
            step_before _ _
              (write_level-Out write_call log honest fuel limit h.group_prefix h.level_format
                h.time_format r.level)
              (checked "write level" _ (
                entries-Sent 0 h.metadata (write_rest write_call fuel outside h r)
                  (write_rest-Sent r))))))
