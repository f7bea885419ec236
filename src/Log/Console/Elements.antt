-- ===== src/Log/Console/Elements.antt =====
-- The methods of log/loghandler/consle_state.go that write one text, and WriteMeta.
use qtfra.Common.{
  ℕ, ◌≤◌, ◌≡◌, Bool, List, [], ◌∷◌, ◌++◌, Option, none, some, sym, ap, ◌∙◌, append-nil, arith,
  subst,
}
use qtfra.Common.Tests.{nat_comparable}
use qtfra.Common.Lists.{length, length-append}
use qtfra.Common.Outcomes.{Outcome, ◌>>=◌}
use qtfra.Buf.Buffer.Stream.{WriteCall}
use qtfra.Iolib.BufWriter.{write_bytes, write_text, write_one}
use qtfra.Iolib.BufWriter.Ordered.{Honest}
use qtfra.Iolib.BufWriter.Writes.{write_bytes-Written, write_text-Written, write_one-OneWritten}
use qtfra.Log.Attrs.{Text, literal, Value}
use qtfra.Log.Console.State.{
  State, Source, put_count, put_error, unless_failed, formatted, write, write_string, write_time,
  write_level, write_byte, space, suffixed, write_element, write_source, write_meta, meta_text,
  space_byte,
}
use qtfra.Log.Console.Rendered.{source_text}
use qtfra.Log.Console.Moved.{
  Out, Ready, Steps, step_nothing, step_on, step_guarded, step_write, step_one, Moved-Ready,
  steps_joined,
}

module _ {W T : Type 0} (write_call : WriteCall W) (log : W → List ℕ)
    (honest : Honest write_call log) (fuel limit : ℕ) (prefix : Text) (level : ℕ → Text)
    (time : T → Text) where
  -- The shared part of a section's names.
  abbrev Run : List ℕ → (State W T → Outcome (State W T)) → Type 0
  Run bs f = Steps write_call log fuel limit prefix level time bs f

  text_Out :
      (bs : Text) (s : State W T)
      → Ready write_call log fuel limit prefix level time s
      → length bs ≤ limit
      → s.err ≡ none
      → Out write_call log bs s (put_count s (write_text write_call fuel bs s.buffer))
  text_Out bs s r small calm =
      step_write write_call log fuel limit prefix level time s
        (write_text write_call fuel bs s.buffer) calm
        (write_text-Written write_call log honest fuel s.buffer bs r.valid r.enough
          (omega (arith, r.fits)))

  byte_Out :
      (x : ℕ) (s : State W T)
      → Ready write_call log fuel limit prefix level time s
      → s.err ≡ none
      → Out write_call log (x ∷ []) s (put_error s (write_one write_call fuel x s.buffer))
  byte_Out x s r calm =
      let (err, after, e, t) =
        write_one-OneWritten write_call log honest fuel s.buffer x r.valid r.enough in
      step_one write_call log fuel limit prefix level time x s
        (write_one write_call fuel x s.buffer) err after calm e t

  guarded_Out :
      {bs : List ℕ} (s : State W T) (m : Outcome (State W T))
      → Ready write_call log fuel limit prefix level time s
      → (s.err ≡ none → Out write_call log bs s m)
      → Out write_call log bs s (unless_failed s s.err m)
  guarded_Out s m r run = step_guarded write_call log fuel limit prefix level time s m r run

  pub write-Out : (bs : List ℕ) → Run bs (write write_call fuel bs)
  write-Out bs s r small =
      guarded_Out s (put_count s (write_bytes write_call fuel bs s.buffer)) r (λ calm.
        step_write write_call log fuel limit prefix level time s
          (write_bytes write_call fuel bs s.buffer) calm
          (write_bytes-Written write_call log honest fuel s.buffer bs r.valid r.enough))

  pub write_string-Out : (bs : Text) → Run bs (write_string write_call fuel bs)
  write_string-Out bs s r small = guarded_Out s _ r (text_Out bs s r small)

  pub write_time-Out : (t : T) → Run (time t) (write_time write_call fuel t)
  write_time-Out t s r small = guarded_Out s (formatted write_call fuel s.time t s) r (λ calm.
      subst (λ o. Out write_call log (time t) s (formatted write_call fuel o t s)) (sym r.time_is)
        (text_Out (time t) s r small calm))

  pub write_level-Out : (l : ℕ) → Run (level l) (write_level write_call fuel l)
  write_level-Out l s r small =
      guarded_Out s (put_count s (write_text write_call fuel (s.level l) s.buffer)) r (λ calm.
        subst
          (λ o.
            Out write_call log (level l) s
              (put_count s (write_text write_call fuel (o l) s.buffer)))
          (sym r.level_is) (text_Out (level l) s r small calm))

  pub write_byte-Out : (x : ℕ) → Run (x ∷ []) (write_byte write_call fuel x)
  write_byte-Out x s r small = guarded_Out s _ r (byte_Out x s r)

  -- The suffix of an element, where it has one.
  abbrev pub suffix_text : Option ℕ → Text
  suffix_text none = []
  suffix_text (some x) = x ∷ []

  suffixed-Out :
      (suffix : Option ℕ) (s : State W T)
      → Ready write_call log fuel limit prefix level time s
      → Out write_call log
          (suffix_text suffix)
          s
          (unless_failed s s.err (suffixed write_call fuel suffix s))
  suffixed-Out none s r =
      guarded_Out s _ r
        (λ calm. step_nothing write_call log fuel limit prefix level time s r (omega arith))
  suffixed-Out (some x) s r = guarded_Out s _ r (byte_Out x s r)

  pub write_element-Out :
      (str : Text) (suffix : Option ℕ)
      → Run (str ++ suffix_text suffix) (write_element write_call fuel str suffix)
  write_element-Out [] suffix s r small = suffixed-Out suffix s r
  write_element-Out (x ∷ xs) suffix s r small = guarded_Out s _ r (λ calm.
      let (mid, e, m) =
        text_Out (x ∷ xs) s r (omega (arith, length-append xs (suffix_text suffix))) calm in
      let (after, e', m') =
        suffixed-Out suffix mid (Moved-Ready write_call log fuel limit prefix level time r m) in
      (
        after,
        ap (λ done. done >>= λ s'. unless_failed s' s'.err (suffixed write_call fuel suffix s')) e
            ∙ e',
        steps_joined write_call log m m',
      ))

  -- An element with nothing behind it.
  pub plain_element-Out : (str : Text) → Run str (write_element write_call fuel str none)
  plain_element-Out str =
      subst (λ bs. Run bs (write_element write_call fuel str none)) (append-nil str)
        (write_element-Out str none)

  pub write_source-Out :
      (decimal : ℕ → Text) (debug : Bool) (source : Source)
      → Run (source_text decimal debug source) (write_source write_call fuel decimal debug source)
  write_source-Out decimal debug source s r small =
      guarded_Out s _ r (λ calm. plain_element-Out (source_text decimal debug source) s r small)

  module _ {V : Type 0} (string_of : Value V T → Text) where
    abbrev entry : Value V T → Text
    entry value = literal "[" ++ (meta_text string_of value ++ literal "]")

    -- WriteMeta writes a space and the entry between brackets.
    pub write_meta-Out :
        (value : Value V T)
        → Run (space_byte ∷ [] ++ entry value) (write_meta string_of write_call fuel value)
    write_meta-Out value s r small = guarded_Out s _ r (λ calm.
        step_on write_call log fuel limit prefix level time (space write_call fuel)
          (λ s'. unless_failed s' s'.err (write_element write_call fuel (entry value) none s'))
          (write_byte-Out space_byte)
          (λ s' r' small'.
            guarded_Out s' _ r' (λ calm'. plain_element-Out (entry value) s' r' small'))
          s r small)
