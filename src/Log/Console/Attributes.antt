-- ===== src/Log/Console/Attributes.antt =====
-- WriteAttr of log/loghandler/consle_state.go writes the text of the attribute, groups at any depth.
use qtfra.Common.{
  ℕ, ◌≤◌, ◌≡◌, Bool, false, List, [], ◌∷◌, ◌++◌, Option, none, some, sym, ap, ◌∙◌, inl, inr, arith,
  subst,
}
use qtfra.Common.Tests.{if◌then◌else◌, nat_comparable, Option-cases}
use qtfra.Common.Lists.{length, length-append}
use qtfra.Common.Outcomes.{Outcome, returns, ◌>>=◌}
use qtfra.Ex.Error.{Error}
use qtfra.Buf.Buffer.Stream.{WriteCall}
use qtfra.Iolib.BufWriter.Ordered.{Honest}
use qtfra.Log.Attrs.{
  Text, literal, Value, Resolved, Attrs, plain, moment, group, valuer, to_plain, to_moment,
  to_group, nil, cons,
}
use qtfra.Log.Console.State.{
  State, is_blank, is_nil, go_on, quoted, key_or_bad, time_text, space_byte, dot, space,
  write_element, write_plain, write_attr, write_resolved, write_group,
}
use qtfra.Log.Console.Rendered.{pair_text, attr_text, resolved_text, attrs_text}
use qtfra.Log.Console.Moved.{
  Moved, Out, Ready, Steps, step_nothing, Moved-Ready, steps_joined, nothing, skipped,
}
use qtfra.Log.Console.Elements.{write_byte-Out, write_element-Out}

module _ {W T : Type 0} (write_call : WriteCall W) (log : W → List ℕ) where
  -- What a call that says whether to go on has done: it says so as long as there is no error.
  pub record Told (bs : List ℕ) (s : State W T) (res : Outcome (Bool × State W T)) : Type 0 where
    pub after : State W T
    pub returned : res ≡ returns (is_nil after.err, after)
    pub moved : Moved write_call log bs s after

module _ {W V T : Type 0} (write_call : WriteCall W) (log : W → List ℕ)
    (honest : Honest write_call log) (fuel limit : ℕ) (prefix : Text) (level : ℕ → Text)
    (time : T → Text) (string_of : Value V T → Text) where
  abbrev Good : State W T → Type 0
  Good s = Ready write_call log fuel limit prefix level time s

  abbrev TellsTo : List ℕ → (State W T → Outcome (Bool × State W T)) → Type 0
  TellsTo bs f = (s : State W T) → Good s → length bs ≤ limit → Told write_call log bs s (f s)

  abbrev TellsCalm : List ℕ → (State W T → Outcome (Bool × State W T)) → Type 0
  TellsCalm bs f =
      (s : State W T) → Good s → s.err ≡ none → length bs ≤ limit → Told write_call log bs s (f s)

  -- A call goes on only without an error.
  going :
      {bs : List ℕ} (s : State W T) (m : Outcome (Bool × State W T))
      → Good s
      → (s.err ≡ none → Told write_call log bs s m)
      → Told write_call log bs s (go_on s s.err m)
  going {bs} s m r run = elim (Option-cases s.err) [
    | inl calm ↦
        let told = run calm in
        record {
          after = told.after;
          returned = ap (λ o. go_on s o m) calm ∙ told.returned;
          moved = told.moved;
        }
    | inr (e, failed) ↦ record {
      after = s;
      returned = ap (λ o. go_on s o m) failed ∙ ap (λ o. returns (is_nil o, s)) (sym failed);
      moved = skipped write_call log bs s failed r.valid;
    }
  ]

  -- A step, and then a call that says whether to go on.
  step_first :
      {a c : List ℕ} (s : State W T) (m : Outcome (State W T))
      (k : State W T → Outcome (Bool × State W T))
      → Good s
      → length (a ++ c) ≤ limit
      → Out write_call log a s m
      → TellsTo c k
      → Told write_call log (a ++ c) s (m >>= k)
  step_first {a} {c} s m k r small (mid, e, first) next =
      let told =
        next mid (Moved-Ready write_call log fuel limit prefix level time r first)
          (omega (arith, length-append a c)) in
      record {
        after = told.after;
        returned = ap (λ o. o >>= k) e ∙ told.returned;
        moved = steps_joined write_call log first told.moved;
      }

  -- The group's name and a dot, where there is a group.
  prefix_Out :
      (name : Text)
      → Steps write_call log fuel limit prefix level time
          (if is_blank name then [] else name ++ dot ∷ [])
          (λ s.
            if is_blank name then returns s else write_element write_call fuel name (some dot) s)
  prefix_Out [] = step_nothing write_call log fuel limit prefix level time
  prefix_Out (x ∷ xs) =
      write_element-Out write_call log honest fuel limit prefix level time (x ∷ xs) (some dot)

  pair_Told :
      (str : Text)
      → TellsTo (str ++ space_byte ∷ []) (λ s. go_on s s.err (do
        last ← write_element write_call fuel str (some space_byte) s
        returns (is_nil last.err, last)))
  pair_Told str s r small = going s _ r (λ calm.
      let (last, e, moved) =
        write_element-Out write_call log honest fuel limit prefix level time str (some space_byte) s
          r small in
      record {
        after = last;
        returned = ap (λ o. o >>= λ l. returns (is_nil l.err, l)) e;
        moved = moved;
      })

  write_plain-Told :
      (key value_str : Text)
      → TellsTo
          (pair_text string_of prefix time key value_str)
          (write_plain string_of write_call fuel key value_str)
  write_plain-Told key value_str s r small =
      let str = key ++ (literal "=" ++ quoted value_str) in
      let head = (if is_blank prefix then [] else prefix ++ dot ∷ []) in
      step_first s _ _ r small
        (subst
          (λ name.
            Out write_call log head s (
              if is_blank name then returns s else write_element write_call fuel name (some dot) s))
          (sym r.group_is)
          (prefix_Out prefix s r (omega (arith, length-append head (str ++ space_byte ∷ [])))))
        (pair_Told str)

  -- A time is written by the handler's formatter.
  write_moment-Told :
      (key : Text) (t : T)
      → TellsTo
          (pair_text string_of prefix time key (time t))
          (λ s. write_plain string_of write_call fuel key (time_text string_of s.time t) s)
  write_moment-Told key t s r small =
      subst
        (λ o.
          Told write_call log (pair_text string_of prefix time key (time t)) s
            (write_plain string_of write_call fuel key (time_text string_of o t) s))
        (sym r.time_is) (write_plain-Told key (time t) s r small)

  -- The space in front of an attribute.
  spaced :
      {bs : List ℕ} (k : State W T → Outcome (Bool × State W T))
      → TellsCalm bs k
      → TellsTo
          (space_byte ∷ [] ++ bs)
          (λ s. go_on s s.err (do s' ← space write_call fuel s; go_on s' s'.err (k s')))
  spaced k told s r small = going s _ r (λ calm.
      step_first s (space write_call fuel s) (λ s'. go_on s' s'.err (k s')) r small
        (write_byte-Out write_call log honest fuel limit prefix level time space_byte s r
          (omega arith))
        (λ s' r' small'. going s' (k s') r' (λ calm'. told s' r' calm' small')))

  -- The first of a group's attributes, and then the others unless it failed.
  attr_first :
      {a c : List ℕ} (s : State W T) (m : Outcome (Bool × State W T))
      (k : State W T → Outcome (Bool × State W T))
      → Good s
      → length (a ++ c) ≤ limit
      → Told write_call log a s m
      → TellsCalm c k
      → Told write_call log
          (a ++ c)
          s
          (m >>= λ done. if done.0 then k done.1 else returns (false, done.1))
  attr_first {a} {c} s m k r small first next =
      let mid = first.after in
      let r' = Moved-Ready write_call log fuel limit prefix level time r first.moved in
      let go : Option Error → Outcome (Bool × State W T) =
        λ o. if is_nil o then k mid else returns (false, mid) in
      let start =
        ap (λ o. o >>= λ done. if done.0 then k done.1 else returns (false, done.1))
          first.returned in
      elim (Option-cases mid.err) [
        | inl calm ↦
            let told = next mid r' calm (omega (arith, length-append a c)) in
            record {
              after = told.after;
              returned = start ∙ (ap go calm ∙ told.returned);
              moved = steps_joined write_call log first.moved told.moved;
            }
        | inr (e, failed) ↦ record {
          after = mid;
          returned = start ∙ (ap go failed ∙ ap (λ o. returns (is_nil o, mid)) (sym failed));
          moved =
              steps_joined write_call log first.moved
                (skipped write_call log c mid failed r'.valid);
        }
      ]

  mutual
    unfolding write_attr attr_text

    pub write_attr-Told :
        (key : Text) (value : Value V T)
        → TellsTo
            (attr_text string_of prefix time key value)
            (write_attr string_of write_call fuel key value)
    write_attr-Told key (plain v) =
        spaced _ (λ s r calm. write_plain-Told (key_or_bad key) (string_of (plain v)) s r)
    write_attr-Told key (moment t) = spaced _ (λ s r calm. write_moment-Told (key_or_bad key) t s r)
    write_attr-Told key (group attrs) = spaced _ (write_group-Told (key_or_bad key) attrs)
    write_attr-Told key (valuer v r) = spaced _ (write_resolved-Told (key_or_bad key) r)

    write_resolved-Told :
        (key : Text) (value : Resolved V T)
        → TellsCalm
            (resolved_text string_of prefix time key value)
            (write_resolved string_of write_call fuel key value)
    write_resolved-Told key (to_plain v) s r calm small =
        write_plain-Told key (string_of (plain v)) s r small
    write_resolved-Told key (to_moment t) s r calm small = write_moment-Told key t s r small
    write_resolved-Told key (to_group attrs) s r calm small =
        write_group-Told key attrs s r calm small

    write_group-Told :
        (key : Text) (attrs : Attrs V T)
        → TellsCalm
            (attrs_text string_of prefix time key attrs)
            (write_group string_of write_call fuel key attrs)
    write_group-Told key nil s r calm small = record {
      after = s;
      returned = ap (λ o. returns (is_nil o, s)) (sym calm);
      moved = nothing write_call log s r.valid;
    }
    write_group-Told key (cons k v attrs) s r calm small =
        let key' = key ++ (literal "." ++ k) in
        let rest = attrs_text string_of prefix time key attrs in
        attr_first s _ (write_group string_of write_call fuel key attrs) r small
          (write_attr-Told key' v s r
            (omega (arith, length-append (attr_text string_of prefix time key' v) rest)))
          (write_group-Told key attrs)
