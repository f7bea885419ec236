-- ===== src/Log/Console/Moved.antt =====
-- What the steps that write a line do to the state of the console handler, and that it composes: each
-- takes the first bytes of what it is to write, all unless it leaves an error, and none after one.
use qtfra.Common.{
  ℕ, ◌+◌, ◌≤◌, ◌≡◌, ◌⊎◌, List, [], ◌∷◌, ◌++◌, Option, none, some, refl, sym, ap, ap₂, ◌∙◌,
  append_assoc, append-nil, inl, inr, arith,
}
use qtfra.Common.Tests.{Option-cases}
use qtfra.Common.Lists.{length, length-append, take, drop, take-append-drop, drop_all}
use qtfra.Common.Words.{max_int}
use qtfra.Common.Outcomes.{Outcome, returns, ◌>>=◌}
use qtfra.Ex.Error.{Error}
use qtfra.Buf.Buffer.Valid.{IsValid}
use qtfra.Buf.Buffer.Stream.{WriteCall}
use qtfra.Iolib.BufWriter.{BufWriter, Returns}
use qtfra.Iolib.BufWriter.Ordered.{Takes, fuel_for, stream}
use qtfra.Iolib.BufWriter.Written.{stays, Written, OneWritten}
use qtfra.Log.Attrs.{Text}
use qtfra.Log.Console.State.{State, unless_failed, put_count, put_error}

-- What is taken of two texts is a beginning of both together.
splits :
    (t l a u m c : List ℕ)
    → t ++ l ≡ a
    → u ++ m ≡ c
    → (l ≡ []) ⊎ (u ≡ [])
    → (t ++ u) ++ (l ++ m) ≡ a ++ c
splits t l a u m c e e' (inl none_left) =
    ap (λ x. (t ++ u) ++ (x ++ m)) none_left
    ∙ (append_assoc t u m ∙ ap₂ ◌++◌ (sym (append-nil t) ∙ (ap (◌++◌ t) (sym none_left) ∙ e)) e')
splits t l a u m c e e' (inr none_taken) =
    ap (λ x. (t ++ x) ++ (l ++ m)) none_taken
    ∙ (ap (λ x. x ++ (l ++ m)) (append-nil t)
        ∙ (sym (append_assoc t l m) ∙ ap₂ ◌++◌ e (ap (λ x. x ++ m) (sym none_taken) ∙ e')))

module _ {W : Type 0} (write_call : WriteCall W) (log : W → List ℕ) where
  -- Two calls, one after the other.
  pub both :
      {a c : List ℕ} {b mid after : BufWriter W}
      → Takes write_call log a b mid
      → Takes write_call log c mid after
      → Takes write_call log (a ++ c) b after
  both {a} {c} {b} t u = record {
    in_order =
        u.in_order ∙ (ap (λ l. l ++ c) t.in_order ∙ append_assoc (stream write_call log b) a c);
    still_valid = u.still_valid;
    size_stays = u.size_stays ∙ t.size_stays;
    cap_stays = u.cap_stays ∙ t.cap_stays;
    array_stays = u.array_stays ∙ t.array_stays;
    kind_stays = u.kind_stays ∙ t.kind_stays;
  }

module _ {W T : Type 0} (write_call : WriteCall W) (log : W → List ℕ) where
  -- From one state to a later one, which has the same formats.
  pub record Moved (bs : List ℕ) (s s' : State W T) : Type 0 where
    pub taken : List ℕ
    pub left : List ℕ
    pub split : taken ++ left ≡ bs
    pub takes : Takes write_call log taken s.buffer s'.buffer
    pub all_or_error : s'.err ≡ none → left ≡ []
    pub first_error : (e : Error) → s.err ≡ some e → (taken ≡ []) × (s'.err ≡ some e)
    pub same_group : s'.group ≡ s.group
    pub same_level : s'.level ≡ s.level
    pub same_time : s'.time ≡ s.time

  abbrev pub Out : List ℕ → State W T → Outcome (State W T) → Type 0
  Out bs s res = (s' : State W T) × (res ≡ returns s') × Moved bs s s'

  pub nothing : (s : State W T) → IsValid s.buffer.buffer → Moved [] s s
  nothing s v = record {
    taken = [];
    left = [];
    split = refl;
    takes = stays write_call log s.buffer v;
    all_or_error = λ e. refl;
    first_error = λ e failed. (refl, failed);
    same_group = refl;
    same_level = refl;
    same_time = refl;
  }

  -- After an error nothing is written.
  pub skipped :
      (bs : List ℕ) (s : State W T) {e : Error}
      → s.err ≡ some e
      → IsValid s.buffer.buffer
      → Moved bs s s
  skipped bs s failed v = record {
    taken = [];
    left = bs;
    split = refl;
    takes = stays write_call log s.buffer v;
    all_or_error = λ fine. absurd (ground arith);
    first_error = λ e failed. (refl, failed);
    same_group = refl;
    same_level = refl;
    same_time = refl;
  }

  pub steps_joined :
      {a c : List ℕ} {s mid after : State W T}
      → Moved a s mid
      → Moved c mid after
      → Moved (a ++ c) s after
  steps_joined {a} {c} {s} {mid} {after} t u = record {
    taken = t.taken ++ u.taken;
    left = t.left ++ u.left;
    split = splits t.taken t.left a u.taken u.left c t.split u.split (elim (Option-cases mid.err) [
      | inl fine ↦ inl (t.all_or_error fine)
      | inr (e, failed) ↦ inr (u.first_error e failed).0
    ]);
    takes = both write_call log t.takes u.takes;
    all_or_error = λ fine. elim (Option-cases mid.err) [
      | inl calm ↦ ap₂ ◌++◌ (t.all_or_error calm) (u.all_or_error fine)
      | inr (e, failed) ↦ absurd (ground (arith, (u.first_error e failed).1))
    ];
    first_error = λ e failed.
        let (t_none, mid_failed) = t.first_error e failed in
        let (u_none, last_failed) = u.first_error e mid_failed in
        (ap₂ ◌++◌ t_none u_none, last_failed);
    same_group = u.same_group ∙ t.same_group;
    same_level = u.same_level ∙ t.same_level;
    same_time = u.same_time ∙ t.same_time;
  }

module _ {W T : Type 0} (write_call : WriteCall W) (log : W → List ℕ) (fuel limit : ℕ)
    (prefix : Text) (level : ℕ → Text) (time : T → Text) where
  -- A state that the handler's steps start from: the formats are the handler's, the fuel is enough for
  -- a flush, and a text of up to `limit` bytes fits an int with the buffer's size.
  pub record Ready (s : State W T) : Type 0 where
    pub valid : IsValid s.buffer.buffer
    pub enough : fuel_for write_call log s.buffer ≤ fuel
    pub fits : s.buffer.buffer.size + limit ≤ max_int
    pub group_is : s.group ≡ prefix
    pub level_is : s.level ≡ level
    pub time_is : s.time ≡ some time

  pub Moved-Ready :
      {bs : List ℕ} {s s' : State W T} → Ready s → Moved write_call log bs s s' → Ready s'
  Moved-Ready r m = record {
    valid = m.takes.still_valid;
    enough = omega (arith, m.takes.size_stays, r.enough);
    fits = omega (arith, m.takes.size_stays, r.fits);
    group_is = m.same_group ∙ r.group_is;
    level_is = m.same_level ∙ r.level_is;
    time_is = m.same_time ∙ r.time_is;
  }

  -- A step writes the text.
  abbrev pub Steps : List ℕ → (State W T → Outcome (State W T)) → Type 0
  Steps bs f = (s : State W T) → Ready s → length bs ≤ limit → Out write_call log bs s (f s)

  pub step_nothing : Steps [] (λ s. returns s)
  step_nothing s r small = (s, refl, nothing write_call log s r.valid)

  pub step_on :
      {a c : List ℕ} (f g : State W T → Outcome (State W T))
      → Steps a f
      → Steps c g
      → Steps (a ++ c) (λ s. f s >>= g)
  step_on {a} {c} f g first next s r small =
      let (mid, e, m) = first s r (omega (arith, length-append a c)) in
      let (after, e', m') = next mid (Moved-Ready r m) (omega (arith, length-append a c)) in
      (after, rw (e, e') refl, steps_joined write_call log m m')

  -- A step that only runs while there is no error.
  pub step_guarded :
      {bs : List ℕ} (s : State W T) (m : Outcome (State W T))
      → Ready s
      → (s.err ≡ none → Out write_call log bs s m)
      → Out write_call log bs s (unless_failed s s.err m)
  step_guarded {bs} s m r run = elim (Option-cases s.err) [
    | inl calm ↦
        let (s', e, moved) = run calm in (s', ap (λ o. unless_failed s o m) calm ∙ e, moved)
    | inr (e, failed) ↦
        (s, ap (λ o. unless_failed s o m) failed, skipped write_call log bs s failed r.valid)
  ]

  -- A Write of the buffer.
  pub step_write :
      {bs : List ℕ} (s : State W T) (m : Returns W (ℕ × Option Error))
      → s.err ≡ none
      → Written write_call log bs s.buffer m
      → Out write_call log bs s (put_count s m)
  step_write {bs} s m calm w = (
    record s { err = w.err; buffer = w.after },
    rw w.returned refl,
    record {
      taken = take w.count bs;
      left = drop w.count bs;
      split = take-append-drop w.count bs;
      takes = w.takes;
      all_or_error = λ fine. drop_all w.count bs (omega (arith, w.all_or_error fine));
      first_error = λ e failed. absurd (ground arith);
      same_group = refl;
      same_level = refl;
      same_time = refl;
    },
  )

  pub step_one :
      (x : ℕ) (s : State W T) (m : Returns W (Option Error)) (err : Option Error)
      (after : BufWriter W)
      → s.err ≡ none
      → m ≡ returns (err, after)
      → OneWritten write_call log x s.buffer err after
      → Out write_call log (x ∷ []) s (put_error s m)
  step_one x s m none after calm e t = (
    record s { err = none; buffer = after },
    rw e refl,
    record {
      taken = x ∷ [];
      left = [];
      split = refl;
      takes = t;
      all_or_error = λ fine. refl;
      first_error = λ e failed. absurd (ground arith);
      same_group = refl;
      same_level = refl;
      same_time = refl;
    },
  )
  step_one x s m (some failure) after calm e t = (
    record s { err = some failure; buffer = after },
    rw e refl,
    record {
      taken = [];
      left = x ∷ [];
      split = refl;
      takes = t;
      all_or_error = λ fine. absurd (ground arith);
      first_error = λ e failed. absurd (ground arith);
      same_group = refl;
      same_level = refl;
      same_time = refl;
    },
  )
