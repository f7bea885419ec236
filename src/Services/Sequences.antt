-- ===== src/Services/Sequences.antt =====
-- The sequences as lists of named phases.
use qtfra.Common.{◌≡◌, List, [], ◌∷◌, Option, none, some, String, refl}
use qtfra.Ex.Error.{Error, cause}
use qtfra.Services.{
  Phase, LifeCycle, next_phase, last_phase, context_or, start_rest, start, close_rest, close,
}

module _ {S : Type 0} where
  -- The phases that a service has.
  abbrev pub present : List (String × Option (Phase S)) → List (String × Phase S)
  present [] = []
  present ((name, none) ∷ phases) = present phases
  present ((name, some phase) ∷ phases) = (name, phase) ∷ present phases

  -- How a sequence of phases went: they ran one after another from the state, and either all of them
  -- reported no error, or the last that ran reported one, which is given under its name.
  pub data Ran : List (String × Phase S) → S → Option Error → S → Type 0 where
    all_ran : {s : S} → Ran [] s none s
    ran :
        {name : String} {phase : Phase S} {phases : List (String × Phase S)} {s s' last : S}
        {err : Option Error}
        → phase s ≡ (none, s')
        → Ran phases s' err last
        → Ran ((name, phase) ∷ phases) s err last
    failed :
        {name : String} {phase : Phase S} {phases : List (String × Phase S)} {s last : S}
        {err : Error}
        → phase s ≡ (some err, last)
        → Ran ((name, phase) ∷ phases) s (some (cause err name)) last

  next_phase-Ran :
      (name : String) (phase rest : Phase S) (phases : List (String × Phase S)) (s : S)
      → ((s' : S) → Ran phases s' (rest s').0 (rest s').1)
      → Ran
          ((name, phase) ∷ phases)
          s
          (next_phase name (phase s) rest).0
          (next_phase name (phase s) rest).1
  next_phase-Ran name phase rest phases s others = go (phase s) refl
    where
      go :
          (r : Option Error × S)
          → phase s ≡ r
          → Ran ((name, phase) ∷ phases) s (next_phase name r rest).0 (next_phase name r rest).1
      go (none, s') e = Ran.ran e (others s')
      go (some err, s') e = Ran.failed e

  last_phase-Ran :
      (name : String) (phase : Phase S) (s : S)
      → Ran ((name, phase) ∷ []) s (last_phase name (phase s)).0 (last_phase name (phase s)).1
  last_phase-Ran name phase s = go (phase s) refl
    where
      go :
          (r : Option Error × S)
          → phase s ≡ r
          → Ran ((name, phase) ∷ []) s (last_phase name r).0 (last_phase name r).1
      go (none, s') e = Ran.ran e Ran.all_ran
      go (some err, s') e = Ran.failed e

abbrev pub with_context : {C S : Type 0} → C → Option (C → Phase S) → Option (Phase S)
with_context ctx none = none
with_context ctx (some method) = some (method ctx)

module _ {C S : Type 0} where
  abbrev pub start_phases : C → LifeCycle C S → List (String × Phase S)
  start_phases ctx lf = present (
      ("PreStart", with_context ctx lf.pre_start)
      ∷ ("Start", some (lf.start_method ctx))
      ∷ ("PostStart", with_context ctx lf.post_start)
      ∷ [])

  abbrev pub close_phases : LifeCycle C S → List (String × Phase S)
  close_phases lf = present (
      ("PreClose", lf.pre_close)
      ∷ ("Close", some lf.close_method)
      ∷ ("PostClose", lf.post_close)
      ∷ [])

  start_rest-Ran :
      (ctx : C) (post : Option (C → Phase S)) (lf : LifeCycle C S) (s : S)
      → let lf' = record lf { post_start = post } in
        Ran
          (present
            (("Start", some (lf.start_method ctx)) ∷ ("PostStart", with_context ctx post) ∷ []))
          s
          (start_rest ctx lf' s).0
          (start_rest ctx lf' s).1
  start_rest-Ran ctx none lf s =
      next_phase-Ran "Start" (lf.start_method ctx) (λ s'. (none, s')) [] s (λ s'. Ran.all_ran)
  start_rest-Ran ctx (some post) lf s =
      next_phase-Ran "Start" (lf.start_method ctx) (λ s'. last_phase "PostStart" (post ctx s')) _ s
        (λ s'. last_phase-Ran "PostStart" (post ctx) s')

  -- Start runs the phases that a service has, in the order PreStart, Start, PostStart, each at most
  -- once and each from the state that the one before left, until one reports an error; it reports that
  -- error under the phase's name, and no error when all ran. A nil context counts as the background.
  pub start-Ran :
      (background : C) (ctx : Option C) (lf : LifeCycle C S) (s : S)
      → let (err, last) = start background ctx lf s in
        Ran (start_phases (context_or background ctx) lf) s err last
  unfolding start
  start-Ran background ctx lf s = go lf.pre_start
    where
      c : C
      c = context_or background ctx

      go :
          (pre : Option (C → Phase S))
          → let lf' = record lf { pre_start = pre } in
            let (err, last) = start background ctx lf' s in Ran (start_phases c lf') s err last
      go none = start_rest-Ran c lf.post_start (record lf { pre_start = none }) s
      go (some pre) =
          next_phase-Ran "PreStart" (pre c) (start_rest c (record lf { pre_start = some pre })) _ s
            (λ s'. start_rest-Ran c lf.post_start (record lf { pre_start = some pre }) s')

  close_rest-Ran :
      (finish : Phase S) (post : Option (Phase S)) (lf : LifeCycle C S) (s : S)
      → Ran
          (present (("Close", some finish) ∷ ("PostClose", post) ∷ []))
          s
          (close_rest (record lf { close_method = finish; post_close = post }) s).0
          (close_rest (record lf { close_method = finish; post_close = post }) s).1
  close_rest-Ran finish none lf s =
      next_phase-Ran "Close" finish (λ s'. (none, s')) [] s (λ s'. Ran.all_ran)
  close_rest-Ran finish (some post) lf s =
      next_phase-Ran "Close" finish (λ s'. last_phase "PostClose" (post s')) _ s
        (λ s'. last_phase-Ran "PostClose" post s')

  -- Close runs the phases that a service has, in the order PreClose, Close, PostClose, in the same way:
  -- an error of PreClose keeps Close itself from being called.
  pub close-Ran :
      (lf : LifeCycle C S) (s : S)
      → let (err, last) = close lf s in Ran (close_phases lf) s err last
  unfolding close
  close-Ran lf s = go lf.pre_close
    where
      go :
          (pre : Option (Phase S))
          → let lf' = record lf { pre_close = pre } in
            let (err, last) = close lf' s in Ran (close_phases lf') s err last
      go none = close_rest-Ran lf.close_method lf.post_close lf s
      go (some pre) =
          next_phase-Ran "PreClose" pre (close_rest (record lf { pre_close = some pre })) _ s
            (λ s'. close_rest-Ran lf.close_method lf.post_close lf s')
