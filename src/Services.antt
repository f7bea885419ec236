-- ===== src/Services.antt =====
-- services/inf.go: the start and the close sequence of a service. What a service implements is a
-- record of its methods, those that are optional as an Option; a method changes the state of the
-- world and may report an error.
pub mod Sequences
mod Tests
use qtfra.Common.{Option, none, some, String}
use qtfra.Ex.Error.{Error, cause}

-- A method, on the world's state.
abbrev pub Phase : Type 0 → Type 0
Phase S = S → Option Error × S

-- LifeCycle, with PreStarter, PostStarter, PreCloser and PostCloser; C is a context.
pub record LifeCycle (C S : Type 0) : Type 0 where
  pub pre_start : Option (C → Phase S)
  pub start_method : C → Phase S
  pub post_start : Option (C → Phase S)
  pub pre_close : Option (Phase S)
  pub close_method : Phase S
  pub post_close : Option (Phase S)

module _ {S : Type 0} where
  -- What follows a phase: its error under its name, or the next one.
  abbrev pub next_phase : String → Option Error × S → Phase S → Option Error × S
  next_phase name (some err, s) rest = (some (cause err name), s)
  next_phase name (none, s) rest = rest s

  abbrev pub last_phase : String → Option Error × S → Option Error × S
  last_phase name (some err, s) = (some (cause err name), s)
  last_phase name (none, s) = (none, s)

module _ {C : Type 0} (background : C) where
  -- `if ctx == nil`
  abbrev pub context_or : Option C → C
  context_or none = background
  context_or (some ctx) = ctx

module _ {C S : Type 0} where
  -- The part of Start after PreStart.
  abbrev pub start_rest : C → LifeCycle C S → Phase S
  start_rest ctx lf s = next_phase "Start" (lf.start_method ctx s) (λ s'. elim lf.post_start [
    | none ↦ (none, s')
    | some post ↦ last_phase "PostStart" (post ctx s')
  ])

module _ {C S : Type 0} (background : C) where
  -- Start
  unfoldable pub start : Option C → LifeCycle C S → Phase S
  start ctx lf s = elim lf.pre_start [
    | none ↦ start_rest (context_or background ctx) lf s
    | some pre ↦
        next_phase "PreStart" (pre (context_or background ctx) s)
          (start_rest (context_or background ctx) lf)
  ]

module _ {C S : Type 0} where
  -- The part of Close after PreClose.
  abbrev pub close_rest : LifeCycle C S → Phase S
  close_rest lf s = next_phase "Close" (lf.close_method s) (λ s'. elim lf.post_close [
    | none ↦ (none, s')
    | some post ↦ last_phase "PostClose" (post s')
  ])

  -- Close
  unfoldable pub close : LifeCycle C S → Phase S
  close lf s = elim lf.pre_close [
    | none ↦ close_rest lf s
    | some pre ↦ next_phase "PreClose" (pre s) (close_rest lf)
  ]
