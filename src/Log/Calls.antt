-- ===== src/Log/Calls.antt =====
-- log/feature.go: log, with its levels, and newFeatureLogger. What a handler and an error logger do is
-- an argument, on a state of theirs; so are the caller's frame, the time, and what slog's
-- Record takes of arguments and of attributes. A nil context counts as the background.
use qtfra.Common.{
  ℕ, ◌≡◌, Bool, true, false, not, List, [], ◌∷◌, ◌++◌, Option, none, some, String, sym, ap, ◌∙◌,
  append_assoc, append-nil,
}
use qtfra.Common.Tests.{if◌then◌else◌}
use qtfra.Common.Words.{add_int}
use qtfra.Common.Outcomes.{Outcome, returns, panics, ◌>>=◌}
use qtfra.Ex.Error.{Error}
use qtfra.Log.Feature.{FeatureLogger, Argument, with_args}
use qtfra.Log.Levels.{level_debug, level_info, level_warn, level_error}

-- What a message is logged with: an attribute or another value.
pub data Given (A G : Type 0) : Type 0 where
  attr : A → Given A G
  value : G → Given A G

-- slog's Record: the frame of the caller where it is traced.
pub record LogRecord (A : Type 0) : Type 0 where
  pub level : ℕ
  pub message : String
  pub frame : Option ℕ
  pub attrs : List A

-- newFeatureLogger
pub new_feature_logger :
    {H A L : Type 0} → (H → List A → H) → H → List (Argument H A L) → Outcome (FeatureLogger H A L)
new_feature_logger with_attrs h args =
    with_args with_attrs args
      (record { h = h; strict = false; caller_skip = 0; enable_trace = true; error_logger = none })

module _ {H A G L S : Type 0} (handler_enabled : H → ℕ → Bool)
    (handle : H → LogRecord A → S → Option Error × S) (warn : L → G → S → S)
    (report : L → Error → S → S) (callers : ℕ → ℕ) (add : List (Given A G) → List A)
    (add_attrs : List A → List A) where
  -- Enabled
  pub enabled : ℕ → FeatureLogger H A L → Bool
  enabled level l = handler_enabled l.h level

  -- A value that a strict logger does not take.
  abbrev pub refuse : Option L → G → S → Outcome S
  refuse none v s = panics
  refuse (some logger) v s = returns (warn logger v s)

  -- The loop of a strict logger, with the attributes found so far.
  unfoldable pub strict_loop : Option L → List A → List (Given A G) → S → Outcome (List A × S)
  strict_loop logger attrs [] s = returns (attrs, s)
  strict_loop logger attrs (Given.attr a ∷ args) s = strict_loop logger (attrs ++ a ∷ []) args s
  strict_loop logger attrs (Given.value v ∷ args) s = do
    s' ← refuse logger v s
    strict_loop logger attrs args s'

  abbrev pub record_attrs : FeatureLogger H A L → List (Given A G) → S → Outcome (List A × S)
  record_attrs l args s =
      if l.strict
      then (strict_loop l.error_logger [] args s >>= λ found. returns (add_attrs found.0, found.1))
      else returns (add args, s)

  -- The error of Handle goes to the error logger, where there is one.
  abbrev pub report_to : Option L → Option Error → S → S
  report_to (some logger) (some err) s = report logger err s
  report_to (some logger) none s = s
  report_to none err s = s

  -- log
  unfoldable pub log : ℕ → String → List (Given A G) → FeatureLogger H A L → S → Outcome S
  unfolding strict_loop
  log level msg args l s = if not (handler_enabled l.h level) then returns s else (do
    found ← record_attrs l args s
    let (err, s') =
        handle l.h
          (record {
            level = level;
            message = msg;
            frame = if l.enable_trace then some (callers (add_int 3 l.caller_skip)) else none;
            attrs = found.0;
          })
          found.1
    returns (report_to l.error_logger err s'))

  -- Debug, Info, Warn, Error, and the same with a context.
  abbrev pub debug : String → List (Given A G) → FeatureLogger H A L → S → Outcome S
  debug msg args l s = log level_debug msg args l s

  abbrev pub info : String → List (Given A G) → FeatureLogger H A L → S → Outcome S
  info msg args l s = log level_info msg args l s

  abbrev pub warning : String → List (Given A G) → FeatureLogger H A L → S → Outcome S
  warning msg args l s = log level_warn msg args l s

  abbrev pub error : String → List (Given A G) → FeatureLogger H A L → S → Outcome S
  error msg args l s = log level_error msg args l s

  -- The attributes among the arguments, and the others told to the error logger in order.
  abbrev attrs_of : List (Given A G) → List A
  attrs_of [] = []
  attrs_of (Given.attr a ∷ args) = a ∷ attrs_of args
  attrs_of (Given.value v ∷ args) = attrs_of args

  abbrev warned : L → List (Given A G) → S → S
  warned logger [] s = s
  warned logger (Given.attr a ∷ args) s = warned logger args s
  warned logger (Given.value v ∷ args) s = warned logger args (warn logger v s)

  -- A strict logger with an error logger finds the attributes in order, and warns of every other value.
  strict_loop_lem :
      (logger : L) (attrs : List A) (args : List (Given A G)) (s : S)
      → strict_loop (some logger) attrs args s
        ≡ returns (attrs ++ attrs_of args, warned logger args s)
  unfolding strict_loop
  strict_loop_lem logger attrs [] s = ap (λ x. returns (x, s)) (sym (append-nil attrs))
  strict_loop_lem logger attrs (Given.attr a ∷ args) s =
      strict_loop_lem logger (attrs ++ a ∷ []) args s
      ∙ ap (λ x. returns (x, warned logger args s)) (append_assoc attrs (a ∷ []) (attrs_of args))
  strict_loop_lem logger attrs (Given.value v ∷ args) s =
      strict_loop_lem logger attrs args (warn logger v s)
