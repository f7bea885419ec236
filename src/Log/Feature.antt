-- ===== src/Log/Feature.antt =====
-- log/feature.go and log/option.go: the fields of featureLogger, the options, and With. The handler is
-- a parameter with its WithAttrs and WithGroup; `callerSkip` is a word.
use qtfra.Common.{ℕ, Bool, true, false, List, [], ◌∷◌, ◌++◌, Option, String}
use qtfra.Common.Words.{add_int}
use qtfra.Common.Outcomes.{Outcome, returns, panics}

module _ (H A L : Type 0) where
  -- featureLogger
  pub record FeatureLogger : Type 0 where
    pub h : H
    pub strict : Bool
    pub caller_skip : ℕ
    pub enable_trace : Bool
    pub error_logger : Option L

  -- The options of option.go.
  pub data LogOption : Type 0 where
    with_error_logger : Option L → LogOption
    with_set_caller_skip with_add_caller_skip : ℕ → LogOption
    with_strict with_disable_source with_enable_source : LogOption

  -- What With is given: an attribute, an option, or something else.
  pub data Argument : Type 0 where
    attr : A → Argument
    option : LogOption → Argument
    unsupported : Argument

module _ {H A L : Type 0} where
  abbrev pub apply : LogOption H A L → FeatureLogger H A L → FeatureLogger H A L
  apply (LogOption.with_error_logger e) l = record l { error_logger = e }
  apply (LogOption.with_set_caller_skip n) l = record l { caller_skip = n }
  apply (LogOption.with_add_caller_skip n) l = record l { caller_skip = add_int l.caller_skip n }
  apply LogOption.with_strict l = record l { strict = true }
  apply LogOption.with_disable_source l = record l { enable_trace = false }
  apply LogOption.with_enable_source l = record l { enable_trace = true }

  -- flushOptions: the options that wait are applied in order.
  abbrev pub apply_all : List (LogOption H A L) → FeatureLogger H A L → FeatureLogger H A L
  apply_all [] l = l
  apply_all (opt ∷ options) l = apply_all options (apply opt l)

module _ {H A L : Type 0} (with_attrs : H → List A → H) where
  -- flushAttrs
  abbrev pub flush_attrs : List A → FeatureLogger H A L → FeatureLogger H A L
  flush_attrs attrs l = record l { h = with_attrs l.h attrs }

  -- The loop of With, with the attributes and the options that wait; at the end the attributes are
  -- flushed before the options, since deferred calls run last in first out.
  unfoldable pub with_loop :
      List (Argument H A L)
      → FeatureLogger H A L
      → List A
      → List (LogOption H A L)
      → Outcome (FeatureLogger H A L)
  with_loop [] l attrs options = returns (apply_all options (flush_attrs attrs l))
  with_loop (Argument.attr x ∷ a) l attrs options =
      with_loop a (apply_all options l) (attrs ++ x ∷ []) []
  with_loop (Argument.option x ∷ a) l attrs options =
      with_loop a (flush_attrs attrs l) [] (options ++ x ∷ [])
  with_loop (Argument.unsupported ∷ a) l attrs options = panics

  -- With; the clone is a copy of the fields.
  unfoldable pub with_args :
      List (Argument H A L) → FeatureLogger H A L → Outcome (FeatureLogger H A L)
  with_args [] l = returns l
  with_args (first ∷ a) l = with_loop (first ∷ a) l [] []

module _ {H A L : Type 0} (handler_group : H → String → H) where
  -- WithGroup
  abbrev pub with_group : String → FeatureLogger H A L → FeatureLogger H A L
  with_group s l = record l { h = handler_group l.h s }
