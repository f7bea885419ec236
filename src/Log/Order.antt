-- ===== src/Log/Order.antt =====
-- With applies what it is given in order.
use qtfra.Common.{
  ◌≡◌, Bool, true, false, List, [], ◌∷◌, ◌++◌, refl, sym, ap, ap₂, ◌∙◌, append_assoc, append-nil,
  inl, inr, arith,
}
use qtfra.Common.Tests.{if◌then◌else◌, Bool-cases}
use qtfra.Common.Outcomes.{returns, panics}
use qtfra.Log.Feature.{
  FeatureLogger, LogOption, Argument, apply, apply_all, flush_attrs, with_loop, with_args,
}

module _ {H A L : Type 0} where
  -- The attributes, and the options, among the arguments.
  abbrev pub attrs_of : List (Argument H A L) → List A
  attrs_of [] = []
  attrs_of (Argument.attr x ∷ a) = x ∷ attrs_of a
  attrs_of (Argument.option x ∷ a) = attrs_of a
  attrs_of (Argument.unsupported ∷ a) = attrs_of a

  abbrev pub options_of : List (Argument H A L) → List (LogOption H A L)
  options_of [] = []
  options_of (Argument.attr x ∷ a) = options_of a
  options_of (Argument.option x ∷ a) = x ∷ options_of a
  options_of (Argument.unsupported ∷ a) = options_of a

  abbrev pub has_unsupported : List (Argument H A L) → Bool
  has_unsupported [] = false
  has_unsupported (Argument.attr x ∷ a) = has_unsupported a
  has_unsupported (Argument.option x ∷ a) = has_unsupported a
  has_unsupported (Argument.unsupported ∷ a) = true

  abbrev set_handler : H → FeatureLogger H A L → FeatureLogger H A L
  set_handler x l = record l { h = x }

  apply-set_handler :
      (opt : LogOption H A L) (x : H) (l : FeatureLogger H A L)
      → apply opt (set_handler x l) ≡ set_handler x (apply opt l)
  apply-set_handler (LogOption.with_error_logger e) x l = refl
  apply-set_handler (LogOption.with_set_caller_skip n) x l = refl
  apply-set_handler (LogOption.with_add_caller_skip n) x l = refl
  apply-set_handler LogOption.with_strict x l = refl
  apply-set_handler LogOption.with_disable_source x l = refl
  apply-set_handler LogOption.with_enable_source x l = refl

  apply_handler : (opt : LogOption H A L) (l : FeatureLogger H A L) → (apply opt l).h ≡ l.h
  apply_handler (LogOption.with_error_logger e) l = refl
  apply_handler (LogOption.with_set_caller_skip n) l = refl
  apply_handler (LogOption.with_add_caller_skip n) l = refl
  apply_handler LogOption.with_strict l = refl
  apply_handler LogOption.with_disable_source l = refl
  apply_handler LogOption.with_enable_source l = refl

  apply_all-set_handler :
      (options : List (LogOption H A L)) (x : H) (l : FeatureLogger H A L)
      → apply_all options (set_handler x l) ≡ set_handler x (apply_all options l)
  apply_all-set_handler [] x l = refl
  apply_all-set_handler (opt ∷ options) x l =
      ap (apply_all options) (apply-set_handler opt x l)
      ∙ apply_all-set_handler options x (apply opt l)

  apply_all_handler :
      (options : List (LogOption H A L)) (l : FeatureLogger H A L) → (apply_all options l).h ≡ l.h
  apply_all_handler [] l = refl
  apply_all_handler (opt ∷ options) l =
      apply_all_handler options (apply opt l) ∙ apply_handler opt l

  apply_all-append :
      (xs ys : List (LogOption H A L)) (l : FeatureLogger H A L)
      → apply_all (xs ++ ys) l ≡ apply_all ys (apply_all xs l)
  apply_all-append [] ys l = refl
  apply_all-append (x ∷ xs) ys l = apply_all-append xs ys (apply x l)

-- What slog says of WithAttrs: no attributes change nothing, and some after others are all of them.
pub record Appends {H A : Type 0} (with_attrs : H → List A → H) : Type 0 where
  pub with_none : (h : H) → with_attrs h [] ≡ h
  pub with_more :
      (h : H) (xs ys : List A) → with_attrs (with_attrs h xs) ys ≡ with_attrs h (xs ++ ys)

module _ {H A L : Type 0} (with_attrs : H → List A → H) (law : Appends with_attrs) where
  -- The logger after everything was applied.
  abbrev pub configured :
      List A → List (LogOption H A L) → FeatureLogger H A L → FeatureLogger H A L
  configured attrs options l = set_handler (with_attrs l.h attrs) (apply_all options l)

  loop-configured :
      (a : List (Argument H A L)) (l : FeatureLogger H A L) (attrs : List A)
      (options : List (LogOption H A L))
      → has_unsupported a ≡ false
      → with_loop with_attrs a l attrs options
        ≡ returns (configured (attrs ++ attrs_of a) (options ++ options_of a) l)
  unfolding with_loop
  loop-configured [] l attrs options e = ap returns (
      apply_all-set_handler options (with_attrs l.h attrs) l
      ∙ ap₂ (λ xs os. configured xs os l) (sym (append-nil attrs)) (sym (append-nil options)))
  loop-configured (Argument.attr x ∷ a) l attrs options e =
      loop-configured a (apply_all options l) (attrs ++ x ∷ []) [] e
      ∙ ap returns (
          ap₂ (λ x' m. set_handler (with_attrs x' ((attrs ++ x ∷ []) ++ attrs_of a)) m)
            (apply_all_handler options l) (sym (apply_all-append options (options_of a) l))
          ∙ ap (λ xs. configured xs (options ++ options_of a) l)
              (append_assoc attrs (x ∷ []) (attrs_of a)))
  loop-configured (Argument.option x ∷ a) l attrs options e =
      loop-configured a (flush_attrs with_attrs attrs l) [] (options ++ x ∷ []) e
      ∙ ap returns (
          ap₂ set_handler (law.with_more l.h attrs (attrs_of a))
            (apply_all-set_handler ((options ++ x ∷ []) ++ options_of a) (with_attrs l.h attrs) l)
          ∙ ap (λ os. configured (attrs ++ attrs_of a) os l)
              (append_assoc options (x ∷ []) (options_of a)))
  loop-configured (Argument.unsupported ∷ a) l attrs options e = absurd (ground arith)

  loop-unsupported :
      (a : List (Argument H A L)) (l : FeatureLogger H A L) (attrs : List A)
      (options : List (LogOption H A L))
      → has_unsupported a ≡ true
      → with_loop with_attrs a l attrs options ≡ panics
  unfolding with_loop
  loop-unsupported [] l attrs options e = absurd (ground arith)
  loop-unsupported (Argument.attr x ∷ a) l attrs options e =
      loop-unsupported a (apply_all options l) (attrs ++ x ∷ []) [] e
  loop-unsupported (Argument.option x ∷ a) l attrs options e =
      loop-unsupported a (flush_attrs with_attrs attrs l) [] (options ++ x ∷ []) e
  loop-unsupported (Argument.unsupported ∷ a) l attrs options e = refl

  -- With, of attributes and options in any mixture, gives a logger whose handler was given all the
  -- attributes in order and to which all the options were applied in order, however often it flushes;
  -- with an argument of any other kind it panics. WithAttrs of the handler must append, as slog asks.
  pub with_args-configured :
      (a : List (Argument H A L)) (l : FeatureLogger H A L)
      → with_args with_attrs a l
        ≡ (if has_unsupported a then panics else returns (configured (attrs_of a) (options_of a) l))
  unfolding with_args
  with_args-configured [] l = ap (λ x. returns (set_handler x l)) (sym (law.with_none l.h))
  with_args-configured (first ∷ a) l = elim (Bool-cases (has_unsupported (first ∷ a))) [
    | inl bad ↦ rw bad (loop-unsupported (first ∷ a) l [] [] bad)
    | inr good ↦ rw good (loop-configured (first ∷ a) l [] [] good)
  ]
