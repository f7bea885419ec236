-- ===== src/Log/Loggers.antt =====
-- log/move.go and log/factory.go: With and WithGroup by what a logger is, and Factory. A slog logger is
-- its handler; of other loggers nothing is known but that they have no With.
use qtfra.Common.{◌≡◌, List, [], ◌∷◌, ◌++◌, Option, none, some, String, refl, sym, ap, ◌∙◌}
use qtfra.Common.Tests.{if◌then◌else◌, ◌==◌, string_comparable}
use qtfra.Common.Outcomes.{Outcome, returns, panics, ◌>>=◌}
use qtfra.Log.Feature.{FeatureLogger, LogOption, Argument, with_args, with_loop}
use qtfra.Log.Feature
use qtfra.Log.Order.{Appends}

pub data Logger (H A L : Type 0) : Type 0 where
  featured : FeatureLogger H A L → Logger H A L
  slog : H → Logger H A L
  foreign : Logger H A L

module _ {H A L : Type 0} where
  -- GetHandler
  pub get_handler : Logger H A L → Option H
  get_handler (featured l) = some l.h
  get_handler (slog h) = some h
  get_handler foreign = none

  -- A slog logger takes no options: they are dropped.
  abbrev pub no_option : List (Argument H A L) → List (Argument H A L)
  no_option [] = []
  no_option (Argument.option o ∷ v) = no_option v
  no_option (Argument.attr a ∷ v) = Argument.attr a ∷ no_option v
  no_option (Argument.unsupported ∷ v) = Argument.unsupported ∷ no_option v

  abbrev pub slog_or_same :
      (H → List (Argument H A L) → H) → H → List (Argument H A L) → Logger H A L
  slog_or_same slog_with h [] = slog h
  slog_or_same slog_with h (x ∷ v) = slog (slog_with h (x ∷ v))

  module _ (with_attrs : H → List A → H) (slog_with : H → List (Argument H A L) → H) where
    -- With
    pub with_logger : Logger H A L → List (Argument H A L) → Outcome (Logger H A L)
    with_logger l [] = returns l
    with_logger (featured l) (x ∷ v) =
        with_args with_attrs (x ∷ v) l >>= λ l'. returns (featured l')
    with_logger (slog h) (x ∷ v) = returns (slog_or_same slog_with h (no_option (x ∷ v)))
    with_logger foreign (x ∷ v) = panics

  module _ (handler_group slog_group : H → String → H) where
    abbrev pub grouped : Logger H A L → String → Outcome (Logger H A L)
    grouped (featured l) name = returns (featured (Feature.with_group handler_group name l))
    grouped (slog h) name = returns (slog (slog_group h name))
    grouped foreign name = panics

    -- WithGroup
    pub group_logger : Logger H A L → String → Outcome (Logger H A L)
    group_logger l name = if name == "" then returns l else grouped l name

-- What a Factory's New is given: a group's name, an attribute, or something else.
pub data Input (A : Type 0) : Type 0 where
  name : String → Input A
  attr : A → Input A
  unexpected : Input A

module _ {H A : Type 0} (with_attrs : H → List A → H) (with_group : H → String → H) where
  -- With of slog's Logger: of no attributes it is the same logger.
  abbrev with_some : H → List A → H
  with_some h [] = h
  with_some h (a ∷ attrs) = with_attrs h (a ∷ attrs)

  -- Factory.New: the attributes that wait are added before a group is opened, and at the end.
  unfoldable pub factory_loop : List A → List (Input A) → H → Outcome H
  factory_loop attrs [] h = returns (with_some h attrs)
  factory_loop attrs (Input.name x ∷ vv) h = factory_loop [] vv (with_group (with_some h attrs) x)
  factory_loop attrs (Input.attr a ∷ vv) h = factory_loop (attrs ++ a ∷ []) vv h
  factory_loop attrs (Input.unexpected ∷ vv) h = panics

  unfoldable pub factory_new : List (Input A) → H → Outcome H
  unfolding factory_loop
  factory_new vv h = factory_loop [] vv h

  -- One input after the other.
  abbrev pub one_by_one : List (Input A) → H → Outcome H
  one_by_one [] h = returns h
  one_by_one (Input.name x ∷ vv) h = one_by_one vv (with_group h x)
  one_by_one (Input.attr a ∷ vv) h = one_by_one vv (with_attrs h (a ∷ []))
  one_by_one (Input.unexpected ∷ vv) h = panics

  module _ (appends : Appends with_attrs) where
    with_some_lem : (h : H) (attrs : List A) → with_some h attrs ≡ with_attrs h attrs
    with_some_lem h [] = sym (appends.with_none h)
    with_some_lem h (a ∷ attrs) = refl

    factory_loop_lem :
        (attrs : List A) (vv : List (Input A)) (h : H)
        → factory_loop attrs vv h ≡ one_by_one vv (with_attrs h attrs)
    unfolding factory_loop
    factory_loop_lem attrs [] h = ap returns (with_some_lem h attrs)
    factory_loop_lem attrs (Input.name x ∷ vv) h =
        factory_loop_lem [] vv (with_group (with_some h attrs) x)
        ∙ ap (one_by_one vv) (appends.with_none (with_group (with_some h attrs) x))
        ∙ ap (λ h'. one_by_one vv (with_group h' x)) (with_some_lem h attrs)
    factory_loop_lem attrs (Input.attr a ∷ vv) h =
        factory_loop_lem (attrs ++ a ∷ []) vv h
        ∙ ap (one_by_one vv) (sym (appends.with_more h attrs (a ∷ [])))
    factory_loop_lem attrs (Input.unexpected ∷ vv) h = refl

    -- Factory.New, for a handler whose WithAttrs appends, gives the logger that opens a group for each
    -- name and adds each attribute, one after the other in the order given; it panics where an input is
    -- neither.
    pub factory_new_lem : (vv : List (Input A)) (h : H) → factory_new vv h ≡ one_by_one vv h
    unfolding factory_new
    factory_new_lem vv h = factory_loop_lem [] vv h ∙ ap (one_by_one vv) (appends.with_none h)
