-- ===== src/Log/Tests.antt =====
-- A logger whose handler is the list of its attributes.
use qtfra.Common.{
  ℕ, String, ◌≡◌, true, false, List, [], ◌∷◌, ◌++◌, none, refl, append_assoc, append-nil,
}
use qtfra.Common.Tests.{if◌then◌else◌}
use qtfra.Common.Outcomes.{returns, panics}
use qtfra.Log.Feature.{FeatureLogger, LogOption, Argument, with_args, with_loop}
use qtfra.Log.Loggers.{Input, factory_loop, factory_new, one_by_one, factory_new_lem}
use qtfra.Log.Order.{
  attrs_of, options_of, has_unsupported, Appends, configured, with_args-configured,
}

abbrev add_attrs : List ℕ → List ℕ → List ℕ
add_attrs h attrs = h ++ attrs

add_attrs-Appends : Appends add_attrs
add_attrs-Appends = record {
  with_none = λ h. append-nil h;
  with_more = λ h xs ys. append_assoc h xs ys;
}

abbrev plain : FeatureLogger (List ℕ) ℕ ℕ
plain = record {
  h = 1 ∷ [];
  strict = false;
  caller_skip = 2;
  enable_trace = true;
  error_logger = none;
}

abbrev mixed : List (Argument (List ℕ) ℕ ℕ)
mixed =
    Argument.attr 5
    ∷ Argument.option (LogOption.with_add_caller_skip 1)
    ∷ Argument.attr 6
    ∷ Argument.option LogOption.with_strict
    ∷ []

with_args-mixed :
    with_args add_attrs mixed plain
    ≡ returns (record {
      h = 1 ∷ 5 ∷ 6 ∷ [];
      strict = true;
      caller_skip = 3;
      enable_trace = true;
      error_logger = none;
    })
unfolding with_args with_loop
with_args-mixed = refl

with_args-configured_example : with_args add_attrs mixed plain ≡ (
    if has_unsupported mixed
    then panics
    else returns (configured add_attrs add_attrs-Appends (attrs_of mixed) (options_of mixed) plain))
with_args-configured_example = with_args-configured add_attrs add_attrs-Appends mixed plain

abbrev add_group : List ℕ → String → List ℕ
add_group h name = h ++ 100 ∷ []

abbrev inputs : List (Input ℕ)
inputs = Input.attr 5 ∷ Input.attr 6 ∷ Input.name "inner" ∷ Input.attr 7 ∷ []

factory_new-inputs : factory_new add_attrs add_group inputs [] ≡ returns (5 ∷ 6 ∷ 100 ∷ 7 ∷ [])
unfolding factory_new factory_loop
factory_new-inputs = refl

factory_new_lem_example :
    factory_new add_attrs add_group inputs [] ≡ one_by_one add_attrs add_group inputs []
factory_new_lem_example = factory_new_lem add_attrs add_group add_attrs-Appends inputs []
