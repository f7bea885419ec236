-- ===== src/Ex/Multi/Joined.antt =====
-- What Errors keeps of its arguments.
use qtfra.Common.{
  ◌≡◌, String, Bool, true, false, ◌||◌, List, [], ◌∷◌, ◌++◌, Option, none, some, refl, sym, ap, ◌∙◌,
  append-nil, append_assoc,
}
use qtfra.Common.Tests.{string_comparable}
use qtfra.Slicelib.{filter_loop, filter, filter_not_nil, is_some, uniq_by}
use qtfra.Slicelib.Uniq.{first_with, Distinct, uniq_by_lem}
use qtfra.Ex.Error.{Error, Sentinel, is, any_is, is_multi, of_list}
use qtfra.Ex.Multi.{error_text, present, pack, errors_of}

present-append : (xs ys : List (Option Error)) → present (xs ++ ys) ≡ present xs ++ present ys
present-append [] ys = refl
present-append (none ∷ xs) ys = present-append xs ys
present-append (some err ∷ xs) ys = ap (◌∷◌ err) (present-append xs ys)

present-filter_loop :
    (kept errs : List (Option Error))
    → present (filter_loop is_some kept errs) ≡ present kept ++ present errs
unfolding filter_loop
present-filter_loop kept [] = sym (append-nil (present kept))
present-filter_loop kept (none ∷ errs) = present-filter_loop kept errs
present-filter_loop kept (some err ∷ errs) =
    present-filter_loop (kept ++ some err ∷ []) errs
    ∙ (ap (λ t. t ++ present errs) (present-append kept (some err ∷ []))
        ∙ append_assoc (present kept) (err ∷ []) (present errs))

present-filter_not_nil : (errs : List (Option Error)) → present (filter_not_nil errs) ≡ present errs
unfolding filter_not_nil filter
present-filter_not_nil errs = present-filter_loop [] errs

-- Whether one of the errors is the target.
abbrev pub some_is : List Error → Sentinel → Bool
some_is [] target = false
some_is (err ∷ errs) target = is err target || some_is errs target

any_is-of_list :
    (errs : List Error) (target : Sentinel) → any_is (of_list errs) target ≡ some_is errs target
unfolding any_is
any_is-of_list [] target = refl
any_is-of_list (err ∷ errs) target = ap (◌||◌ (is err target)) (any_is-of_list errs target)

or_false : (b : Bool) → (b || false) ≡ b
or_false true = refl
or_false false = refl

is_multi-pack :
    (errs : List Error) (target : Sentinel)
    → is_multi (pack errs) (target ∷ []) ≡ some_is errs target
unfolding is_multi is
is_multi-pack [] target = refl
is_multi-pack (err ∷ []) target = refl
is_multi-pack (err ∷ other ∷ errs) target = or_false _ ∙ any_is-of_list (err ∷ other ∷ errs) target

module _ (text : Sentinel → String) where
  -- Errors packs a list of errors with distinct texts, which for each text holds the first argument
  -- that has it, and nil arguments count for nothing; the result is a target for `errors.Is` when one
  -- of that list is.
  pub errors_of_lem :
      (errs : List (Option Error))
      → (kept : List Error) × (errors_of text errs ≡ pack kept)
        × Distinct (error_text text) kept
        × ((t : String)
            → first_with (error_text text) t kept ≡ first_with (error_text text) t (present errs))
        × ((target : Sentinel) → is_multi (errors_of text errs) (target ∷ []) ≡ some_is kept target)
  unfolding errors_of
  errors_of_lem errs =
      let same : present (filter_not_nil (filter_not_nil errs)) ≡ present errs =
        present-filter_not_nil (filter_not_nil errs) ∙ present-filter_not_nil errs in
      let few = uniq_by_lem (error_text text) (present errs) in
      rw same (
        uniq_by (error_text text) (present errs),
        refl,
        few.0,
        few.1,
        is_multi-pack (uniq_by (error_text text) (present errs)),
      )
