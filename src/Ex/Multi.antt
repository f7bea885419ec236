-- ===== src/Ex/Multi.antt =====
-- ex/multi.go: Errors, which joins errors and drops those whose text was there before, and the text of
-- an error. A text of an error made outside the repository is a parameter.
pub mod Joined
mod Tests
use Prim.Native.String.{◌++◌ as text_append}
use qtfra.Common.{
  ℕ, ◌+◌, ◌≡◌, ◌⊎◌, String, Bool, true, false, not, ◌||◌, List, [], ◌∷◌, ◌++◌, Option, none, some,
  refl, sym, ap, ◌∙◌, inl, inr, arith,
}
use qtfra.Common.Tests.{Comparable, beq_iff, ◌==◌, if◌then◌else◌, Bool-cases, string_comparable}
use qtfra.Slicelib
use qtfra.Slicelib.{filter_not_nil, uniq_by, is_some}
use qtfra.Slicelib.Uniq.{first_with, Distinct, uniq_by_lem}
use qtfra.Ex.Error.{
  Error, Errors, Sentinel, leaf, wrap, multi, joined, nil, cons, to_list, of_list, is, any_is,
  is_multi,
}

-- The errors that are there.
abbrev pub present : List (Option Error) → List Error
present [] = []
present (none ∷ errs) = present errs
present (some err ∷ errs) = err ∷ present errs

-- The `switch len(errors)` that Errors ends with.
abbrev pub pack : List Error → Option Error
pack [] = none
pack (err ∷ []) = some err
pack (err ∷ other ∷ errs) = some (multi (of_list (err ∷ other ∷ errs)))

module _ (text : Sentinel → String) where
  -- (error).Error. A multiError joins the texts by ";\n", errors.Join by a newline.
  mutual
    pub error_text : Error → String
    error_text (leaf s) = text s
    error_text (wrap due err) = text_append due (text_append " : " (error_text err))
    error_text (multi errs) = join_texts ";\n" errs
    error_text (joined errs) = join_texts "\n" errs

    pub join_texts : String → Errors → String
    join_texts sep nil = ""
    join_texts sep (cons err nil) = error_text err
    join_texts sep (cons err (cons other errs)) =
        text_append (error_text err) (text_append sep (join_texts sep (cons other errs)))

  -- Errors
  unfoldable pub errors_of : List (Option Error) → Option Error
  unfolding filter_not_nil uniq_by
  errors_of errs = pack (uniq_by error_text (present (filter_not_nil (filter_not_nil errs))))

  -- (*JoinError).NewError
  abbrev pub new_error : Option Error → Option Error → Option Error
  new_error joined_error err = errors_of (joined_error ∷ err ∷ [])
