-- ===== src/Ex/Multi/Tests.antt =====
-- Errors on concrete values.
use qtfra.Common.{◌≡◌, String, List, [], ◌∷◌, Option, none, some, refl}
use qtfra.Common.Tests.{string_comparable}
use qtfra.Slicelib.Uniq.{first_with, Distinct}
use qtfra.Ex.Error.{Error, Sentinel, leaf, multi, nil, cons, eof, canceled, other, is_multi}
use qtfra.Ex.Multi.{error_text, present, pack, errors_of}
use qtfra.Ex.Multi.Joined.{some_is, errors_of_lem}

abbrev words : Sentinel → String
words eof = "EOF"
words canceled = "context canceled"
words _ = "failed"

abbrev several : List (Option Error)
several = some (leaf eof) ∷ none ∷ some (leaf (other 1)) ∷ some (leaf (other 2)) ∷ []

errors_several :
    errors_of words several ≡ some (multi (cons (leaf eof) (cons (leaf (other 1)) nil)))
unfolding errors_of error_text
errors_several = refl

errors_of_lem_example :
    (kept : List Error) × (errors_of words several ≡ pack kept)
    × Distinct (error_text words) kept
    × ((t : String)
        → first_with (error_text words) t kept ≡ first_with (error_text words) t (present several))
    × ((target : Sentinel) → is_multi (errors_of words several) (target ∷ []) ≡ some_is kept target)
errors_of_lem_example = errors_of_lem words several
