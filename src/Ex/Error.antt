-- ===== src/Ex/Error.antt =====
-- Go's `error` values as the program makes them: ex/new.go, the sentinel values of the packages and
-- of the standard library, and `errors.Is` as far as ex/multi.go uses it. A nil error is `none`.
use qtfra.Common.{ℕ, ◌+◌, String, Bool, false, ◌||◌, Option, none, some, List, [], ◌∷◌}
use qtfra.Common.Tests.{nat_beq}

-- A value that was made once, by errors.New, and is told from others by identity. `other` stands for
-- the values that code outside the repository makes, one number for each.
pub data Sentinel : Type 0 where
  eof short_buffer short_write no_progress unexpected_eof invalid_write canceled : Sentinel
  negative_count overflow refs_not_clean incorrect_size collector_closed subscriber_closed :
      Sentinel
  other : ℕ → Sentinel

-- What identifies a sentinel.
abbrev pub identity : Sentinel → ℕ
identity eof = 0
identity short_buffer = 1
identity short_write = 2
identity no_progress = 3
identity unexpected_eof = 4
identity invalid_write = 5
identity canceled = 6
identity negative_count = 7
identity overflow = 8
identity refs_not_clean = 9
identity incorrect_size = 10
identity collector_closed = 11
identity subscriber_closed = 12
identity (other n) = 13 + n

-- `wrap` is what Cause makes, `multi` is a *multiError, `joined` is what errors.Join makes.
mutual
  pub data Error : Type 0 where
    leaf : Sentinel → Error
    wrap : String → Error → Error
    multi : Errors → Error
    joined : Errors → Error

  pub data Errors : Type 0 where
    nil : Errors
    cons : Error → Errors → Errors

-- errors.Is for a sentinel: the value itself, or one that it wraps, at any depth.
unfoldable mutual
  pub is : Error → Sentinel → Bool
  is (leaf s) target = nat_beq (identity s) (identity target)
  is (wrap due err) target = is err target
  is (multi errs) target = any_is errs target
  is (joined errs) target = any_is errs target

  pub any_is : Errors → Sentinel → Bool
  any_is nil target = false
  any_is (cons err errs) target = is err target || any_is errs target

-- `err == target`, with no unwrapping.
abbrev pub is_exactly : Error → Sentinel → Bool
is_exactly (leaf s) target = nat_beq (identity s) (identity target)
is_exactly _ target = false

-- Cause, and Zone, which is Cause with its arguments swapped.
abbrev pub cause : Error → String → Error
cause err due = wrap due err

abbrev pub to_list : Errors → List Error
to_list nil = []
to_list (cons err errs) = err ∷ to_list errs

abbrev pub of_list : List Error → Errors
of_list [] = nil
of_list (err ∷ errs) = cons err (of_list errs)

-- IsMulti: whether the error is one of the targets; a nil error is none of them.
unfoldable pub is_multi : Option Error → List Sentinel → Bool
is_multi err [] = false
is_multi none (target ∷ targets) = is_multi none targets
is_multi (some err) (target ∷ targets) = is err target || is_multi (some err) targets
