-- ===== src/Values.antt =====
-- values/defaults.go and values/slice.go. An ordered type is the native numbers; a type's zero value,
-- and the test for nil, are parameters.
pub mod Bounds
mod Tests
use qtfra.Common.{ℕ, Bool, List, ◌++◌}
use qtfra.Common.Tests.{Comparable, ◌==◌, ltb, if◌then◌else◌}

module _ {ℓ} {T : Type ℓ} where
  -- UseDefaultIF, and UseDefaultNil, whose condition is IsNil.
  unfoldable pub use_default_if : T → T → (T → Bool) → T
  use_default_if real dft condition = if condition real then dft else real

  -- UseDefault
  unfoldable pub use_default : ⦃c : Comparable T⦄ → T → T → T → T
  use_default zero_value real dft = if zero_value == real then dft else real

  -- (*Slice).Append
  abbrev pub append : List T → List T → List T
  append vv v = vv ++ v

-- UseBetween
unfoldable pub use_between : ℕ → ℕ → ℕ → ℕ
use_between real mn mx = if ltb real mn then mn else if ltb mx real then mx else real
