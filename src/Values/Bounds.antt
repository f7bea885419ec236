-- ===== src/Values/Bounds.antt =====
-- UseBetween as a bound, and UseDefault.
use qtfra.Common.{ℕ, ◌≤◌, ◌<◌, ◌≡◌, ◌⊎◌, arith}
use qtfra.Values.{use_between}

-- UseBetween with bounds in order gives a number within them, which is the number itself unless that lies
-- below or above; and it keeps the order of two numbers.
pub use_between_lem :
    (real other mn mx : ℕ)
    → mn ≤ mx
    → real ≤ other
    → (mn ≤ use_between real mn mx)
      × (use_between real mn mx ≤ mx)
      × ((use_between real mn mx ≡ real) ⊎ (real < mn) ⊎ (mx < real))
      × (use_between real mn mx ≤ use_between other mn mx)
unfolding use_between
use_between_lem real other mn mx h k = (ground arith, ground arith, ground arith, ground arith)
