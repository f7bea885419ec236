-- ===== src/Common/Words.antt =====
-- Go's `int` on a 64-bit machine: a bit pattern below 2 ^ 64, in two's complement.
use Prim.Native.Nat.{ℕ, ◌+◌, ◌-◌, ◌%◌, ◌^◌}
use mathlib.Core.Bool.{Bool}
use qtfra.Common.Tests.{ltb, leb}

abbrev pub word_mod : ℕ
word_mod = 2 ^ 64

-- The first pattern that stands for a negative number.
abbrev pub sign_bit : ℕ
sign_bit = 2 ^ 63

abbrev pub max_int : ℕ
max_int = 2 ^ 63 - 1

-- The pattern of -n.
abbrev pub minus : ℕ → ℕ
minus n = word_mod - n

abbrev pub add_int : ℕ → ℕ → ℕ
add_int a b = (a + b) % word_mod

abbrev pub sub_int : ℕ → ℕ → ℕ
sub_int a b = (a + word_mod - b) % word_mod

-- n < 0
abbrev pub is_neg : ℕ → Bool
is_neg n = leb sign_bit n

-- a < b, for signed numbers.
abbrev pub lt_int : ℕ → ℕ → Bool
lt_int a b = ltb ((a + sign_bit) % word_mod) ((b + sign_bit) % word_mod)
