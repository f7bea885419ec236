-- ===== src/Buf/Slice.antt =====
-- A Go byte slice: the array from its first element up to its capacity, and its length. The nil slice
-- is the `none` of an option.
use qtfra.Common.{ℕ, ◌^◌, ◌≤◌, Bool, ◌&&◌, List, [], Option, none, some}
use qtfra.Common.Tests.{leb, if◌then◌else◌}
use qtfra.Common.Lists.{length, replicate, window}
use qtfra.Common.Words.{max_int}
use qtfra.Common.Outcomes.{Outcome, returns, panics}

pub record Slice : Type 0 where
  pub arr : List ℕ
  pub len : ℕ

-- A length is at most the capacity, and a capacity is an `int`.
pub record IsSlice (s : Slice) : Type 0 where
  pub within : s.len ≤ length s.arr
  pub small : length s.arr ≤ max_int

abbrev pub len_of : Option Slice → ℕ
len_of none = 0
len_of (some s) = s.len

abbrev pub arr_of : Option Slice → List ℕ
arr_of none = []
arr_of (some s) = s.arr

abbrev pub cap_of : Option Slice → ℕ
cap_of d = length (arr_of d)

-- The longest slice that `make` makes: what the runtime of a 64-bit Linux addresses.
abbrev pub make_limit : ℕ
make_limit = 2 ^ 48

-- make([]byte, n), on the pattern of n: a negative number is above the limit too.
abbrev pub make_bytes : ℕ → Outcome Slice
make_bytes n =
    if leb n make_limit then returns (record { arr = replicate n 0; len = n }) else panics

-- The check of d[lo:hi], on the bit patterns of `lo` and `hi`: a negative number is a large pattern.
-- The upper limit is the capacity, not the length.
abbrev pub in_range : Option Slice → ℕ → ℕ → Bool
in_range d lo hi = leb lo hi && leb hi (cap_of d)

-- The bytes of d[lo:hi].
abbrev pub sub_slice : Option Slice → ℕ → ℕ → Outcome (List ℕ)
sub_slice d lo hi = if in_range d lo hi then returns (window (arr_of d) lo hi) else panics
