-- ===== src/Buf/Alloc.antt =====
-- buf/alloc.go. The eleven pools are lists of arrays; sync.Pool hands out any array that it holds or
-- a new one, so `Get` takes that choice as an argument.
pub mod Sizes
pub mod Safety
mod Tests
use qtfra.Common.{
  ℕ, zero, suc, ◌+◌, ◌-◌, ◌/◌, ◌%◌, ◌^◌, ◌≤◌, Bool, true, false, not, ◌&&◌, ◌||◌, List, [], ◌∷◌,
  Option, none, some,
}
use qtfra.Common.Tests.{leb, ltb, nat_beq, if◌then◌else◌}
use qtfra.Common.Lists.{length, get_elem?, replicate}
use qtfra.Common.Words.{word_mod, lt_int, is_neg}
use qtfra.Common.Outcomes.{Outcome, returns, panics, ◌>>=◌, ◌>>◌, require}
use qtfra.Ex.Error.{Error, leaf, incorrect_size}
use qtfra.Buf.Slice.{Slice}

-- The arrays that each pool holds.
pub record Allocator : Type 0 where
  pub buffers : ℕ → List (List ℕ)

-- bits.Len32: the number of bits without leading zeros, at most the number of rounds.
pub bit_len : ℕ → ℕ → ℕ
bit_len zero n = 0
bit_len (suc rounds) n = if nat_beq n 0 then 0 else suc (bit_len rounds (n / 2))

-- msb: uint32 and uint16 conversions keep the low bits.
pub msb : ℕ → ℕ
msb size = (bit_len 32 (size % 2 ^ 32) + 2 ^ 16 - 1) % 2 ^ 16

-- 1 << bits, for an `int`.
abbrev pub one_shl : ℕ → ℕ
one_shl bits = 2 ^ bits % word_mod

-- The length of the arrays of a pool.
abbrev pub class_size : ℕ → ℕ
class_size index = 2 ^ (index + 6)

-- The index of the pool that serves a size, a uint16.
pub get_index : ℕ → ℕ
get_index size =
    if ltb 64 size
    then (let m = msb size in
        let index = (if nat_beq size (one_shl m) then m else (m + 1) % 2 ^ 16) in
        (index + 2 ^ 16 - 6) % 2 ^ 16)
    else 0

-- What sync.Pool.Get may return, with the arrays that stay: the chosen array, or a new one where the
-- choice names none.
abbrev pub pool_get : List (List ℕ) → ℕ → ℕ → List ℕ × List (List ℕ)
pool_get [] choice fresh = (replicate fresh 0, [])
pool_get (a ∷ held) zero fresh = (a, held)
pool_get (a ∷ held) (suc choice) fresh =
    let (found, rest) = pool_get held choice fresh in (found, a ∷ rest)

abbrev update : (ℕ → List (List ℕ)) → ℕ → List (List ℕ) → ℕ → List (List ℕ)
update buffers index held j = if nat_beq j index then held else buffers j

-- The type assertion of one case of the switch, and the slice that it returns.
as_slice : ℕ → ℕ → List ℕ → Outcome Slice
as_slice index size found = do
  require (nat_beq (length found) (class_size index))
  require (leb size (length found))
  returns (record { arr = found; len = size })

-- (*defaultAllocator).Get
pub get_array : Allocator → ℕ → ℕ → Outcome (Option Slice × Allocator)
unfolding as_slice
get_array alloc choice size =
    if is_neg size || nat_beq size 0 || lt_int 65536 size then returns (none, alloc) else (do
      let index = get_index size
      require (leb index 10)
      let got = pool_get (alloc.buffers index) choice (class_size index)
      slice ← as_slice index size got.0
      returns (some slice, record { buffers = update alloc.buffers index got.1 }))

-- (*defaultAllocator).Put, given the array of the slice up to its capacity.
pub put_array : Allocator → List ℕ → Outcome (Option Error × Allocator)
put_array alloc arr =
    let bits = msb (length arr) in
    if nat_beq (length arr) 0 || ltb 65536 (length arr) || not (nat_beq (length arr) (one_shl bits))
    then returns (some (leaf incorrect_size), alloc)
    else (do
      let index = (bits + 2 ^ 16 - 6) % 2 ^ 16
      require (leb index 10)
      require (nat_beq (length arr) (class_size index))
      returns (none, record { buffers = update alloc.buffers index (arr ∷ alloc.buffers index) }))

-- put: an error is a panic.
pub put : Allocator → Slice → Outcome Allocator
put alloc data' = if nat_beq data'.len 0 then returns alloc else (do
  done ← put_array alloc data'.arr
  elim done.0 [ none ↦ returns done.1 | some err ↦ panics ])

-- get
pub get : Allocator → ℕ → ℕ → Outcome (Option Slice × Allocator)
get alloc choice size =
    if nat_beq size 0 then returns (none, alloc) else get_array alloc choice size
