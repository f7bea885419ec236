-- ===== src/Buf/Buffer.antt =====
-- buf/buffer.go. An `int` field is its 64-bit pattern. A method returns its results and the new
-- buffer, or panics. Readers and writers outside the package are functions on a state of theirs: a
-- reader is given the length of the slice and returns the bytes that it put there.
pub mod Stream
pub mod Valid
pub mod Pipe
pub mod Refine
pub mod Lifecycle
pub mod Resizing
mod Tests
use qtfra.Common.{
  ℕ, zero, suc, ◌+◌, ◌-◌, ◌*◌, ◌≤◌, Bool, true, false, not, ◌&&◌, ◌||◌, List, [], ◌∷◌, ◌++◌, Option,
  none, some, min,
}
use qtfra.Common.Tests.{leb, ltb, nat_beq, if◌then◌else◌}
use qtfra.Common.Lists.{length, take, window, overwrite, get_elem?, replicate}
use qtfra.Common.Words.{add_int, sub_int, is_neg, lt_int, minus}
use qtfra.Common.Outcomes.{Outcome, returns, panics, runs_on, ◌>>=◌, ◌>>◌, require}
use qtfra.Ex.Error.{
  Error, leaf, eof, short_buffer, short_write, no_progress, unexpected_eof, negative_count,
  overflow, refs_not_clean, is,
}
use qtfra.Buf.Slice.{make_bytes, Slice, len_of, arr_of, cap_of, sub_slice}
use qtfra.Buf.Alloc.{Allocator}
use qtfra.Buf.Alloc

pub record Buffer : Type 0 where
  pub bytes : Option Slice
  pub size : ℕ
  pub managed : Bool
  pub r : ℕ
  pub w : ℕ
  pub ref : ℕ

abbrev pub max_managed_size : ℕ
max_managed_size = 64 * 1024 - 1

abbrev pub default_size : ℕ
default_size = 4096

abbrev pub default_huge_size : ℕ
default_huge_size = 8 * 4096

-- What a method returns, with the buffer after it.
abbrev pub Method : Type 0 → Type 0
Method A = Buffer → Outcome (A × Buffer)

-- NewSize
pub new_size : Allocator → ℕ → ℕ → Outcome (Buffer × Allocator)
new_size alloc choice size =
    if is_neg size
    then panics
    else if nat_beq size 0
    then returns (record { bytes = none; size = 0; managed = false; r = 0; w = 0; ref = 0 }, alloc)
    else if lt_int max_managed_size size
    then (do
      s ← make_bytes size
      returns
          (record { bytes = some s; size = size; managed = false; r = 0; w = 0; ref = 0 }, alloc))
    else (do
      got ← Alloc.get alloc choice size
      returns (record { bytes = got.0; size = size; managed = true; r = 0; w = 0; ref = 0 }, got.1))

-- As
abbrev pub as_buffer : Option Slice → Buffer
as_buffer bs = record {
  bytes = bs;
  size = len_of bs;
  managed = false;
  r = 0;
  w = len_of bs;
  ref = 0;
}

-- Resize
pub resize : ℕ → Method (Option Error)
resize n b =
    if lt_int (len_of b.bytes) n
    then returns (some (leaf overflow), b)
    else returns (none, record b { size = n })

-- Reset
abbrev pub reset : Buffer → Buffer
reset b = record b { r = 0; w = 0 }

-- IncRef
unfoldable pub inc_ref : Buffer → Buffer
inc_ref b = record b { ref = add_int b.ref 1 }

-- DecRef
unfoldable pub dec_ref : Buffer → Buffer
dec_ref b = record b { ref = sub_int b.ref 1 }

-- The part of Free after its test: the array goes back to the allocator if it came from there.
release : Allocator → Buffer → Option Slice → Outcome (Buffer × Allocator)
release alloc b none = returns (b, alloc)
release alloc b (some s) =
    if b.managed
    then (do alloc' ← Alloc.put alloc s; returns (record b { bytes = none }, alloc'))
    else returns (record b { bytes = none }, alloc)

-- Free. The receiver is not nil here.
pub free : Allocator → Buffer → Outcome (Buffer × Allocator)
unfolding release
free alloc b = if lt_int 0 b.ref then returns (b, alloc) else release alloc b b.bytes

-- Close
pub close : Allocator → Buffer → Outcome (Option Error × Buffer × Allocator)
close alloc b =
    if lt_int 0 b.ref
    then returns (some (leaf refs_not_clean), b, alloc)
    else (do freed ← free alloc b; returns (none, freed.0, freed.1))

-- Bytes
abbrev pub bytes_of : Buffer → Outcome (List ℕ)
bytes_of b = sub_slice b.bytes b.r b.w

-- FreeBytes
abbrev pub free_bytes : Buffer → Outcome (List ℕ)
free_bytes b = sub_slice b.bytes b.w b.size

-- Len
abbrev pub len : Buffer → ℕ
len b = sub_int b.w b.r

-- Full
abbrev pub is_full : Buffer → Bool
is_full b = nat_beq b.w b.size

-- Empty
abbrev pub is_empty : Buffer → Bool
is_empty b = nat_beq b.r b.w

-- Cap
abbrev pub cap' : Buffer → ℕ
cap' b = len_of b.bytes

-- The slice with bytes stored in its array from place `i` on.
abbrev pub put_bytes : Option Slice → ℕ → List ℕ → Option Slice
put_bytes none i bs = none
put_bytes (some s) i bs = some (record s { arr = overwrite s.arr i bs })

-- Stores the bytes in the free part and moves the write index by their number.
abbrev pub append : Buffer → List ℕ → Buffer
append b bs = record b { bytes = put_bytes b.bytes b.w bs; w = add_int b.w (length bs) }

-- d[i], checked against the length.
abbrev element : Option Slice → ℕ → Outcome ℕ
element d i =
    if ltb i (len_of d)
    then elim (get_elem? (arr_of d) i) [ some x ↦ returns x | none ↦ panics ]
    else panics

-- Read into a slice of length `k`: the bytes copied, and the error.
pub read : ℕ → Method (List ℕ × Option Error)
read k b = if is_empty b then returns (([], some (leaf eof)), b) else (do
  data' ← bytes_of b
  let copied = take k data'
  returns ((copied, none), record b { r = add_int b.r (length copied) }))

-- ReadByte
pub read_byte : Method (ℕ × Option Error)
read_byte b = if is_empty b then returns ((0, some (leaf eof)), b) else (do
  let b' = record b { r = add_int b.r 1 }
  x ← element b'.bytes (sub_int b'.r 1)
  returns ((x, none), b'))

-- WriteString, of the bytes of the string.
pub write_string : List ℕ → Method (ℕ × Option Error)
write_string s b =
    if nat_beq (length s) 0
    then returns ((0, none), b)
    else if lt_int b.size (add_int b.w (length s))
    then returns ((0, some (leaf short_buffer)), b)
    else (do
      room ← sub_slice b.bytes b.w (add_int b.w (length s))
      let copied = take (length room) s
      returns ((length copied, none), append b copied))

-- WriteByte
pub write_byte : ℕ → Method (Option Error)
write_byte x b =
    if is_full b
    then returns (some (leaf short_buffer), b)
    else (do require (ltb b.w (len_of b.bytes)); returns (none, append b (x ∷ [])))

-- Discard
pub discard : ℕ → Method (ℕ × Option Error)
discard n b =
    if is_neg n
    then returns ((0, some (leaf negative_count)), b)
    else if is_empty b
    then returns ((0, some (leaf eof)), b)
    else (let end = add_int b.r n in
        let end' = (if lt_int b.w end then b.w else end) in
        returns ((sub_int end' b.r, none), record b { r = end' }))

-- Peek
pub peek : ℕ → Method (List ℕ × Option Error)
peek n b =
    if is_neg n
    then returns (([], some (leaf negative_count)), b)
    else if is_empty b
    then returns (([], some (leaf eof)), b)
    else if lt_int b.w (add_int b.r n)
    then returns (([], some (leaf overflow)), b)
    else (do found ← sub_slice b.bytes b.r (add_int b.r n); returns ((found, none), b))

-- Write
pub write : List ℕ → Method (ℕ × Option Error)
write bs b =
    if is_full b
    then returns ((0, some (leaf short_buffer)), b)
    else if nat_beq (length bs) 0
    then returns ((0, none), b)
    else (do
      room ← free_bytes b
      let copied = take (length room) bs
      returns ((length copied, none), append b copied))

-- Truncated
pub truncated : ℕ → Method (Unit {0})
truncated n b = if is_neg n then panics else returns (tt, record b { w = add_int b.r n })

-- CopyBytes
abbrev pub copy_bytes : Buffer → Outcome (List ℕ)
copy_bytes b = bytes_of b
