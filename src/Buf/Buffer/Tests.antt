-- ===== src/Buf/Buffer/Tests.antt =====
-- The buffer, its loops and the allocator on concrete inputs.
use qtfra.Common.{
  ℕ, ◌+◌, ◌≤◌, ◌<◌, ◌≡◌, ◌⊎◌, true, false, List, [], ◌∷◌, ◌++◌, none, some, refl, inl, min, arith,
}
use qtfra.Common.Tests.{nat_beq}
use qtfra.Common.Lists.{length, replicate, take, drop, length-take}
use qtfra.Common.Words.{max_int, lt_int}
use qtfra.Common.Outcomes.{returns, panics}
use qtfra.Ex.Error.{leaf, eof, refs_not_clean, overflow}
use qtfra.Buf.Alloc.{Allocator}
use qtfra.Buf.Alloc.Safety.{IsStocked}
use qtfra.Buf.Buffer.{
  Buffer, resize, truncated, discard, new_size, free, release, close, bytes_of, write, read,
  read_byte, peek,
}
use qtfra.Buf.Buffer.Valid.{IsValid, contents}
use qtfra.Buf.Buffer.Pipe
use qtfra.Buf.Buffer.Pipe.{
  Op, writes, writes_string, writes_byte, reads, reads_byte, discards, peeks,
}
use qtfra.Buf.Buffer.Refine.{view, call}
use qtfra.Buf.Buffer.Refine.Calls.{calls, calls-refine}
use qtfra.Buf.Buffer.Stream.{ReadCall, WriteCall, read_from, write_to}
use qtfra.Buf.Buffer.Stream.ReadFrom.{Filled, read_from-Filled}
use qtfra.Buf.Buffer.Stream.WriteTo.{Drained, write_to-Drained}
use qtfra.Buf.Buffer.Lifecycle.{IsFresh, IsReturnable, new_size-IsFresh, free-free, close_cases}
use qtfra.Buf.Buffer.Resizing.{resize_cases, truncated_cases, discard_overflows}

-- Four bytes of an array of six; 7 and 8 wait to be read.
abbrev sample : Buffer
sample = record {
  bytes = some (record { arr = 5 ∷ 7 ∷ 8 ∷ 9 ∷ 1 ∷ 2 ∷ []; len = 5 });
  size = 5;
  managed = false;
  r = 1;
  w = 3;
  ref = 0;
}

sample-IsValid : IsValid sample
sample-IsValid = omega arith

abbrev script : List Op
script = writes (4 ∷ 4 ∷ 4 ∷ []) ∷ reads 3 ∷ peeks 1 ∷ discards 9 ∷ reads_byte ∷ []

calls-sample :
    (calls script sample)
    ≡ returns (
      record { count = 2; bytes = []; error = none }
          ∷ record { count = 3; bytes = 7 ∷ 8 ∷ 4 ∷ []; error = none }
          ∷ record { count = 1; bytes = 4 ∷ []; error = none }
          ∷ record { count = 1; bytes = []; error = none }
          ∷ record { count = 0; bytes = []; error = some (leaf eof) }
          ∷ [],
      record sample {
        bytes = some (record { arr = 5 ∷ 7 ∷ 8 ∷ 4 ∷ 4 ∷ 2 ∷ []; len = 5 });
        r = 5;
        w = 5;
      },
    )
unfolding calls call write read read_byte discard peek
calls-sample = refl

calls-refine_example :
    (b' : Buffer) × (calls script sample ≡ returns ((Pipe.run script (view sample)).0, b'))
    × IsValid b'
    × (view b' ≡ (Pipe.run script (view sample)).1)
calls-refine_example =
    calls-refine script sample-IsValid
      (omega arith, (tt, (inl (omega arith), (inl (omega arith), (tt, tt)))))

-- A reader that holds some bytes, gives at most two of them in a call, and then reports the end.
two_at_most : ReadCall (List ℕ)
two_at_most [] k = ([], some (leaf eof), [])
two_at_most (x ∷ xs) k = (take (min 2 k) (x ∷ xs), none, drop (min 2 k) (x ∷ xs))

two_at_most_le : (s : List ℕ) (k : ℕ) → length (two_at_most s k).0 ≤ k
unfolding two_at_most
two_at_most_le [] k = omega arith
two_at_most_le (x ∷ xs) k = omega (arith, length-take (min 2 k) (x ∷ xs))

read_from-Filled_example :
    Filled two_at_most sample
      (4 ∷ 5 ∷ 6 ∷ [])
      0
      0
      (read_from two_at_most 305 sample (4 ∷ 5 ∷ 6 ∷ []))
read_from-Filled_example =
    read_from-Filled two_at_most two_at_most_le 305 (4 ∷ 5 ∷ 6 ∷ []) sample-IsValid (omega arith)
      (omega arith)

-- A writer that takes one byte in a call and keeps it.
one_at_a_time : WriteCall (List ℕ)
one_at_a_time kept [] = (0, none, kept)
one_at_a_time kept (x ∷ xs) = (1, none, kept ++ x ∷ [])

one_at_a_time_le : (s bs : List ℕ) → (one_at_a_time s bs).0 ≤ length bs
unfolding one_at_a_time
one_at_a_time_le s [] = omega arith
one_at_a_time_le s (x ∷ xs) = omega arith

write_to-Drained_example :
    Drained one_at_a_time sample [] 0 0 (write_to one_at_a_time 305 sample [])
write_to-Drained_example =
    write_to-Drained one_at_a_time one_at_a_time_le 305 [] sample-IsValid (omega arith)
      (omega arith)

write_to-sample :
    write_to one_at_a_time 305 sample [] ≡ returns (2, none, record sample { r = 3 }, 7 ∷ 8 ∷ [])
unfolding write_to one_at_a_time
write_to-sample = refl

abbrev stocked : Allocator
stocked = record { buffers = λ index. [] }

stocked-IsStocked : IsStocked stocked
stocked-IsStocked index = tt

new_size-IsFresh_example :
    (b : Buffer) × (alloc' : Allocator) × (new_size stocked 0 100 ≡ returns (b, alloc'))
    × IsFresh 100 b
    × IsReturnable b
    × IsStocked alloc'
new_size-IsFresh_example = new_size-IsFresh stocked 0 100 stocked-IsStocked (omega arith)

abbrev pooled : Buffer
pooled = record {
  bytes = some (record { arr = replicate 128 0; len = 100 });
  size = 100;
  managed = true;
  r = 0;
  w = 0;
  ref = 0;
}

free-free_example :
    free stocked (record sample { bytes = none })
    ≡ returns (record sample { bytes = none }, stocked)
unfolding free release
free-free_example = free-free stocked stocked sample (record sample { bytes = none }) refl

pooled_closed :
    ((lt_int 0 pooled.ref ≡ true)
      × (close stocked pooled ≡ returns (some (leaf refs_not_clean), pooled, stocked)))
    ⊎ ((lt_int 0 pooled.ref ≡ false)
        × ((alloc' : Allocator) × (close stocked pooled
              ≡ returns (none, record pooled { bytes = none }, alloc'))
            × IsStocked alloc'))
pooled_closed = close_cases stocked pooled stocked-IsStocked (1, refl, omega arith)

resize_cases_example :
    ((5 < 2) × (resize 2 sample ≡ returns (some (leaf overflow), sample)))
    ⊎ ((b' : Buffer) × (2 ≤ 5)
        × (resize 2 sample ≡ returns (none, b'))
        × (b'.size ≡ 2)
        × (contents b' ≡ 7 ∷ 8 ∷ [])
        × (3 ≤ 2 → IsValid b')
        × (2 < 3 → (bs : List ℕ) → nat_beq (length bs) 0 ≡ false → write bs b' ≡ panics))
resize_cases_example = resize_cases 2 sample-IsValid (omega arith)

discard_overflows_example :
    (discard max_int sample ≡ returns ((max_int, none), record sample { r = 1 + max_int }))
    × (bytes_of (record sample { r = 1 + max_int }) ≡ panics)
discard_overflows_example =
    discard_overflows max_int sample-IsValid (omega arith) (omega arith) (omega arith)

truncated_cases_example :
    (b' : Buffer) × (truncated 3 sample ≡ returns (tt, b'))
    × (4 ≤ 3 → IsValid b' × (contents b' ≡ 7 ∷ 8 ∷ []))
    × (4 ≤ 5 → IsValid b' × (length (contents b') ≡ 3))
    × (5 < 4 → (bs : List ℕ) → nat_beq (length bs) 0 ≡ false → write bs b' ≡ panics)
truncated_cases_example = truncated_cases 3 sample-IsValid (omega arith)
