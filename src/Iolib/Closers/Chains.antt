-- ===== src/Iolib/Closers/Chains.antt =====
-- Which value of a chain is closed.
use qtfra.Common.{ℕ, ◌≡◌, Bool, true, false, List, [], ◌∷◌, Option, none, some, refl}
use qtfra.Iolib.Closers.{
  Thing, thing, nothing, writer_below, reader_below, both_below, close_any, read_closer,
  write_closer,
}

-- The values from one down through the readers, or the writers, below it.
abbrev pub readers : Thing → List (ℕ × Bool)
readers (thing n closer nothing) = (n, closer) ∷ []
readers (thing n closer (writer_below w)) = (n, closer) ∷ []
readers (thing n closer (reader_below r)) = (n, closer) ∷ readers r
readers (thing n closer (both_below w r)) = (n, closer) ∷ readers r

abbrev pub writers : Thing → List (ℕ × Bool)
writers (thing n closer nothing) = (n, closer) ∷ []
writers (thing n closer (writer_below w)) = (n, closer) ∷ writers w
writers (thing n closer (reader_below r)) = (n, closer) ∷ []
writers (thing n closer (both_below w r)) = (n, closer) ∷ writers w

-- The first of the values that can be closed.
abbrev pub first_closer : List (ℕ × Bool) → Option ℕ
first_closer [] = none
first_closer ((n, true) ∷ chain) = some n
first_closer ((n, false) ∷ chain) = first_closer chain

-- No writer stands below: what Close sees of a reader.
abbrev pub OnlyReaders : Thing → Type 0
OnlyReaders (thing n closer nothing) = Unit
OnlyReaders (thing n closer (writer_below w)) = ⊥
OnlyReaders (thing n closer (reader_below r)) = OnlyReaders r
OnlyReaders (thing n closer (both_below w r)) = ⊥

read_closer-first : (v : Thing) → read_closer v ≡ first_closer (readers v)
unfolding read_closer
read_closer-first (thing n true nothing) = refl
read_closer-first (thing n true (writer_below w)) = refl
read_closer-first (thing n true (reader_below r)) = refl
read_closer-first (thing n true (both_below w r)) = refl
read_closer-first (thing n false nothing) = refl
read_closer-first (thing n false (writer_below w)) = refl
read_closer-first (thing n false (reader_below r)) = read_closer-first r
read_closer-first (thing n false (both_below w r)) = read_closer-first r

write_closer-first : (v : Thing) → write_closer v ≡ first_closer (writers v)
unfolding write_closer
write_closer-first (thing n true nothing) = refl
write_closer-first (thing n true (writer_below w)) = refl
write_closer-first (thing n true (reader_below r)) = refl
write_closer-first (thing n true (both_below w r)) = refl
write_closer-first (thing n false nothing) = refl
write_closer-first (thing n false (writer_below w)) = write_closer-first w
write_closer-first (thing n false (reader_below r)) = refl
write_closer-first (thing n false (both_below w r)) = write_closer-first w

close_any-first : (v : Thing) → OnlyReaders v → close_any v ≡ first_closer (readers v)
unfolding close_any
close_any-first (thing n true nothing) o = refl
close_any-first (thing n true (writer_below w)) o = refl
close_any-first (thing n true (reader_below r)) o = refl
close_any-first (thing n true (both_below w r)) o = refl
close_any-first (thing n false nothing) o = refl
close_any-first (thing n false (writer_below w)) o = absurd o
close_any-first (thing n false (reader_below r)) o = close_any-first r o
close_any-first (thing n false (both_below w r)) o = absurd o

-- The ReadCloser and the WriteCloser of a value close the first value that has a Close, down its readers
-- or its writers, and nothing when none has; Close itself closes what the ReadCloser closes, on a value
-- that has only readers below.
pub closers_lem :
    (v w : Thing)
    → OnlyReaders v
    → (read_closer v ≡ first_closer (readers v))
      × (write_closer w ≡ first_closer (writers w))
      × (close_any v ≡ first_closer (readers v))
closers_lem v w o = (read_closer-first v, write_closer-first w, close_any-first v o)
