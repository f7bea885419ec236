-- ===== src/Iolib/Splice/Tests.antt =====
-- A splice that moves three bytes in two writes, and whose next write fails.
use qtfra.Common.{ℕ, ◌≡◌, List, [], ◌∷◌, some, refl}
use qtfra.Ex.Error.{leaf, other}
use qtfra.Iolib.Splice.{Answer, moves_in, moves_out, fails, SplicePipe, eagain, splice, put_pipe}
use qtfra.Iolib.Splice.Conserved.{Conserves, splice-Conserves}

abbrev new_pipe : SplicePipe
new_pipe = record { rfd = 3; wfd = 4; data_field = 0; held = [] }

abbrev answers : List Answer
answers =
    moves_in (7 ∷ 8 ∷ 9 ∷ [])
    ∷ moves_out 2
    ∷ fails (leaf eagain)
    ∷ moves_out 9
    ∷ moves_in (5 ∷ [])
    ∷ fails (leaf (other 32))
    ∷ []

abbrev reader_counter : List ℕ
reader_counter = 1 ∷ []

abbrev writer_counter : List ℕ
writer_counter = 2 ∷ []

splice-Conserves_example :
    Conserves reader_counter writer_counter new_pipe.held
      (splice reader_counter writer_counter (some new_pipe) answers)
    × (put_pipe (splice reader_counter writer_counter (some new_pipe) answers).pipe
        ≡ some (splice reader_counter writer_counter (some new_pipe) answers).pipe)
splice-Conserves_example = splice-Conserves reader_counter writer_counter new_pipe answers refl

-- The byte that was not written stays in the pipe, which goes back to the pool.
byte_in_pool :
    put_pipe (splice reader_counter writer_counter (some new_pipe) answers).pipe
    ≡ some (record new_pipe { held = 5 ∷ [] })
unfolding splice
byte_in_pool = refl
