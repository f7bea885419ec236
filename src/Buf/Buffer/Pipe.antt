-- ===== src/Buf/Buffer/Pipe.antt =====
-- The abstract buffer: the bytes waiting to be read, and how many more may be written. Nothing is
-- said of indices, arrays or reuse.
use qtfra.Common.{ℕ, ◌-◌, List, [], ◌∷◌, ◌++◌, Option, none, some, min}
use qtfra.Common.Tests.{ltb, nat_beq, if◌then◌else◌}
use qtfra.Common.Lists.{length, take, drop}
use qtfra.Common.Words.{is_neg}
use qtfra.Ex.Error.{Error, leaf, eof, short_buffer, negative_count, overflow}

pub record Pipe : Type 0 where
  pub pending : List ℕ
  pub room : ℕ

-- What a client asks.
pub data Op : Type 0 where
  writes writes_string : List ℕ → Op
  writes_byte : ℕ → Op
  reads : ℕ → Op
  reads_byte : Op
  discards peeks : ℕ → Op

-- What it sees: a count, some bytes, and an error.
pub record Reply : Type 0 where
  pub count : ℕ
  pub bytes : List ℕ
  pub error : Option Error

abbrev pub fails : Error → Reply
fails e = record { count = 0; bytes = []; error = some e }

abbrev pub gives : ℕ → List ℕ → Reply
gives n bs = record { count = n; bytes = bs; error = none }

-- Puts in the first `k` of the bytes.
abbrev pub accept : Pipe → List ℕ → ℕ → Reply × Pipe
accept p bs k = (gives k [], record { pending = p.pending ++ take k bs; room = p.room - k })

-- Takes out the first `k` bytes.
abbrev pub yield : Pipe → ℕ → Pipe
yield p k = record p { pending = drop k p.pending }

unfoldable pub step : Op → Pipe → Reply × Pipe
step (writes bs) p =
    if nat_beq p.room 0
    then (fails (leaf short_buffer), p)
    else accept p bs (min p.room (length bs))
step (writes_string s) p =
    if ltb p.room (length s) then (fails (leaf short_buffer), p) else accept p s (length s)
step (writes_byte x) p =
    if nat_beq p.room 0 then (fails (leaf short_buffer), p) else accept p (x ∷ []) 1
step (reads k) p =
    if nat_beq (length p.pending) 0
    then (fails (leaf eof), p)
    else (gives (min k (length p.pending)) (take k p.pending), yield p k)
step reads_byte p = elim p.pending [
  | [] ↦ (fails (leaf eof), p)
  | x ∷ rest ↦ (gives 1 (x ∷ []), record p { pending = rest })
]
step (discards n) p =
    if is_neg n
    then (fails (leaf negative_count), p)
    else if nat_beq (length p.pending) 0
    then (fails (leaf eof), p)
    else (gives (min n (length p.pending)) [], yield p n)
step (peeks n) p =
    if is_neg n
    then (fails (leaf negative_count), p)
    else if nat_beq (length p.pending) 0
    then (fails (leaf eof), p)
    else if ltb (length p.pending) n
    then (fails (leaf overflow), p)
    else (gives n (take n p.pending), p)

unfoldable pub run : List Op → Pipe → List Reply × Pipe
run [] p = ([], p)
run (op ∷ ops) p =
    let (reply, p') = step op p in let (replies, last) = run ops p' in (reply ∷ replies, last)
