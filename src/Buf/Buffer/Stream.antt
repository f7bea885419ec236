-- ===== src/Buf/Buffer/Stream.antt =====
-- The methods of buf/buffer.go that call a reader or a writer. A reader is given the length of a slice
-- and returns the bytes that it stored there, with an error and its next state; a writer is given the
-- bytes and returns how many it took. Loops take fuel.
pub mod ReadFrom
pub mod Rounds
pub mod WriteTo
use qtfra.Common.{ℕ, zero, suc, ◌+◌, ◌-◌, Bool, ◌&&◌, List, [], ◌++◌, Option, none, some}
use qtfra.Common.Tests.{ltb, leb, nat_beq, if◌then◌else◌}
use qtfra.Common.Lists.{length, take, drop}
use qtfra.Common.Words.{add_int, lt_int}
use qtfra.Common.Outcomes.{Outcome, returns, runs_on, ◌>>=◌, ◌>>◌}
use qtfra.Ex.Error.{
  Error, leaf, eof, short_buffer, short_write, no_progress, unexpected_eof, is, is_exactly,
}
use qtfra.Buf.Slice.{sub_slice}
use qtfra.Buf.Buffer.{Buffer, append, put_bytes, bytes_of, free_bytes, is_full, is_empty}

-- io.Reader and io.Writer, with a state.
abbrev pub ReadCall : Type 0 → Type 0
ReadCall R = R → ℕ → List ℕ × Option Error × R

abbrev pub WriteCall : Type 0 → Type 0
WriteCall W = W → List ℕ → ℕ × Option Error × W

-- What a loop returns: a count, an error, the buffer and the other side's state.
abbrev pub Result : Type 0 → Type 0
Result S = Outcome (ℕ × Option Error × Buffer × S)

-- An end of file is no error for ReadFrom.
abbrev pub no_eof : Option Error → Option Error
no_eof none = none
no_eof (some e) = if is e eof then none else some e

-- The end of a round of a loop, with the error of the round (`err'` is what the loop makes of it) and
-- whether the buffer is done: more than a hundred rounds without progress end the loop too.
abbrev pub next_round :
    {S : Type 0} → Option Error → Option Error → Bool → ℕ → ℕ → Buffer → S → Result S → Result S
next_round (some e) err' done n retry b s again = returns (n, err', b, s)
next_round none err' done n retry b s again =
    if done
    then returns (n, none, b, s)
    else if ltb 100 retry
    then returns (n, some (leaf no_progress), b, s)
    else again

module _ {R : Type 0} (read_call : ReadCall R) where
  -- The buffer after the reader has stored a chunk in the free part: what does not fit is not stored,
  -- and the count is the reader's.
  abbrev pub store_chunk : Buffer → ℕ → List ℕ → Buffer
  store_chunk b room chunk = record b {
    bytes = put_bytes b.bytes b.w (take room chunk);
    w = add_int b.w (length chunk);
  }

  read_from_loop : ℕ → ℕ → ℕ → Buffer → R → Result R
  read_from_loop zero n retry b s = runs_on
  read_from_loop (suc fuel) n retry b s = do
    room ← free_bytes b
    let (chunk, err, s') = read_call s (length room)
    let b' = store_chunk b (length room) chunk
    let n' = add_int n (length chunk)
    let retry' = (if nat_beq (length chunk) 0 then retry + 1 else 0)
    let again = read_from_loop fuel n' retry' b' s'
    next_round err (no_eof err) (is_full b') n' retry' b' s' again

  -- ReadFrom
  pub read_from : ℕ → Buffer → R → Result R
  unfolding read_from_loop
  read_from fuel b s =
      if is_full b then returns (0, some (leaf short_buffer), b, s) else read_from_loop fuel 0 0 b s

  -- ReadFromOnce
  pub read_from_once : Buffer → R → Result R
  read_from_once b s = if is_full b then returns (0, some (leaf short_write), b, s) else (do
    room ← free_bytes b
    let (chunk, err, s') = read_call s (length room)
    returns (length chunk, err, store_chunk b (length room) chunk, s'))

  -- The loop of io.ReadFull over a slice of `want` bytes of which `got` are filled.
  read_full_loop : ℕ → ℕ → List ℕ → R → Outcome (List ℕ × Option Error × R)
  read_full_loop zero want got s = runs_on
  read_full_loop (suc fuel) want got s =
      if leb want (length got) then returns (got, none, s) else (do
        let (chunk, err, s') = read_call s (want - length got)
        let got' = got ++ chunk
        let again = read_full_loop fuel want got' s'
        elim err [
          | none ↦ again
          | some e ↦ returns (
            got',
            (if leb want (length got')
                then none
                else if ltb 0 (length got') && is_exactly e eof
                then some (leaf unexpected_eof)
                else some e),
            s',
          )
        ])

  -- ReadFull
  pub read_full : ℕ → ℕ → Buffer → R → Result R
  unfolding read_full_loop
  read_full fuel want b s =
      let end = add_int b.w want in
      if lt_int b.size end then returns (0, some (leaf short_buffer), b, s) else (do
        room ← sub_slice b.bytes b.w end
        got ← read_full_loop fuel (length room) [] s
        returns (length got.0, got.1, store_chunk b (length room) got.0, got.2))

module _ {W : Type 0} (write_call : WriteCall W) where
  -- WriteToOnce
  pub write_to_once : Buffer → W → Result W
  write_to_once b s = if is_empty b then returns (0, some (leaf eof), b, s) else (do
    waiting ← bytes_of b
    let (nn, err, s') = write_call s waiting
    returns (nn, err, record b { r = add_int b.r nn }, s'))

  write_to_loop : ℕ → ℕ → ℕ → Buffer → W → Result W
  write_to_loop zero n retry b s = runs_on
  write_to_loop (suc fuel) n retry b s = do
    waiting ← bytes_of b
    let (nn, err, s') = write_call s waiting
    let b' = record b { r = add_int b.r nn }
    let n' = add_int n nn
    let retry' = (if nat_beq nn 0 then retry + 1 else 0)
    let again = write_to_loop fuel n' retry' b' s'
    next_round err err (is_empty b') n' retry' b' s' again

  -- WriteTo
  unfoldable pub write_to : ℕ → Buffer → W → Result W
  unfolding write_to_loop
  write_to fuel b s =
      if is_empty b then returns (0, some (leaf eof), b, s) else write_to_loop fuel 0 0 b s
