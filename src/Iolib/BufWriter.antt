-- ===== src/Iolib/BufWriter.antt =====
-- enhancements/iolib/rw.go: BufWriter, a buffer in front of a writer. The writer is a function on its
-- state; `Write` and `WriteString` of the writer are one call here, of the bytes.
pub mod Ordered
pub mod Written
pub mod Writes
mod Tests
use qtfra.Common.{ℕ, zero, suc, ◌+◌, ◌≤◌, Bool, ◌||◌, not, List, [], ◌∷◌, Option, none, some, true}
use qtfra.Common.Tests.{ltb, leb, nat_beq, if◌then◌else◌}
use qtfra.Common.Lists.{length, drop}
use qtfra.Common.Outcomes.{Outcome, returns, runs_on, ◌>>=◌}
use qtfra.Ex.Error.{Error, cause, is, is_exactly, short_buffer, eof}
use qtfra.Buf.Alloc.{Allocator}
use qtfra.Buf.Buffer.{
  default_size, free, new_size, Buffer, cap', free_bytes, len, reset, write, write_string,
  write_byte,
}
use qtfra.Buf.Buffer.Stream.{ReadCall, WriteCall, read_from_once, write_to}

pub record BufWriter (W : Type 0) : Type 0 where
  pub underlay : W
  pub buffer : Buffer

-- What a method returns, with the writer after it.
abbrev pub Returns : Type 0 → Type 0 → Type 0
Returns W A = Outcome (A × BufWriter W)

module _ {W : Type 0} where
  -- The end of Flush, after WriteTo.
  abbrev pub flushed : Option Error → BufWriter W → Option Error × BufWriter W
  flushed none b = (none, record b { buffer = reset b.buffer })
  flushed (some err) b = (some (cause err "flush"), b)

module _ {W : Type 0} (write_call : WriteCall W) where
  -- Flush
  unfoldable pub flush : ℕ → BufWriter W → Returns W (Option Error)
  flush fuel b = if nat_beq (len b.buffer) 0 then returns (none, b) else (do
    done ← write_to write_call fuel b.buffer b.underlay
    returns (flushed done.1 (record { underlay = done.3; buffer = done.2 })))

  -- `b.underlay.Write(p)`
  abbrev pub write_through : List ℕ → BufWriter W → (ℕ × Option Error) × BufWriter W
  write_through p b =
      let (n, err, s') = write_call b.underlay p in ((n, err), record b { underlay = s' })

  -- What follows the Flush of Write: an error is wrapped, and nothing was taken.
  abbrev pub then_through : List ℕ → Option Error → BufWriter W → (ℕ × Option Error) × BufWriter W
  then_through p none b = write_through p b
  then_through p (some err) b = ((0, some (cause err "flush")), b)

  -- The loop of Write over what is left of the slice.
  unfoldable pub write_loop : ℕ → ℕ → List ℕ → BufWriter W → Returns W (ℕ × Option Error)
  write_loop zero n p b = runs_on
  write_loop (suc fuel) n p b = if leb (length p) n then returns ((n, none), b) else (do
    put ← write (drop n p) b.buffer
    let nn = put.0.0
    let n' = n + nn
    let b' = record b { buffer = put.1 }
    if nat_beq n' nn then returns ((n', put.0.1), b') else (do
      after ← flush (suc fuel) b'
      elim after.0 [
        | some err ↦ returns ((n', some err), after.1)
        | none ↦ write_loop fuel n' p after.1
      ]))

  -- Write
  unfoldable pub write_bytes : ℕ → List ℕ → BufWriter W → Returns W (ℕ × Option Error)
  write_bytes fuel p b = do
    room ← free_bytes b.buffer
    (if ltb (cap' b.buffer) (length p) || ltb (length room) (length p)
        then (do after ← flush fuel b; returns (then_through p after.0 after.1))
        else write_loop fuel 0 p b)

  -- The second half of WriteString, after its Flush.
  abbrev pub then_string : ℕ → List ℕ → Option Error → BufWriter W → Returns W (ℕ × Option Error)
  then_string n s (some err) b = returns ((n, some err), b)
  then_string n s none b =
      if leb (cap' b.buffer) (length s)
      then returns (write_through s b)
      else (do put ← write_string s b.buffer; returns (put.0, record b { buffer = put.1 }))

  -- `err == nil || !ex.IsMulti(err, io.ErrShortBuffer)`
  abbrev pub is_final : Option Error → Bool
  is_final none = true
  is_final (some err) = not (is err short_buffer)

  -- WriteString
  unfoldable pub write_text : ℕ → List ℕ → BufWriter W → Returns W (ℕ × Option Error)
  write_text fuel s b = do
    put ← write_string s b.buffer
    let b' = record b { buffer = put.1 }
    if is_final put.0.1
        then returns (put.0, b')
        else (do after ← flush fuel b'; then_string put.0.0 s after.0 after.1)

  abbrev pub then_byte : ℕ → Option Error → BufWriter W → Returns W (Option Error)
  then_byte x (some err) b = returns (some (cause err "flush"), b)
  then_byte x none b = do put ← write_byte x b.buffer; returns (put.0, record b { buffer = put.1 })

  -- WriteByte
  unfoldable pub write_one : ℕ → ℕ → BufWriter W → Returns W (Option Error)
  write_one fuel x b = do
    room ← free_bytes b.buffer
    (if nat_beq (length room) 0
        then (do after ← flush fuel b; then_byte x after.0 after.1)
        else then_byte x none b)

  -- UnderlayWriter, which drops the error of its Flush.
  unfoldable pub underlay_writer : ℕ → BufWriter W → Returns W W
  underlay_writer fuel b = do after ← flush fuel b; returns (after.1.underlay, after.1)

  module _ {R : Type 0} (read_call : ReadCall R) where
    -- The loop of ReadFrom, for an underlay that is no io.ReaderFrom: a chunk at a time, flushed.
    unfoldable pub read_chunks : ℕ → ℕ → ℕ → BufWriter W → R → Returns W (ℕ × Option Error × R)
    read_chunks zero inner n b s = runs_on
    read_chunks (suc fuel) inner n b s = do
      got ← read_from_once read_call b.buffer s
      let n' = n + got.0
      after ← flush inner (record b { buffer = got.2 })
      elim after.0 [
        | some err ↦ returns ((n', some (cause err "flush"), got.3), after.1)
        | none ↦ elim got.1 [
          | some err ↦
              returns ((n', (if is_exactly err eof then none else some err), got.3), after.1)
          | none ↦ read_chunks fuel inner n' after.1 got.3
        ]
      ]

    -- ReadFrom
    unfoldable pub read_all : ℕ → ℕ → BufWriter W → R → Returns W (ℕ × Option Error × R)
    read_all fuel inner b s = do
      after ← flush inner b
      elim after.0 [
        | some err ↦ returns ((0, some (cause err "flush"), s), after.1)
        | none ↦ read_chunks fuel inner 0 after.1 s
      ]

-- Close, with the Close of the underlay.
pub close :
    {W : Type 0}
    → (W → Option Error × W)
    → Allocator
    → BufWriter W
    → Outcome (Option Error × BufWriter W × Allocator)
close close_call alloc b = do
  freed ← free alloc b.buffer
  let (err, s') = close_call b.underlay
  returns (err, record { underlay = s'; buffer = freed.0 }, freed.1)

-- NewBufWriter, of a buffer that may be nil: New makes one of the default size then.
unfoldable pub new_buf_writer :
    {W : Type 0} → Allocator → ℕ → W → Option Buffer → Outcome (BufWriter W × Allocator)
new_buf_writer alloc choice w (some buffer) =
    returns (record { underlay = w; buffer = buffer }, alloc)
new_buf_writer alloc choice w none = do
  made ← new_size alloc choice default_size
  returns (record { underlay = w; buffer = made.0 }, made.1)
