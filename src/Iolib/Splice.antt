-- ===== src/Iolib/Splice.antt =====
-- enhancements/iolib/splice_linux.go: splice, by what its calls answer. An answer is one return of the
-- splice system call, which moves at most what it is asked for, or of the raw connection that gives up
-- waiting for the file descriptor. Between answers nothing happens; the bytes that were received, sent
-- and left in the pipe are kept, which the code does not see.
pub mod Conserved
mod Tests
use qtfra.Common.{
  ℕ, ◌+◌, ◌-◌, Bool, true, false, ◌||◌, List, [], ◌∷◌, ◌++◌, Option, none, some, min, map,
}
use qtfra.Common.Tests.{if◌then◌else◌, nat_beq}
use qtfra.Common.Lists.{length, take, drop}
use qtfra.Ex.Error.{Error, Sentinel, leaf, other, cause, is_exactly}
use qtfra.Iolib.Copy.{call_all}

-- unix.EAGAIN, unix.EINVAL, unix.ENOSYS
abbrev pub eagain : Sentinel
eagain = other 11

abbrev pub einval : Sentinel
einval = other 22

abbrev pub enosys : Sentinel
enosys = other 38

-- splicePipe: its descriptors, its `data`, and the bytes in it.
pub record SplicePipe : Type 0 where
  pub rfd : ℕ
  pub wfd : ℕ
  pub data_field : ℕ
  pub held : List ℕ

pub data Answer : Type 0 where
  moves_in : List ℕ → Answer
  moves_out : ℕ → Answer
  fails : Error → Answer
  gives_up : Error → Answer

-- In source.Read, in destination.Write, or returned with `handed` and an error.
pub data Doing : Type 0 where
  reading writing : Doing
  finished : Bool → Option Error → Doing

-- The variables of splice.
pub record Splicing (F : Type 0) : Type 0 where
  pub doing : Doing
  pub pipe : SplicePipe
  pub read_n : ℕ
  pub write_size : ℕ
  pub n : ℕ
  pub calls : List (F × ℕ)
  pub received : List ℕ
  pub sent : List ℕ

-- What follows source.Read, which returned `outer`, with a read error.
abbrev pub read_failed : Option Error → Error → Doing
read_failed outer err =
    if is_exactly err einval || is_exactly err enosys
    then finished false outer
    else finished true (some (cause err "splice read"))

module _ {F : Type 0} (read_counters write_counters : List F) where
  -- readFunc, and the loop up to destination.Write: no bytes are the end.
  abbrev pub read_answer : Answer → Splicing F → Splicing F
  read_answer (moves_in chunk) s =
      let size = length chunk in
      record s {
        doing = if nat_beq size 0 then finished true none else writing;
        pipe = record s.pipe { held = s.pipe.held ++ chunk };
        read_n = size;
        write_size = size;
        received = s.received ++ chunk;
      }
  read_answer (fails err) s = record s {
    doing = if is_exactly err eagain then reading else read_failed none err;
  }
  read_answer (gives_up err) s = record s { doing = read_failed (some err) err }
  read_answer (moves_out size) s = s

  -- writeFunc, and the end of the loop's round where all is written.
  abbrev pub write_answer : Answer → Splicing F → Splicing F
  write_answer (moves_out size) s =
      let size' = min size s.write_size in
      let left = s.write_size - size' in
      let all_written = nat_beq left 0 in
      record s {
        doing = if all_written then reading else writing;
        pipe = record s.pipe { held = drop size' s.pipe.held };
        write_size = left;
        n = if all_written then s.n + s.read_n else s.n;
        calls =
            if all_written
            then s.calls ++ (call_all read_counters s.read_n ++ call_all write_counters s.read_n)
            else s.calls;
        sent = s.sent ++ take size' s.pipe.held;
      }
  write_answer (fails err) s = record s {
    doing =
        if is_exactly err eagain then writing else finished true (some (cause err "splice write"));
  }
  write_answer (gives_up err) s = record s {
    doing = finished true (some (cause err "splice write"));
  }
  write_answer (moves_in chunk) s = s

  -- One answer, to whatever was called; a splice that has returned calls nothing.
  abbrev pub answered : Doing → Answer → Splicing F → Splicing F
  answered reading a s = read_answer a s
  answered writing a s = write_answer a s
  answered (finished handed err) a s = s

  -- splice on a pipe, as far as the answers go.
  unfoldable pub splice_on : List Answer → Splicing F → Splicing F
  splice_on [] s = s
  splice_on (a ∷ answers) s = splice_on answers (answered s.doing a s)

abbrev pub begin_splice : {F : Type 0} → SplicePipe → Splicing F
begin_splice pipe = record {
  doing = reading;
  pipe = pipe;
  read_n = 0;
  write_size = 0;
  n = 0;
  calls = [];
  received = [];
  sent = [];
}

-- splice on what getPipe found: without a pipe it returns at once.
unfoldable pub splice :
    {F : Type 0} → List F → List F → Option SplicePipe → List Answer → Splicing F
unfolding splice_on
splice read_counters write_counters none answers =
    record (begin_splice (record { rfd = 0; wfd = 0; data_field = 0; held = [] })) {
      doing = finished true (some (leaf einval));
    }
splice read_counters write_counters (some pipe) answers =
    splice_on read_counters write_counters answers (begin_splice pipe)

-- putPipe: the pipe that goes back to the pool; none is destroyed.
abbrev pub put_pipe : SplicePipe → Option SplicePipe
put_pipe pipe = if nat_beq pipe.data_field 0 then some pipe else none
