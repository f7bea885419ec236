-- ===== src/Iolib/Copy.antt =====
-- enhancements/iolib/copy.go and handshake.go: copying from a reader with caches in front of it. The
-- destination is a writer's state; the counters are called with the bytes, and `calls` is the list of
-- these calls. What copyPure does with a reader and a writer is an argument. The debug flag is off.
pub mod Buffers
pub mod Caches
mod Tests
use qtfra.Common.{
  ℕ, ◌+◌, Bool, true, false, not, List, [], ◌∷◌, ◌++◌, Option, none, some, String, map,
}
use qtfra.Common.Tests.{if◌then◌else◌, ltb}
use qtfra.Common.Lists.{length}
use qtfra.Common.Outcomes.{Outcome, returns, ◌>>=◌}
use qtfra.Ex.Error.{Error, eof, cause, is_multi}
use qtfra.Buf.Alloc.{Allocator}
use qtfra.Buf.Buffer.{Buffer, default_size, new_size, free, free_bytes, bytes_of}
use qtfra.Buf.Buffer.Stream.{ReadCall, WriteCall, store_chunk, write_to}
use qtfra.Iolib.Cache.{Reader, ReadCache, read_reader, pick_reader_cache_list}
use qtfra.Iolib.Counter.{Stack, unwrap_read_counter, unwrap_writer_counter}

-- NeedHandshake, Handshaker and HandshakeBuffer, by what the destination is and says.
pub data Handshake (W : Type 0) : Type 0 where
  not_needed : Handshake W
  handshaker : (W → Option Error × W) → Handshake W
  buffer_handshaker : (W → List ℕ → ℕ × Option Error × W) → Handshake W

-- What copyEarly and the copies return, with the state after them.
pub record Copied (F R W : Type 0) : Type 0 where
  pub n : ℕ
  pub err : Option Error
  pub source : Reader R
  pub destination : W
  pub calls : List (F × ℕ)
  pub alloc : Allocator

module _ {F : Type 0} where
  -- `for _, c := range counters { c(n) }`
  abbrev pub call_all : List F → ℕ → List (F × ℕ)
  call_all counters n = map (λ c. (c, n)) counters

-- `buffer.Free()` for each buffer, with the allocator.
unfoldable pub free_all : Allocator → List Buffer → Outcome Allocator
free_all alloc [] = returns alloc
free_all alloc (b ∷ buffers) = do freed ← free alloc b; free_all freed.1 buffers

module _ {F R W : Type 0} (write_call : WriteCall W) (fuel : ℕ)
    (read_counters write_counters : List F) where
  -- The loop over the caches, and the deferred Free of those that it leaves. After an error the first
  -- one is freed twice.
  unfoldable pub write_buffers :
      ℕ → Reader R → W → List (F × ℕ) → Allocator → List Buffer → Outcome (Copied F R W)
  write_buffers n source w calls alloc [] =
      returns (record {
        n = n;
        err = none;
        source = source;
        destination = w;
        calls = calls;
        alloc = alloc;
      })
  write_buffers n source w calls alloc (b ∷ buffers) = do
    to ← write_to write_call fuel b w
    freed ← free alloc to.2
    elim to.1 [
      | some err ↦ (do
        alloc' ← free_all freed.1 (freed.0 ∷ buffers)
        returns (record {
          n = n + to.0;
          err = some (cause err "writeCache");
          source = source;
          destination = to.3;
          calls = calls;
          alloc = alloc';
        }))
      | none ↦
          write_buffers (n + to.0) source to.3
            (calls ++ (call_all read_counters to.0 ++ call_all write_counters to.0)) freed.1 buffers
    ]

  module _ (read_call : ReadCall R) (read_cache : ReadCache R) (picks : ℕ) where
    -- The result of a handshake that failed: the buffer is freed by then.
    abbrev pub failed :
        ℕ → Error → String → Reader R → W → List (F × ℕ) → Allocator → Outcome (Copied F R W)
    failed n err due source w calls alloc = returns (record {
      n = n;
      err = some (cause err due);
      source = source;
      destination = w;
      calls = calls;
      alloc = alloc;
    })

    -- The caches, after the handshake.
    abbrev pub copy_caches : ℕ → Reader R → W → List (F × ℕ) → Allocator → Outcome (Copied F R W)
    copy_caches n source w calls alloc = do
      (source', buffers) ← pick_reader_cache_list read_cache picks source
      write_buffers n source' w calls alloc buffers

    -- The handshake with the first bytes of the source; ReadFromOnce on the new buffer is one Read.
    -- The deferred Free of its buffer comes when copyEarly returns.
    abbrev pub shake_hands :
        (W → List ℕ → ℕ × Option Error × W) → Reader R → W → Allocator → ℕ → Outcome (Copied F R W)
    shake_hands handshake source w alloc choice = do
      made ← new_size alloc choice default_size
      room ← free_bytes made.0
      got ← read_reader read_call source made.1 (length room)
      let b = store_chunk read_call made.0 (length room) got.0
      let calls = call_all read_counters (length got.0)
      elim got.1 [
        | some err ↦ (do
          freed ← free got.3 b
          failed (length got.0) err "handshake: read" got.2 w calls freed.1)
        | none ↦ (do
          first ← bytes_of b
          let (n, err, w') = handshake w first
          let calls' = calls ++ call_all write_counters n
          elim err [
            | some err' ↦ (do
              freed ← free got.3 b
              failed n err' "handshake: write" got.2 w' calls' freed.1)
            | none ↦ (do
              done ← copy_caches n got.2 w' calls' got.3
              freed ← free done.alloc b
              returns (record done { alloc = freed.1 }))
          ])
      ]

    -- copyEarly
    unfoldable pub copy_early : Handshake W → Reader R → W → Allocator → ℕ → Outcome (Copied F R W)
    copy_early not_needed source w alloc choice = copy_caches 0 source w [] alloc
    copy_early (handshaker handshake) source w alloc choice =
        let (err, w') = handshake w in
        elim err [
          | some err' ↦ failed 0 err' "handshake" source w' [] alloc
          | none ↦ copy_caches 0 source w' [] alloc
        ]
    copy_early (buffer_handshaker handshake) source w alloc choice =
        shake_hands handshake source w alloc choice

    module _ (copy_pure : Reader R → W → Allocator → Outcome (Copied F R W)) where
      -- The end of CopyCounters: an end of file, wherever it is in the error, is none.
      abbrev pub ended_at_eof : Option Error → Option Error
      ended_at_eof none = none
      ended_at_eof (some err) =
          if is_multi (some err) (eof ∷ []) then none else some (cause err "copyPure")

      -- CopyCounters
      pub copy_counters : Handshake W → Reader R → W → Allocator → ℕ → Outcome (Copied F R W)
      unfolding copy_early
      copy_counters handshake source w alloc choice = do
        early ← copy_early handshake source w alloc choice
        elim early.err [
          | some err ↦ returns (record early { err = some (cause err "copyEarly") })
          | none ↦ (do
            pure ← copy_pure early.source early.destination early.alloc
            returns (record pure {
              n = early.n + pure.n;
              err = ended_at_eof pure.err;
              calls = early.calls ++ pure.calls;
            }))
        ]

-- copyPure: splice where both sides are connections of the system that give their raw connections, and
-- the generic copy where it does not handle them. `conns` is what SyscallConn gives.
pub copy_pure :
    {F R W C : Type 0}
    → (Reader R → W → Option C)
    → (C → Reader R → W → Allocator → Outcome (Bool × Copied F R W))
    → (Reader R → W → Allocator → Outcome (Copied F R W))
    → Reader R
    → W
    → Allocator
    → Outcome (Copied F R W)
copy_pure conns splice copy_generic source w alloc = elim (conns source w) [
  | none ↦ copy_generic source w alloc
  | some c ↦ (do
    (splice_handed, done) ← splice c source w alloc
    (if splice_handed then returns done else (do
      rest ← copy_generic done.source done.destination done.alloc
      returns (record rest { calls = done.calls ++ rest.calls }))))
]

-- Copy, of what stands below the counters of its source and its destination.
pub copy :
    {F R W : Type 0}
    → (Stack F → Reader R)
    → (Stack F → W)
    → (Stack F → Handshake W)
    → WriteCall W
    → ReadCall R
    → ReadCache R
    → (List F → List F → Reader R → W → Allocator → Outcome (Copied F R W))
    → ℕ
    → Stack F
    → Stack F
    → Allocator
    → ℕ
    → Outcome (Copied F R W)
unfolding copy_counters
copy reader_of writer_of handshake_of write_call read_call read_cache pure fuel destination source
      alloc choice =
    do
      let (source', read_counters) = unwrap_read_counter source
      (destination', write_counters) ← unwrap_writer_counter fuel destination
      copy_counters write_call fuel read_counters write_counters read_call read_cache fuel
          (pure read_counters write_counters) (handshake_of destination') (reader_of source')
          (writer_of destination') alloc choice
