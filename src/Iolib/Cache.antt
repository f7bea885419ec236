-- ===== src/Iolib/Cache.antt =====
-- enhancements/iolib/cache.go: readers with bytes in front of them. A reader is `plain` where it comes
-- from outside, `absent` where it is nil, or a BufCachedReader over another one. A Read returns the
-- bytes that it put into the slice, as many as it counts.
pub mod Lists
pub mod Reads
pub mod Losses
mod Tests
use qtfra.Common.{
  ℕ, zero, suc, ◌+◌, ◌-◌, Bool, true, false, List, [], ◌∷◌, ◌++◌, Option, none, some,
}
use qtfra.Common.Tests.{nat_beq, if◌then◌else◌}
use qtfra.Common.Lists.{length}
use qtfra.Common.Outcomes.{Outcome, returns, panics, runs_on, ◌>>=◌}
use qtfra.Ex.Error.{Error, leaf, eof}
use qtfra.Buf.Alloc.{Allocator}
use qtfra.Buf.Buffer
use qtfra.Buf.Buffer.{Buffer, is_empty, inc_ref, dec_ref, free}
use qtfra.Buf.Buffer.Stream.{ReadCall}

pub data Reader (R : Type 0) : Type 0 where
  absent : Reader R
  plain : R → Reader R
  cached : Reader R → Option Buffer → Reader R

-- What a Read returns: the bytes, an error, the reader after it, and the allocator.
abbrev pub ReadResult : Type 0 → Type 0
ReadResult R = Outcome (List ℕ × Option Error × Reader R × Allocator)

-- Whether Read ends with the buffer: the slice is full, or the buffer reported an error.
abbrev pub is_enough : ℕ → ℕ → Option Error → Bool
is_enough offset k (some err) = true
is_enough offset k none = nat_beq offset k

-- The part of Read that takes from the buffer, and frees it when it is empty then.
unfoldable pub take_cached :
    Allocator → ℕ → Buffer → Outcome (List ℕ × Option Error × Buffer × Allocator)
take_cached alloc k b = do
  got ← Buffer.read k b
  (if is_empty got.1
      then (do freed ← free alloc (dec_ref got.1); returns (got.0.0, got.0.1, freed.0, freed.1))
      else returns (got.0.0, got.0.1, got.1, alloc))

-- What ReadCache of a reader from outside returns, if the reader is a CacheReader.
abbrev pub ReadCache : Type 0 → Type 0
ReadCache R = R → Option (Reader R × Option Buffer)

module _ {R : Type 0} where
  -- The rest of a round of PickReaderCacheList, with what was picked, the rounds after it, and the
  -- buffers found so far.
  abbrev pub pick_next :
      Reader R
      → (List Buffer → Outcome (Reader R × List Buffer))
      → Option Buffer
      → List Buffer
      → Outcome (Reader R × List Buffer)
  pick_next r' again none buffers = returns (r', buffers)
  pick_next r' again (some b) buffers =
      if is_empty b then again buffers else again (buffers ++ b ∷ [])

module _ {R : Type 0} (read_cache : ReadCache R) where
  -- PickReaderCache, with ReadCache of a BufCachedReader: what is left of the reader, and its buffer.
  abbrev pub pick_reader_cache : Reader R → Reader R × Option Buffer
  pick_reader_cache absent = (absent, none)
  pick_reader_cache (plain s) = elim (read_cache s) [ none ↦ (plain s, none) | some found ↦ found ]
  pick_reader_cache (cached r none) = (r, none)
  pick_reader_cache (cached r (some b)) = (r, some (dec_ref b))

  -- The loop of PickReaderCacheList, with the buffers found so far. It takes fuel, since a reader from
  -- outside may go on for ever.
  unfoldable pub pick_list_loop : ℕ → Reader R → List Buffer → Outcome (Reader R × List Buffer)
  pick_list_loop zero r buffers = runs_on
  pick_list_loop (suc fuel) r buffers =
      let (r', buffer) = pick_reader_cache r in pick_next r' (pick_list_loop fuel r') buffer buffers

  -- PickReaderCacheList
  unfoldable pub pick_reader_cache_list : ℕ → Reader R → Outcome (Reader R × List Buffer)
  unfolding pick_list_loop
  pick_reader_cache_list fuel r = pick_list_loop fuel r []

module _ {R : Type 0} where
  -- NewCacheReader
  abbrev pub new_cache_reader : Reader R → Buffer → Reader R
  new_cache_reader r b = if is_empty b then r else cached r (some (inc_ref b))

  -- NewCacheReaderList, whose loop goes from the last buffer to the first.
  abbrev pub new_cache_reader_list : Reader R → List Buffer → Reader R
  new_cache_reader_list r [] = r
  new_cache_reader_list r (b ∷ buffers) = new_cache_reader (new_cache_reader_list r buffers) b

  -- The end of Read: the inner reader gets what is left of the slice. A nil one makes it an end of file
  -- with no bytes.
  abbrev pub read_rest :
      (Allocator → ℕ → ReadResult R)
      → Reader R
      → Option Buffer
      → List ℕ
      → Allocator
      → ℕ
      → ReadResult R
  read_rest rest absent d front alloc k = returns ([], some (leaf eof), cached absent d, alloc)
  read_rest rest _ d front alloc k = do
    got ← rest alloc (k - length front)
    returns (front ++ got.0, got.1, cached got.2 d, got.3)

  module _ (read_call : ReadCall R) where
    -- (*BufCachedReader).Read, and the Read of the readers around it.
    unfoldable pub read_reader : Reader R → Allocator → ℕ → ReadResult R
    read_reader absent alloc k = panics
    read_reader (plain s) alloc k =
        let (chunk, err, s') = read_call s k in returns (chunk, err, plain s', alloc)
    read_reader (cached r none) alloc k = read_rest (read_reader r) r none [] alloc k
    read_reader (cached r (some b)) alloc k =
        let rest = read_reader r in
        if is_empty b then read_rest rest r (some b) [] alloc k else (do
          got ← take_cached alloc k b
          (if is_enough (length got.0) k got.1
              then returns (got.0, got.1, cached r (some got.2), got.3)
              else read_rest rest r (some got.2) got.0 got.3 k))
