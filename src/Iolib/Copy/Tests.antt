-- ===== src/Iolib/Copy/Tests.antt =====
-- A source with two caches of two bytes, and a writer that takes a first write whole, and then one byte
-- of each with an error.
use qtfra.Common.{
  ℕ, ◌≡◌, ◌≤◌, Bool, true, List, [], ◌∷◌, ◌++◌, none, some, refl, sym, ap, arith, false,
}
use qtfra.Common.Lists.{length, take, take_all, length-take}
use qtfra.Ex.Error.{leaf, eof, short_write}
use qtfra.Buf.Alloc.{Allocator}
use qtfra.Buf.Alloc.Safety.{IsStocked}
use qtfra.Common.Outcomes.{returns}
use qtfra.Buf.Buffer.{Buffer, dec_ref}
use qtfra.Buf.Buffer.Stream.{ReadCall, WriteCall}
use qtfra.Iolib.Cache.{Reader, ReadCache, plain, cached, pick_reader_cache_list}
use qtfra.Iolib.BufWriter.Ordered.{Honest}
use qtfra.Iolib.Copy.{copy_early, not_needed}
use qtfra.Iolib.Copy.Buffers.{BuffersSent, copy_early-BuffersSent}

one_whole : WriteCall (List ℕ × Bool)
one_whole (kept, true) bs = (length bs, none, (kept ++ bs, false))
one_whole (kept, false) bs =
    (length (take 1 bs), some (leaf short_write), (kept ++ take 1 bs, false))

abbrev written : List ℕ × Bool → List ℕ
written s = s.0

take_first : (bs : List ℕ) → take (length (take 1 bs)) bs ≡ take 1 bs
take_first [] = refl
take_first (b ∷ bs) = refl

one_whole_le : (s : List ℕ × Bool) (bs : List ℕ) → (one_whole s bs).0 ≤ length bs
unfolding one_whole
one_whole_le (kept, true) bs = omega arith
one_whole_le (kept, false) bs = omega (arith, length-take 1 bs)

one_whole_logs :
    (s : List ℕ × Bool) (bs : List ℕ)
    → written (one_whole s bs).2 ≡ written s ++ take (one_whole s bs).0 bs
unfolding one_whole
one_whole_logs (kept, true) bs = ap (◌++◌ kept) (sym (take_all (length bs) bs (omega arith)))
one_whole_logs (kept, false) bs = ap (◌++◌ kept) (sym (take_first bs))

one_whole_all :
    (s : List ℕ × Bool) (bs : List ℕ) → (one_whole s bs).1 ≡ none → (one_whole s bs).0 ≡ length bs
unfolding one_whole
one_whole_all (kept, true) bs e = refl
one_whole_all (kept, false) bs e = absurd (ground arith)

one_whole-Honest : Honest one_whole written
one_whole-Honest = record {
  write_le = one_whole_le;
  logs = one_whole_logs;
  all_or_error = one_whole_all;
}

ends_now : ReadCall ℕ
ends_now s k = ([], some (leaf eof), s)

abbrev cache : Buffer
cache = record {
  bytes = some (record { arr = 7 ∷ 8 ∷ 0 ∷ 0 ∷ []; len = 4 });
  size = 4;
  managed = false;
  r = 0;
  w = 2;
  ref = 1;
}

abbrev second : Buffer
second = record cache { r = 1; w = 3 }

abbrev source : Reader ℕ
source = cached (cached (plain 0) (some second)) (some cache)

no_caches : ReadCache ℕ
no_caches s = none

abbrev no_pools : Allocator
no_pools = record { buffers = λ index. [] }

no_pools-IsStocked : IsStocked no_pools
no_pools-IsStocked index = tt

abbrev of_reader : List ℕ
of_reader = 1 ∷ []

abbrev of_writer : List ℕ
of_writer = 2 ∷ []

source-picked :
    pick_reader_cache_list no_caches 3 source
    ≡ returns (plain 0, dec_ref cache ∷ dec_ref second ∷ [])
unfolding no_caches pick_reader_cache_list dec_ref
source-picked = refl

-- The second write is cut short.
copy_early-BuffersSent_example :
    BuffersSent one_whole written of_reader of_writer 400 0
      (plain 0)
      ([], true)
      []
      (dec_ref cache ∷ dec_ref second ∷ [])
      (copy_early one_whole 400 of_reader of_writer ends_now no_caches 3 not_needed source
        ([], true)
        no_pools
        0)
unfolding dec_ref
copy_early-BuffersSent_example =
    copy_early-BuffersSent one_whole written of_reader of_writer one_whole-Honest 400 ends_now
      no_caches 3 source (plain 0) (dec_ref cache ∷ dec_ref second ∷ []) ([], true) no_pools 0
      source-picked no_pools-IsStocked
      (
        (record {
          valid = omega arith;
          some_bytes = omega arith;
          returnable = tt;
          enough = omega arith;
        }),
        (
          (record {
            valid = omega arith;
            some_bytes = omega arith;
            returnable = tt;
            enough = omega arith;
          }),
          tt,
        ),
      )
