-- ===== src/Iolib/Cache/Losses.antt =====
-- A cached reader with nothing behind its cache.
use qtfra.Common.{ℕ, ◌<◌, ◌≡◌, false, [], some, refl, arith}
use qtfra.Common.Tests.{nat_beq}
use qtfra.Common.Lists.{length, take, length-take}
use qtfra.Common.Outcomes.{returns}
use qtfra.Ex.Error.{leaf, eof}
use qtfra.Buf.Alloc.{Allocator}
use qtfra.Buf.Alloc.Safety.{IsStocked}
use qtfra.Buf.Buffer.{Buffer}
use qtfra.Buf.Buffer.Valid.{IsValid, contents}
use qtfra.Buf.Buffer.Lifecycle.{IsReturnable}
use qtfra.Buf.Buffer.Stream.{ReadCall}
use qtfra.Iolib.Cache.{absent, cached, read_reader}
use qtfra.Iolib.Cache.Reads.{take_cached-Took, Took-all}

module _ {R : Type 0} (read_call : ReadCall R) where
  -- Read into a slice that has more room than there are cached bytes, with a nil reader behind the
  -- cache, reports an end of file and no bytes, and the cached bytes are gone.
  pub read_reader-absent :
      (alloc : Allocator) (k : ℕ) (b : Buffer)
      → IsStocked alloc
      → IsValid b
      → IsReturnable b
      → b.r < b.w
      → length (contents b) < k
      → (b' : Buffer) × (alloc' : Allocator) × (read_reader read_call
            (cached absent (some b))
            alloc
            k
          ≡ returns ([], some (leaf eof), cached absent (some b'), alloc'))
        × (contents b' ≡ [])
  unfolding read_reader
  read_reader-absent alloc k b s v ret lt room =
      let more : nat_beq b.r b.w ≡ false = ground arith in
      let t = take_cached-Took alloc k b s v ret more in
      let n = length-take k (contents b) in
      let short : nat_beq (length (take k (contents b))) k ≡ false = ground arith in
      (t.after, t.alloc_after, rw (more, t.returned, short) refl, Took-all t short)
