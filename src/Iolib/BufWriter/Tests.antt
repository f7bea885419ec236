-- ===== src/Iolib/BufWriter/Tests.antt =====
-- A BufWriter over a writer that takes two bytes at most and reports a short write otherwise.
use qtfra.Common.{ℕ, ◌≡◌, List, [], ◌∷◌, ◌++◌, Option, none, some, refl, arith, min, false}
use qtfra.Common.Tests.{leb, if◌then◌else◌}
use qtfra.Common.Lists.{length, take}
use qtfra.Common.Outcomes.{returns}
use qtfra.Ex.Error.{Error, leaf, short_write}
use qtfra.Buf.Buffer.Valid.{IsValid}
use qtfra.Buf.Buffer.Stream.{WriteCall}
use qtfra.Iolib.BufWriter.{BufWriter, write_bytes, write_text, write_one}
use qtfra.Iolib.BufWriter.Ordered.{Honest}
use qtfra.Iolib.BufWriter.Written.{Written, OneWritten}
use qtfra.Iolib.BufWriter.Writes.{write_bytes-Written, write_text-Written, write_one-OneWritten}

narrow : WriteCall (List ℕ)
narrow kept bs = (
  min 2 (length bs),
  (if leb (length bs) 2 then none else some (leaf short_write)),
  kept ++ take (min 2 (length bs)) bs,
)

abbrev all_kept : List ℕ → List ℕ
all_kept kept = kept

narrow-Honest : Honest narrow all_kept
unfolding narrow
narrow-Honest = record {
  write_le = λ s bs. omega arith;
  logs = λ s bs. refl;
  all_or_error = λ s bs e. ground arith;
}

abbrev half_full : BufWriter (List ℕ)
half_full = record {
  underlay = 9 ∷ [];
  buffer = record {
    bytes = some (record { arr = 7 ∷ 8 ∷ 0 ∷ 0 ∷ []; len = 4 });
    size = 4;
    managed = false;
    r = 0;
    w = 2;
    ref = 0;
  };
}

half_full-IsValid : IsValid half_full.buffer
half_full-IsValid = omega arith

write_bytes-Written_example :
    Written narrow all_kept
      (1 ∷ 2 ∷ 3 ∷ [])
      half_full
      (write_bytes narrow 509 (1 ∷ 2 ∷ 3 ∷ []) half_full)
write_bytes-Written_example =
    write_bytes-Written narrow all_kept narrow-Honest 509 half_full (1 ∷ 2 ∷ 3 ∷ [])
      half_full-IsValid (omega arith)

write_text-Written_example :
    Written narrow all_kept
      (1 ∷ 2 ∷ 3 ∷ [])
      half_full
      (write_text narrow 509 (1 ∷ 2 ∷ 3 ∷ []) half_full)
write_text-Written_example =
    write_text-Written narrow all_kept narrow-Honest 509 half_full (1 ∷ 2 ∷ 3 ∷ [])
      half_full-IsValid (omega arith) (omega arith)

write_one-OneWritten_example :
    (err : Option Error) × (after : BufWriter (List ℕ)) × (write_one narrow 509 5 half_full
      ≡ returns (err, after))
    × OneWritten narrow all_kept 5 half_full err after
write_one-OneWritten_example =
    write_one-OneWritten narrow all_kept narrow-Honest 509 half_full 5 half_full-IsValid
      (omega arith)
