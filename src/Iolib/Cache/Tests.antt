-- ===== src/Iolib/Cache/Tests.antt =====
-- Caches in front of a list of bytes.
use qtfra.Common.{ℕ, ◌≡◌, List, [], ◌∷◌, none, some, sym, arith, inl, false, refl, ◌++◌}
use qtfra.Common.Lists.{take, drop, length-take, take-append-drop}
use qtfra.Common.Outcomes.{returns}
use qtfra.Ex.Error.{leaf, eof}
use qtfra.Buf.Alloc.{Allocator}
use qtfra.Buf.Alloc.Safety.{IsStocked}
use qtfra.Buf.Buffer.{Buffer}
use qtfra.Buf.Buffer.Valid.{IsValid, contents}
use qtfra.Buf.Buffer.Stream.{ReadCall}
use qtfra.Iolib.Cache.{
  Reader, ReadCache, absent, plain, cached, read_reader, pick_reader_cache_list,
  new_cache_reader_list,
}
use qtfra.Iolib.Cache.Lists.{not_empty, pick_reader_cache_list-new_cache_reader_list}
use qtfra.Iolib.Cache.Reads.{Faithful, Gave, read_reader-Gave}
use qtfra.Iolib.Cache.Losses.{read_reader-absent}

from_list : ReadCall (List ℕ)
from_list s k = (take k s, none, drop k s)

abbrev the_list : List ℕ → List ℕ
the_list s = s

from_list-Faithful : Faithful from_list the_list
unfolding from_list
from_list-Faithful = record {
  read_le = λ s k. omega (arith, length-take k s);
  gives_first = λ s k. sym (take-append-drop k s);
}

abbrev ending : Reader (List ℕ)
ending = plain (1 ∷ [])

abbrev no_arrays : Allocator
no_arrays = record { buffers = λ index. [] }

no_arrays-IsStocked : IsStocked no_arrays
no_arrays-IsStocked index = tt

abbrev two_bytes : Buffer
two_bytes = record {
  bytes = some (record { arr = 7 ∷ 8 ∷ 0 ∷ []; len = 3 });
  size = 3;
  managed = false;
  r = 0;
  w = 2;
  ref = 1;
}

abbrev spent : Buffer
spent = record two_bytes { r = 2 }

two_bytes-IsValid : IsValid two_bytes
two_bytes-IsValid = omega arith

read_reader-Gave_example :
    Gave from_list the_list 4
      (cached (plain (1 ∷ 2 ∷ 3 ∷ [])) (some two_bytes))
      (read_reader from_list (cached (plain (1 ∷ 2 ∷ 3 ∷ [])) (some two_bytes)) no_arrays 4)
read_reader-Gave_example =
    read_reader-Gave from_list the_list from_list-Faithful
      (cached (plain (1 ∷ 2 ∷ 3 ∷ [])) (some two_bytes)) no_arrays 4
      (inl (two_bytes-IsValid, tt), tt) no_arrays-IsStocked

-- A reader from outside that is a CacheReader while its list is not empty.
has_two : ReadCache (List ℕ)
has_two [] = none
has_two (n ∷ s) = some (plain s, some two_bytes)

ending-picked : pick_reader_cache_list has_two 2 ending ≡ returns (plain [], two_bytes ∷ [])
unfolding has_two pick_reader_cache_list
ending-picked = refl

pick_reader_cache_list-new_cache_reader_list_example :
    pick_reader_cache_list has_two 4
      (new_cache_reader_list ending (two_bytes ∷ spent ∷ two_bytes ∷ []))
    ≡ returns (plain [], not_empty (two_bytes ∷ spent ∷ two_bytes ∷ []) ++ two_bytes ∷ [])
pick_reader_cache_list-new_cache_reader_list_example =
    pick_reader_cache_list-new_cache_reader_list has_two 2 ending (plain [])
      (two_bytes ∷ spent ∷ two_bytes ∷ []) (two_bytes ∷ [])
      (omega arith, (omega arith, (omega arith, tt))) ending-picked

read_reader-absent_example :
    (b' : Buffer) × (alloc' : Allocator) × (read_reader from_list
        (cached absent (some two_bytes))
        no_arrays
        4
      ≡ returns ([], some (leaf eof), cached absent (some b'), alloc'))
    × (contents b' ≡ [])
read_reader-absent_example =
    read_reader-absent from_list no_arrays 4 two_bytes no_arrays-IsStocked two_bytes-IsValid tt
      (omega arith) (omega arith)
