-- ===== src/Buf/Alloc/Tests.antt =====
-- The allocator on concrete inputs.
use qtfra.Common.{ℕ, ◌+◌, ◌*◌, ◌^◌, ◌≤◌, ◌<◌, ◌≡◌, ◌≢◌, List, [], ◌∷◌, none, some, refl, arith}
use qtfra.Common.Lists.{length, replicate}
use qtfra.Common.Outcomes.{returns, panics}
use qtfra.Ex.Error.{leaf, incorrect_size}
use qtfra.Buf.Slice.{Slice}
use qtfra.Buf.Alloc.{Allocator, bit_len, msb, class_size, get_index, get_array, put_array}
use qtfra.Buf.Alloc.Sizes.{get_index_fits}
use qtfra.Buf.Alloc.Safety.{IsStocked, get_array_safe, put_array_cases}

abbrev unused : Allocator
unused = record { buffers = λ index. [] }

unused-IsStocked : IsStocked unused
unused-IsStocked index = tt

-- The source's comment on the pools: 64B to 64K, by powers of two.
indices : (get_index 1 ≡ 0) × (get_index 64 ≡ 0) × (get_index 65 ≡ 1) × (get_index 65536 ≡ 10)
unfolding get_index msb bit_len
indices = (refl, refl, refl, refl)

get_index_fits_example :
    (get_index 100 ≤ 10)
    × (100 ≤ class_size (get_index 100))
    × ((k : ℕ) → k < get_index 100 → class_size k < 100)
    × (64 < 100 → class_size (get_index 100) < 2 * 100)
get_index_fits_example = get_index_fits 100 (omega arith) (omega arith)

get_array_safe_example :
    (s : Slice) × (alloc' : Allocator) × (get_array unused 0 100 ≡ returns (some s, alloc'))
    × (s.len ≡ 100)
    × (length s.arr ≡ class_size (get_index 100))
    × IsStocked alloc'
get_array_safe_example = get_array_safe unused 0 100 unused-IsStocked (omega arith) (omega arith)

abbrev array : List ℕ
array = replicate 16 0

put_array_cases_example :
    ((k : ℕ)
      → 16 ≡ 2 ^ (k + 6)
      → k ≤ 10
      → (alloc' : Allocator) × (put_array unused array ≡ returns (none, alloc'))
        × (alloc'.buffers k ≡ array ∷ unused.buffers k)
        × IsStocked alloc')
    × ((k : ℕ) → 16 ≡ 2 ^ k → k < 6 → put_array unused array ≡ panics)
    × (((k : ℕ) → k ≤ 16 → 16 ≢ 2 ^ k)
        → put_array unused array ≡ returns (some (leaf incorrect_size), unused))
put_array_cases_example = put_array_cases unused array unused-IsStocked
