-- ===== src/Buf/Pool/Tests.antt =====
-- A pool of buffers of a hundred bytes.
use qtfra.Common.{ℕ, ◌<◌, ◌≡◌, ◌⊎◌, true, [], arith}
use qtfra.Common.Words.{is_neg}
use qtfra.Common.Lists.{length, replicate}
use qtfra.Common.Outcomes.{returns, panics}
use qtfra.Buf.Alloc.{Allocator}
use qtfra.Buf.Alloc.Safety.{IsStocked}
use qtfra.Buf.Buffer.{Buffer}
use qtfra.Buf.Buffer.Valid.{IsValid, contents}
use qtfra.Buf.Pool.{Pool, get_size}
use qtfra.Buf.Pool.Sizes.{pool_of, get_size_cases}

abbrev bare : Allocator
bare = record { buffers = λ index. [] }

bare-IsStocked : IsStocked bare
bare-IsStocked index = tt

abbrev asked : ℕ
asked = 120

abbrev hundred : ℕ
hundred = 100

get_size_cases_example :
    ((asked ≡ hundred)
      × (b : Buffer) × (p' : Pool) × (alloc' : Allocator) × (get_size asked
            (pool_of hundred [])
            bare
            0
            0
          ≡ returns (b, p', alloc'))
      × IsValid b
      × (length (contents b) ≡ 0)
      × (b.size ≡ asked))
    ⊎ (((hundred < asked) ⊎ (is_neg asked ≡ true))
        × (get_size asked (pool_of hundred []) bare 0 0 ≡ panics))
    ⊎ ((asked < hundred)
        × (b : Buffer) × (get_size asked (pool_of hundred []) bare 0 0
            ≡ returns (b, pool_of hundred [], bare))
        × (contents b ≡ replicate asked 0))
get_size_cases_example =
    get_size_cases asked hundred [] bare 0 0 bare-IsStocked (omega arith) (omega arith) tt
