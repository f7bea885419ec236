-- ===== src/Registry/Tests.antt =====
-- Two registries, and types numbered so that the pointer to a type is odd.
use qtfra.Common.{ℕ, zero, suc, ◌+◌, ◌*◌, ◌≡◌, ◌⊎◌, [], ◌∷◌, none, some, refl, arith}
use qtfra.Common.Tests.{nat_comparable}
use qtfra.Common.Outcomes.{returns, panics, ◌>>=◌}
use qtfra.Registry.{
  Value, Heap, Context, background, with_registry, registry_in, context_with, context_from_ptr,
}
use qtfra.Registry.Services.{InHeap, Found, context_with-Found}
use qtfra.Registry.Pointers.{context_with-context_from_ptr}

abbrev pointer : ℕ → ℕ
pointer t = t * 2 + 1

pointer_only : (a b : ℕ) → pointer a ≡ pointer b → a ≡ b
pointer_only a b e = omega arith

abbrev answer : Value ℕ ℕ
answer = record { dynamic_type = 4; payload = 42 }

abbrev old_heap : Heap ℕ ℕ
old_heap = [] ∷ ((13, some (record { dynamic_type = 6; payload = 60 })) ∷ []) ∷ []

abbrev ctx : Context
ctx = with_registry 1 background

ctx-InHeap : InHeap pointer ctx old_heap
unfolding registry_in
ctx-InHeap zero e = ([], refl)
ctx-InHeap (suc zero) e = ((13, some (record { dynamic_type = 6; payload = 60 })) ∷ [], refl)
ctx-InHeap (suc (suc place)) e = absurd (ground arith)

context_with-Found_example :
    (ctx' : Context) × (heap' : Heap ℕ ℕ) × (context_with pointer
        (some ctx)
        4
        (some answer)
        old_heap
      ≡ returns (ctx', heap'))
    × Found pointer 4 answer ctx old_heap ctx' heap'
    × ((ctx' ≡ ctx) ⊎ (registry_in ctx ≡ none))
context_with-Found_example =
    context_with-Found pointer pointer_only 4 answer ctx old_heap refl ctx-InHeap

context_with-context_from_ptr_example :
    (context_with pointer (some ctx) 4 (some answer) old_heap >>= λ done.
    context_from_ptr pointer (some done.0) 4 done.1)
    ≡ panics
context_with-context_from_ptr_example =
    context_with-context_from_ptr pointer pointer_only 4 answer ctx old_heap refl refl ctx-InHeap
