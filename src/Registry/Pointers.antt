-- ===== src/Registry/Pointers.antt =====
-- ContextFromPtr looks under the key that ContextWith writes, and asserts another type.
use qtfra.Common.{◌≡◌, false, some, ap, ◌∙◌, arith}
use qtfra.Common.Tests.{Comparable, ◌==◌}
use qtfra.Common.Outcomes.{panics, ◌>>=◌}
use qtfra.Registry.{Value, Heap, Context, ask, service_as, context_with, context_from_ptr}
use qtfra.Registry.Services.{InHeap, context_with-Found}

module _ {T P : Type 0} ⦃c : Comparable T⦄ (ptr : T → T) where
  -- A service of a type that ContextWith has just put in a context makes ContextFromPtr for the same
  -- type panic on the context that ContextWith returned, since a value is not a pointer to it; the
  -- registry of the context must be there, and pointer types of different types must differ.
  pub context_with-context_from_ptr :
      (ptr_only : (a b : T) → ptr a ≡ ptr b → a ≡ b) (t : T) (v : Value T P) (ctx : Context)
      (heap : Heap T P)
      → v.dynamic_type ≡ t
      → t == ptr t ≡ false
      → InHeap ptr ctx heap
      → (context_with ptr (some ctx) t (some v) heap >>= λ done.
          context_from_ptr ptr (some done.0) t done.1)
        ≡ panics
  unfolding context_from_ptr
  context_with-context_from_ptr ptr_only t v ctx heap same differs there =
      let (ctx', heap', e, (_, (place, e', stored)), _) =
        context_with-Found ptr ptr_only t v ctx heap same there in
      let wrong : v.dynamic_type == ptr t ≡ false = rw same differs in
      ap (λ m. m >>= λ done. context_from_ptr ptr (some done.0) t done.1) e
      ∙ (ap (λ p. ask (ptr t) (ptr t) p heap') e'
          ∙ (ap (λ g. g >>= service_as (ptr t)) stored ∙ ground arith))
