-- ===== src/Registry.antt =====
-- registry/context.go. A registry is shared by reference: registries stand in a heap, and a context
-- carries the place of one. A key is a nil pointer of a type: it is the pointer's type here, `ptr T`
-- for *T. A service is a value with its dynamic type, or nil. The mutex makes each method one step.
pub mod Services
pub mod Pointers
mod Tests
use qtfra.Common.{ℕ, ◌≡◌, Bool, true, false, List, [], ◌∷◌, ◌++◌, Option, none, some}
use qtfra.Common.Tests.{Comparable, ◌==◌, if◌then◌else◌}
use qtfra.Common.Lists.{length, get_elem?, set}
use qtfra.Common.Maps.{lookup, insert}
use qtfra.Common.Outcomes.{Outcome, returns, panics, ◌>>=◌}

-- A value in an `any` that is not nil.
pub record Value (T P : Type 0) : Type 0 where
  pub dynamic_type : T
  pub payload : P

-- serviceTypes
abbrev pub Registry : Type 0 → Type 0 → Type 0
Registry T P = List (T × Option (Value T P))

abbrev pub Heap : Type 0 → Type 0 → Type 0
Heap T P = List (Registry T P)

-- A context.Context, as far as ctx.Value looks: what the package put in, and what others did.
pub data Context : Type 0 where
  background : Context
  with_registry : ℕ → Context → Context
  with_other : Context → Context

-- `ctx.Value(values.Zero[*Registry]())`
unfoldable pub registry_in : Context → Option ℕ
registry_in background = none
registry_in (with_registry place ctx) = some place
registry_in (with_other ctx) = registry_in ctx

-- FromContext: a nil context has no methods.
abbrev pub from_context : Option Context → Outcome (Option ℕ)
from_context none = panics
from_context (some ctx) = returns (registry_in ctx)

module _ {T P : Type 0} where
  -- NewRegistry
  abbrev pub new_registry : Heap T P → ℕ × Heap T P
  new_registry heap = (length heap, heap ++ [] ∷ [])

  -- The second half of NewServiceContext.
  abbrev pub or_new : Context → Option ℕ → Heap T P → Context × ℕ × Heap T P
  or_new ctx (some place) heap = (ctx, place, heap)
  or_new ctx none heap =
      let (place, heap') = new_registry heap in (with_registry place ctx, place, heap')

  -- NewServiceContext
  unfoldable pub new_service_context : Option Context → Heap T P → Context × ℕ × Heap T P
  new_service_context none heap = or_new background none heap
  new_service_context (some ctx) heap = or_new ctx (registry_in ctx) heap

module _ {T P : Type 0} ⦃c : Comparable T⦄ where
  -- `r.serviceTypes[serviceType]`, nil where there is none.
  abbrev pub service_of : T → Registry T P → Option (Value T P)
  service_of key services = elim (lookup key services) [ none ↦ none | some service ↦ service ]

  -- (*defaultRegistry).Register, of the registry at a place.
  unfoldable pub register :
      ℕ → T → Option (Value T P) → Heap T P → Outcome (Option (Value T P) × Heap T P)
  register place key service heap = elim (get_elem? heap place) [
    | none ↦ panics
    | some services ↦
        returns (service_of key services, set heap place (insert key service services))
  ]

  -- (*defaultRegistry).Get
  unfoldable pub get : ℕ → T → Heap T P → Outcome (Option (Value T P))
  get place key heap = elim (get_elem? heap place) [
    | none ↦ panics
    | some services ↦ returns (service_of key services)
  ]

  -- `v.(T)`
  abbrev pub assert_type : T → Value T P → Outcome P
  assert_type t v = if v.dynamic_type == t then returns v.payload else panics

  -- What is made of the service that Get returned: none for a nil one.
  abbrev pub service_as : T → Option (Value T P) → Outcome (Option P)
  service_as t none = returns none
  service_as t (some v) = assert_type t v >>= λ p. returns (some p)

  -- The lookup of a service by its key, and the assertion of its type.
  abbrev pub ask : T → T → Option ℕ → Heap T P → Outcome (Option P)
  ask key t none heap = returns none
  ask key t (some place) heap = get place key heap >>= service_as t

  module _ (ptr : T → T) where
    -- ContextFrom, none for `(zero, false)`.
    unfoldable pub context_from : Option Context → T → Heap T P → Outcome (Option P)
    context_from ctx t heap = from_context ctx >>= λ place. ask (ptr t) t place heap

    -- ContextFromPtr, none for nil.
    unfoldable pub context_from_ptr : Option Context → T → Heap T P → Outcome (Option P)
    context_from_ptr ctx t heap = from_context ctx >>= λ place. ask (ptr t) (ptr t) place heap

    -- What follows FromContext in ContextWith.
    abbrev pub with_at :
        Context → T → Option (Value T P) → Option ℕ → Heap T P → Outcome (Context × Heap T P)
    with_at ctx t v (some place) heap =
        register place (ptr t) v heap >>= λ done. returns (ctx, done.1)
    with_at ctx t v none heap =
        let (ctx', place, heap') = new_service_context (some ctx) heap in
        register place (ptr t) v heap' >>= λ done. returns (ctx', done.1)

    -- ContextWith
    unfoldable pub context_with :
        Option Context → T → Option (Value T P) → Heap T P → Outcome (Context × Heap T P)
    context_with none t v heap = panics
    context_with (some ctx) t v heap = with_at ctx t v (registry_in ctx) heap

    -- What follows FromContext in MustContextWith.
    abbrev pub must_at : T → Option (Value T P) → Option ℕ → Heap T P → Outcome (Heap T P)
    must_at t v none heap = panics
    must_at t v (some place) heap = register place (ptr t) v heap >>= λ done. returns done.1

    -- MustContextWith
    unfoldable pub must_context_with :
        Option Context → T → Option (Value T P) → Heap T P → Outcome (Heap T P)
    must_context_with ctx t v heap = from_context ctx >>= λ place. must_at t v place heap
