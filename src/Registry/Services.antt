-- ===== src/Registry/Services.antt =====
-- A service that was put in a context is found there.
use qtfra.Common.{
  true, ℕ, zero, suc, ◌≡◌, ◌⊎◌, false, List, [], ◌∷◌, ◌++◌, Option, none, some, refl, sym, ap, ◌∙◌,
  inl, inr, arith,
}
use qtfra.Common.Tests.{Comparable, ◌==◌, if◌then◌else◌, beq_iff, Bool-cases, Option-cases}
use qtfra.Common.Lists.{length, get_elem?, set}
use qtfra.Common.Maps.{lookup, insert, lookup-insert}
use qtfra.Common.Outcomes.{returns, ◌>>=◌}
use qtfra.Registry.{
  Value, Registry, Heap, Context, with_registry, registry_in, new_service_context, or_new,
  service_of, register, get, ask, service_as, with_at, context_from, context_with,
}

module _ {ℓ} {A : Type ℓ} where
  get_elem?-set :
      (xs : List A) (i : ℕ) (v a : A) → get_elem? xs i ≡ some a → get_elem? (set xs i v) i ≡ some v
  get_elem?-set [] i v a e = absurd (ground arith)
  get_elem?-set (x ∷ xs) zero v a e = refl
  get_elem?-set (x ∷ xs) (suc i) v a e = get_elem?-set xs i v a e

  get_elem?-length : (xs : List A) (a : A) → get_elem? (xs ++ a ∷ []) (length xs) ≡ some a
  get_elem?-length [] a = refl
  get_elem?-length (x ∷ xs) a = get_elem?-length xs a

module _ {T P : Type 0} ⦃c : Comparable T⦄ where
  service_of-insert :
      (asked key : T) (service : Option (Value T P)) (services : Registry T P)
      → service_of asked (insert key service services)
        ≡ (if asked == key then service else service_of asked services)
  service_of-insert asked key service services =
      ground (arith, lookup-insert asked key service services)

  get_at :
      (place : ℕ) (asked : T) (heap : Heap T P) (services : Registry T P)
      → get_elem? heap place ≡ some services
      → get place asked heap ≡ returns (service_of asked services)
  unfolding get
  get_at place asked heap services e = ground arith

  -- What a registry that was written to answers.
  register-get :
      (place : ℕ) (key asked : T) (service : Option (Value T P)) (heap : Heap T P)
      (services : Registry T P)
      → get_elem? heap place ≡ some services
      → let heap' = set heap place (insert key service services) in
        (register place key service heap ≡ returns (service_of key services, heap'))
        × (get place asked heap'
            ≡ returns (if asked == key then service else service_of asked services))
  unfolding register
  register-get place key asked service heap services e =
      let there = get_elem?-set heap place (insert key service services) services e in
      (
        ground arith,
        get_at place asked _ (insert key service services) there
            ∙ ap returns (service_of-insert asked key service services),
      )

ptr-differs :
    {T : Type 0} ⦃c : Comparable T⦄ (ptr : T → T) (ptr_only : (a b : T) → ptr a ≡ ptr b → a ≡ b)
    (a b : T)
    → a == b ≡ false
    → ptr a == ptr b ≡ false
ptr-differs ptr ptr_only a b e = ground (arith, beq_iff a b, beq_iff (ptr a) (ptr b), ptr_only a b)

module _ {T P : Type 0} ⦃c : Comparable T⦄ (ptr : T → T) where
  -- The registry that a context carries is one of the heap.
  abbrev pub InHeap : Context → Heap T P → Type 0
  InHeap ctx heap =
      (place : ℕ)
      → registry_in ctx ≡ some place
      → (services : Registry T P) × (get_elem? heap place ≡ some services)

  asks :
      (ctx : Context) (place : ℕ) (t : T) (heap : Heap T P)
      → registry_in ctx ≡ some place
      → context_from ptr (some ctx) t heap ≡ (get place (ptr t) heap >>= service_as t)
  unfolding context_from
  asks ctx place t heap e = ap (λ p. ask (ptr t) t p heap) e

  asks_none :
      (ctx : Context) (t : T) (heap : Heap T P)
      → registry_in ctx ≡ none
      → context_from ptr (some ctx) t heap ≡ returns none
  unfolding context_from
  asks_none ctx t heap e = ap (λ p. ask (ptr t) t p heap) e

  -- What is found after a service was put under its key.
  abbrev pub Found : T → Value T P → Context → Heap T P → Context → Heap T P → Type 0
  Found t v ctx heap ctx' heap' =
      ((asked : T)
        → context_from ptr (some ctx') asked heap' ≡ (
            if asked == t
            then returns (some v.payload)
            else context_from ptr (some ctx) asked heap))
      × ((place : ℕ) × (registry_in ctx' ≡ some place)
          × (get place (ptr t) heap' ≡ returns (some v)))

  module _ (ptr_only : (a b : T) → ptr a ≡ ptr b → a ≡ b) where
    register-Found :
        (t : T) (v : Value T P) (ctx ctx' : Context) (place : ℕ) (heap mid : Heap T P)
        (services : Registry T P)
        → v.dynamic_type ≡ t
        → registry_in ctx' ≡ some place
        → get_elem? mid place ≡ some services
        → ((other : T)
            → (returns (service_of (ptr other) services) >>= service_as other)
              ≡ context_from ptr (some ctx) other heap)
        → Found t v ctx heap ctx' (set mid place (insert (ptr t) (some v) services))
    register-Found t v ctx ctx' place heap mid services same e there before =
        (finds, (place, e, answers t ∙ ground (arith, beq_iff (ptr t) (ptr t))))
      where
        answers :
            (asked : T)
            → get place (ptr asked) (set mid place (insert (ptr t) (some v) services))
              ≡ returns (if ptr asked == ptr t then some v else service_of (ptr asked) services)
        answers asked = (register-get place (ptr t) (ptr asked) (some v) mid services there).1

        finds :
            (asked : T)
            → context_from ptr (some ctx') asked (set mid place (insert (ptr t) (some v) services))
              ≡ (if asked == t
                  then returns (some v.payload)
                  else context_from ptr (some ctx) asked heap)
        finds asked =
            asks ctx' place asked _ e
            ∙ (ap (λ g. g >>= service_as asked) (answers asked) ∙ elim (Bool-cases (asked == t)) [
              | inl here ↦
                  let same_type : asked ≡ t = (beq_iff asked t).0 here in
                  let one : ptr asked == ptr t ≡ true =
                    (beq_iff (ptr asked) (ptr t)).1 (ap ptr same_type) in
                  let fits : v.dynamic_type == asked ≡ true =
                    (beq_iff v.dynamic_type asked).1 (same ∙ sym same_type) in
                  rw (one, here, fits) refl
              | inr differs ↦ rw (ptr-differs ptr ptr_only asked t differs, differs) (before asked)
            ])

    -- ContextWith on a context whose registry is there returns a context in which ContextFrom finds the
    -- service under its type, and everything else as it was before; the context stays the same when it
    -- has a registry, so that every holder of it sees the service. Pointer types of different types must
    -- differ, and the service must have the type it is put under.
    pub context_with-Found :
        (t : T) (v : Value T P) (ctx : Context) (heap : Heap T P)
        → v.dynamic_type ≡ t
        → InHeap ctx heap
        → (ctx' : Context) × (heap' : Heap T P) × (context_with ptr (some ctx) t (some v) heap
            ≡ returns (ctx', heap'))
          × Found t v ctx heap ctx' heap'
          × ((ctx' ≡ ctx) ⊎ (registry_in ctx ≡ none))
    unfolding context_with new_service_context registry_in lookup
    context_with-Found t v ctx heap same there = elim (Option-cases (registry_in ctx)) [
      | inr (place, e) ↦
          let (services, e') = there place e in
          (
            ctx,
            set heap place (insert (ptr t) (some v) services),
            ap (λ p. with_at ptr ctx t (some v) p heap) e
                ∙ ap (λ m. m >>= λ done. returns (ctx, done.1))
                    (register-get place (ptr t) t (some v) heap services e').0,
            register-Found t v ctx ctx place heap heap services same e e' (λ other. sym (
                asks ctx place other heap e
                ∙ ap (λ g. g >>= service_as other) (get_at place (ptr other) heap services e'))),
            inl refl,
          )
      | inl e ↦
          let place = length heap in
          let mid = heap ++ [] ∷ [] in
          let ctx' = with_registry place ctx in
          let empty = get_elem?-length heap [] in
          (
            ctx',
            set mid place (insert (ptr t) (some v) []),
            ap (λ p. with_at ptr ctx t (some v) p heap) e
                ∙ (ap
                      (λ p.
                        let (ctx', place, heap') = or_new ctx p heap in
                        register place (ptr t) (some v) heap' >>= λ done. returns (ctx', done.1))
                      e
                    ∙ ap (λ m. m >>= λ done. returns (ctx', done.1))
                        (register-get place (ptr t) t (some v) mid [] empty).0),
            register-Found t v ctx ctx' place heap mid [] same refl empty
                (λ other. sym (asks_none ctx other heap e)),
            inr e,
          )
    ]
