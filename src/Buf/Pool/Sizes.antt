-- ===== src/Buf/Pool/Sizes.antt =====
-- What GetSize returns for sizes below, at and above the pool's.
use qtfra.Common.{
  ℕ, zero, suc, ◌-◌, ◌≤◌, ◌<◌, ◌≡◌, ◌⊎◌, true, false, List, [], ◌∷◌, Option, none, some, refl, ap,
  ◌∙◌, inl, inr, arith,
}
use qtfra.Common.Tests.{Bool-cases, ltb, leb}
use qtfra.Common.Lists.{length, take, replicate, take_all, length-replicate}
use qtfra.Common.Words.{max_int, word_mod, is_neg, lt_int}
use qtfra.Common.Outcomes.{returns, panics, ◌>>=◌}
use qtfra.Buf.Slice.{len_of, make_limit}
use qtfra.Buf.Alloc.{Allocator}
use qtfra.Buf.Alloc.Safety.{IsStocked}
use qtfra.Buf.Buffer.{Buffer, as_buffer, reset}
use qtfra.Buf.Buffer.Valid.{IsValid, contents, length-contents}
use qtfra.Buf.Buffer.Lifecycle.{new_size-IsFresh}
use qtfra.Buf.Buffer.Resizing.{resize_cases}
use qtfra.Buf.Pool.{Pool, max_buffer_size, pick, reset_or_new, get, get_size}

-- A held buffer is well-formed, and its slice has the pool's size.
abbrev pub AllPooled : ℕ → List Buffer → Type 0
AllPooled size [] = Unit
AllPooled size (b ∷ held) =
    (IsValid b × (b.size ≡ size) × (len_of b.bytes ≡ size)) × AllPooled size held

-- An empty well-formed buffer whose slice has the size.
abbrev pub IsEmptyOf : ℕ → Buffer → Type 0
IsEmptyOf size b = IsValid b × (len_of b.bytes ≡ size) × (b.w ≡ 0) × (b.size ≡ size)

-- What a pool holds, found or not.
abbrev Pooled : ℕ → Option Buffer → Type 0
Pooled size none = Unit
Pooled size (some b) = IsValid b × (b.size ≡ size) × (len_of b.bytes ≡ size)

pick-Pooled :
    (size : ℕ) (held : List Buffer) (place : ℕ)
    → AllPooled size held
    → Pooled size (pick held place).0
pick-Pooled size [] place a = tt
pick-Pooled size (b ∷ held) zero a = a.0
pick-Pooled size (b ∷ held) (suc place) a = pick-Pooled size held place a.1

reset_or_new-IsEmptyOf :
    (found : Option Buffer) (rest : List Buffer) (p : Pool) (alloc : Allocator) (choice : ℕ)
    → IsStocked alloc
    → p.size ≤ make_limit
    → Pooled p.size found
    → (b : Buffer) × (p' : Pool) × (alloc' : Allocator) × (reset_or_new (found, rest) p alloc choice
        ≡ returns (b, p', alloc'))
      × IsEmptyOf p.size b
reset_or_new-IsEmptyOf (some b) rest p alloc choice s fits (v, size, len) =
    (reset b, record p { held = some rest }, alloc, refl, (omega arith, len, refl, size))
reset_or_new-IsEmptyOf none rest p alloc choice s fits a =
    let (b, alloc', e, fresh, _, _) = new_size-IsFresh alloc choice p.size s fits in
    (
      reset b,
      record p { held = some rest },
      alloc',
      ap (λ m. m >>= λ made. returns (reset made.0, record p { held = some rest }, made.1)) e,
      (omega (arith, fresh.valid), fresh.len_is, refl, fresh.size_is),
    )

-- A pool of small buffers.
abbrev pub pool_of : ℕ → List Buffer → Pool
pool_of size held = record { size = size; held = some held }

get-IsEmptyOf :
    (size : ℕ) (held : List Buffer) (alloc : Allocator) (place choice : ℕ)
    → IsStocked alloc
    → size < max_buffer_size
    → AllPooled size held
    → (b : Buffer) × (p' : Pool) × (alloc' : Allocator) × (get
          (pool_of size held)
          alloc
          place
          choice
        ≡ returns (b, p', alloc'))
      × IsEmptyOf size b
unfolding get
get-IsEmptyOf size held alloc place choice s small a =
    let valid : lt_int size max_buffer_size ≡ true = ground arith in
    rw valid (
      reset_or_new-IsEmptyOf (pick held place).0 (pick held place).1 (pool_of size held) alloc
        choice s (omega arith) (pick-Pooled size held place a))

abbrev zeros : ℕ → Buffer
zeros n = as_buffer (some (record { arr = replicate n 0; len = n }))

contents-zeros : (n : ℕ) → contents (zeros n) ≡ replicate n 0
contents-zeros n =
    let bytes : List ℕ = replicate n 0 in
    let e : n - 0 ≡ n = omega arith in
    ap (λ k. take k bytes) e ∙ take_all n bytes (omega (arith, length-replicate {A = ℕ} n 0))

-- GetSize of a pool of small buffers that holds buffers of its own size, with a stocked allocator, for
-- any pattern of an int: at the pool's size it returns an empty well-formed buffer of that size; above
-- it, and for a negative size, it panics; below it returns a buffer whose contents are that many zero
-- bytes.
pub get_size_cases :
    (n size : ℕ) (held : List Buffer) (alloc : Allocator) (place choice : ℕ)
    → IsStocked alloc
    → size < max_buffer_size
    → n < word_mod
    → AllPooled size held
    → let p = pool_of size held in
      ((n ≡ size)
        × (b : Buffer) × (p' : Pool) × (alloc' : Allocator) × (get_size n p alloc place choice
            ≡ returns (b, p', alloc'))
        × IsValid b
        × (length (contents b) ≡ 0)
        × (b.size ≡ n))
      ⊎ (((size < n) ⊎ (is_neg n ≡ true)) × (get_size n p alloc place choice ≡ panics))
      ⊎ ((n < size)
          × (b : Buffer) × (get_size n p alloc place choice ≡ returns (b, p, alloc))
          × (contents b ≡ replicate n 0))
unfolding get_size
get_size_cases n size held alloc place choice s small word a = elim (Bool-cases (is_neg n)) [
  | inl negative ↦
      let guard : lt_int n size ≡ true = ground arith in
      let unmade : leb n make_limit ≡ false = ground arith in
      inr (inl (inr negative, rw (guard, unmade) refl))
  | inr natural ↦ elim (Bool-cases (ltb n size)) [
    | inl below ↦
        let guard : lt_int n size ≡ true = ground arith in
        let makes : leb n make_limit ≡ true = ground arith in
        inr (inr (ground arith, zeros n, rw (guard, makes) refl, contents-zeros n))
    | inr above ↦
        let fits : n ≤ max_int = ground arith in
        let guard : lt_int n size ≡ false = ground arith in
        let valid : lt_int size max_buffer_size ≡ true = ground arith in
        let (b, p', alloc', e, (v, len, w, size_is)) =
          get-IsEmptyOf size held alloc place choice s small a in
        elim (resize_cases n v fits) [
          | inl (over, e') ↦ inr (inl (inl (omega arith), rw (guard, valid, e, e') refl))
          | inr (b', within, e', size_now, same, still, _) ↦ inl (
            ground arith,
            b',
            p',
            alloc',
            rw (guard, valid, e, e') refl,
            still (omega arith),
            ap length same ∙ omega (arith, length-contents v),
            size_now,
          )
        ]
  ]
]
