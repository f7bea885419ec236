-- ===== src/Buf/Buffer/Lifecycle.antt =====
-- Making, resizing and freeing buffers.
use native.Mathlib.Decide.{dec_lt, ℕ_discrete}
use native.Mathlib.Nat.{pow-le-pow_right}
use qtfra.Common.{
  ℕ, ◌+◌, ◌^◌, ◌≤◌, ◌≡◌, ◌⊎◌, Bool, true, false, Option, none, some, refl, ap, inl, inr, arith,
}
use qtfra.Common.Tests.{leb, nat_beq, Bool-cases}
use qtfra.Common.Lists.{length, length-replicate}
use qtfra.Common.Words.{max_int, is_neg, lt_int}
use qtfra.Common.Outcomes.{returns}
use qtfra.Ex.Error.{leaf, refs_not_clean}
use qtfra.Buf.Slice.{Slice, len_of, make_limit}
use qtfra.Buf.Alloc.{Allocator, class_size, get_index}
use qtfra.Buf.Alloc.Sizes.{get_index_fits}
use qtfra.Buf.Alloc.Safety.{IsStocked, get_safe, put_safe}
use qtfra.Buf.Buffer.{Buffer, max_managed_size, new_size, release, free, close}
use qtfra.Buf.Buffer.Valid.{IsValid}

-- What NewSize makes: an empty well-formed buffer of the size asked for.
pub record IsFresh (size : ℕ) (b : Buffer) : Type 0 where
  pub valid : IsValid b
  pub size_is : b.size ≡ size
  pub len_is : len_of b.bytes ≡ size
  pub no_reads : b.r ≡ 0
  pub no_writes : b.w ≡ 0
  pub no_refs : b.ref ≡ 0

-- The array of a managed buffer that is not freed has the length of one of the pools.
abbrev pub Returnable : Bool → Option Slice → Type 0
Returnable true (some s) = (k : ℕ) × (length s.arr ≡ 2 ^ (k + 6)) × (k ≤ 10)
Returnable _ _ = Unit {0}

abbrev pub IsReturnable : Buffer → Type 0
IsReturnable b = Returnable b.managed b.bytes

-- NewSize returns an empty well-formed buffer of any size from 0 to 2^48, the most that make allows, out
-- of a stocked allocator, which stays stocked; the buffer has no references and can be given back.
pub new_size-IsFresh :
    (alloc : Allocator) (choice size : ℕ)
    → IsStocked alloc
    → size ≤ make_limit
    → (b : Buffer) × (alloc' : Allocator) × (new_size alloc choice size ≡ returns (b, alloc'))
      × IsFresh size b
      × IsReturnable b
      × IsStocked alloc'
unfolding new_size
new_size-IsFresh alloc choice size s h =
    let pos : is_neg size ≡ false = ground arith in
    elim (ℕ_discrete size 0) [
      | yes e ↦ rw e (_, alloc, refl, omega arith, tt, s)
      | no ne ↦
          let nonzero : nat_beq size 0 ≡ false = ground arith in
          elim (dec_lt max_managed_size size) [
            | yes large ↦
                let over : lt_int max_managed_size size ≡ true = ground arith in
                let makes : leb size make_limit ≡ true = ground arith in
                rw (pos, nonzero, over, makes)
                  (_, alloc, refl, omega (arith, length-replicate {A = ℕ} size 0), tt, s)
            | no small ↦
                let under : lt_int max_managed_size size ≡ false = ground arith in
                let (found, alloc', got, len, cap, s') =
                  get_safe alloc choice size s (omega arith) (omega arith) in
                let fits = get_index_fits size (omega arith) (omega arith) in
                let top : class_size (get_index size) ≤ max_int = omega (
                  arith,
                  pow-le-pow_right {n = 2} (omega arith) {i = get_index size + 6} {j = 16}
                      (omega (arith, fits.0)),
                ) in
                rw (pos, nonzero, under, got)
                  (
                    _,
                    alloc',
                    refl,
                    omega (arith, len, cap, fits.1, top),
                    (get_index size, cap, fits.0),
                    s',
                  )
          ]
    ]

-- Free on a buffer without references gives the array of a managed buffer back, panics never, and
-- leaves the allocator stocked and the buffer without a slice.
pub free-unreferenced :
    (alloc : Allocator) (b : Buffer)
    → IsStocked alloc
    → IsReturnable b
    → lt_int 0 b.ref ≡ false
    → (alloc' : Allocator) × (free alloc b ≡ returns (record b { bytes = none }, alloc'))
      × IsStocked alloc'
unfolding free
free-unreferenced alloc b s ret unref = rw unref (released b.managed b.bytes refl refl ret)
  where
    released :
        (m : Bool) (d : Option Slice)
        → b.managed ≡ m
        → b.bytes ≡ d
        → Returnable m d
        → (alloc' : Allocator) × (release alloc b d ≡ returns (record b { bytes = none }, alloc'))
          × IsStocked alloc'
    released m none em ed ret = (alloc, ap (λ d. returns (record b { bytes = d }, alloc)) ed, s)
    released false (some x) em ed ret = rw (em, release) (alloc, refl, s)
    released true (some x) em ed (k, e, h) =
        let (alloc', done, s') = put_safe alloc x k e h s in
        rw (em, release, done) (alloc', refl, s')

-- Free, with references or without, leaves the indices and a stocked allocator.
pub free-IsStocked :
    (alloc : Allocator) (b : Buffer)
    → IsStocked alloc
    → IsReturnable b
    → (b' : Buffer) × (alloc' : Allocator) × (free alloc b ≡ returns (b', alloc'))
      × (b'.r ≡ b.r)
      × (b'.w ≡ b.w)
      × IsStocked alloc'
unfolding free
free-IsStocked alloc b s ret = elim (Bool-cases (lt_int 0 b.ref)) [
  | inl held ↦ rw held (b, alloc, refl, refl, refl, s)
  | inr unref ↦
      let (alloc', done, s') = free-unreferenced alloc b s ret unref in
      (record b { bytes = none }, alloc', done, refl, refl, s')
]

-- Free does nothing to a buffer that it has freed, or that it left alone.
pub free-free :
    (alloc alloc' : Allocator) (b b' : Buffer)
    → free alloc b ≡ returns (b', alloc')
    → free alloc' b' ≡ returns (b', alloc')
unfolding free release
free-free alloc alloc' b b' e = ground arith

-- Close refuses a buffer that is still referenced, and leaves it as it was.
close-referenced :
    (alloc : Allocator) (b : Buffer)
    → lt_int 0 b.ref ≡ true
    → close alloc b ≡ returns (some (leaf refs_not_clean), b, alloc)
unfolding close
close-referenced alloc b h = rw h

-- Close on a buffer without references frees it.
close-unreferenced :
    (alloc : Allocator) (b : Buffer)
    → IsStocked alloc
    → IsReturnable b
    → lt_int 0 b.ref ≡ false
    → (alloc' : Allocator) × (close alloc b ≡ returns (none, record b { bytes = none }, alloc'))
      × IsStocked alloc'
unfolding close
close-unreferenced alloc b s ret unref =
    let (alloc', freed, s') = free-unreferenced alloc b s ret unref in
    rw (unref, freed) (alloc', refl, s')

-- Close, on both branches: a buffer with references stays as it was and ErrRef is reported; any other
-- loses its slice, with no error, and the allocator stays stocked. It never panics.
pub close_cases :
    (alloc : Allocator) (b : Buffer)
    → IsStocked alloc
    → IsReturnable b
    → ((lt_int 0 b.ref ≡ true) × (close alloc b ≡ returns (some (leaf refs_not_clean), b, alloc)))
      ⊎ ((lt_int 0 b.ref ≡ false)
          × ((alloc' : Allocator) × (close alloc b
                ≡ returns (none, record b { bytes = none }, alloc'))
              × IsStocked alloc'))
close_cases alloc b s ret = elim (Bool-cases (lt_int 0 b.ref)) [
  | inl held ↦ inl (held, close-referenced alloc b held)
  | inr unref ↦ inr (unref, close-unreferenced alloc b s ret unref)
]
