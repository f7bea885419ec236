-- ===== src/Buf/Alloc/Safety.antt =====
-- What the allocator hands out and takes back.
use native.Mathlib.Decide.{dec_le, dec_lt}
use qtfra.Common.{
  ℕ, zero, suc, ◌+◌, ◌-◌, ◌%◌, ◌^◌, ◌≤◌, ◌<◌, ◌≡◌, ◌⊎◌, ◌≢◌, true, false, List, [], ◌∷◌, none, some,
  refl, inl, inr, arith,
}
use qtfra.Common.Tests.{Bool-cases, nat_beq}
use qtfra.Common.Lists.{length, length-replicate}
use qtfra.Common.Outcomes.{returns, panics}
use qtfra.Ex.Error.{leaf, incorrect_size}
use qtfra.Buf.Slice.{Slice}
use qtfra.Buf.Alloc.{
  Allocator, msb, class_size, get_index, pool_get, update, as_slice, get_array, put_array, get, put,
}
use qtfra.Buf.Alloc.Sizes.{get_index_fits, msb_bounds, msb-pow}

-- Every array of the list has the given length.
abbrev pub AllOfLength : ℕ → List (List ℕ) → Type 0
AllOfLength n [] = Unit {0}
AllOfLength n (a ∷ held) = (length a ≡ n) × AllOfLength n held

-- Each pool holds arrays of its own length only.
abbrev pub IsStocked : Allocator → Type 0
IsStocked alloc = (index : ℕ) → AllOfLength (class_size index) (alloc.buffers index)

pool_get-AllOfLength :
    (n choice : ℕ) (held : List (List ℕ))
    → AllOfLength n held
    → (length (pool_get held choice n).0 ≡ n) × AllOfLength n (pool_get held choice n).1
pool_get-AllOfLength n choice [] h = (length-replicate n 0, tt)
pool_get-AllOfLength n zero (a ∷ held) h = h
pool_get-AllOfLength n (suc choice) (a ∷ held) h =
    let ih = pool_get-AllOfLength n choice held h.1 in (ih.0, (h.0, ih.1))

update-IsStocked :
    (alloc : Allocator) (index : ℕ) (held : List (List ℕ))
    → IsStocked alloc
    → AllOfLength (class_size index) held
    → IsStocked (record { buffers = update alloc.buffers index held })
update-IsStocked alloc index held s h j = elim (Bool-cases (nat_beq j index)) [
  | inl e ↦ rw e (let same : j ≡ index = ground arith in rw same h)
  | inr ne ↦ rw ne (s j)
]

-- On a stocked allocator Get returns, for a size between 1 and 65536, a slice of that length over an
-- array of the length of the size's pool, and leaves the allocator stocked; it never panics.
pub get_array_safe :
    (alloc : Allocator) (choice size : ℕ)
    → IsStocked alloc
    → 0 < size
    → size ≤ 65536
    → (s : Slice) × (alloc' : Allocator) × (get_array alloc choice size ≡ returns (some s, alloc'))
      × (s.len ≡ size)
      × (length s.arr ≡ class_size (get_index size))
      × IsStocked alloc'
unfolding get_array as_slice
get_array_safe alloc choice size s p h =
    let index = get_index size in
    let fits = get_index_fits size p h in
    let got = pool_get-AllOfLength (class_size index) choice (alloc.buffers index) (s index) in
    let (found, rest) = pool_get (alloc.buffers index) choice (class_size index) in
    (
      record { arr = found; len = size },
      record { buffers = update alloc.buffers index rest },
      ground (arith, fits.0, fits.1, got.0),
      refl,
      got.0,
      update-IsStocked alloc index rest s got.1,
    )

-- Any other size gets no slice.
pub get_array-none :
    (alloc : Allocator) (choice size : ℕ)
    → size < 2 ^ 64
    → (size ≡ 0) ⊎ (65536 < size)
    → get_array alloc choice size ≡ returns (none, alloc)
unfolding get_array
get_array-none alloc choice size h (inl e) = ground arith
get_array-none alloc choice size h (inr l) = ground arith

-- Put takes an array back into the pool of its length, if the length is 2 ^ k for k from 6 to 16.
pub put_array_returns :
    (alloc : Allocator) (arr : List ℕ) (k : ℕ)
    → length arr ≡ 2 ^ (k + 6)
    → k ≤ 10
    → IsStocked alloc
    → let alloc' : Allocator = record {
      buffers = update alloc.buffers k (arr ∷ alloc.buffers k);
    } in
      (put_array alloc arr ≡ returns (none, alloc')) × IsStocked alloc'
unfolding put_array
put_array_returns alloc arr k e h s =
    let m = msb-pow (k + 6) (length arr) (omega arith) e in
    let index : (k + 6 + 2 ^ 16 - 6) % 2 ^ 16 ≡ k = omega arith in
    (
      rw (m.2, index) (ground (arith, m.0, m.1)),
      update-IsStocked alloc k (arr ∷ alloc.buffers k) s (e, s k),
    )

-- Lengths below 64 that are powers of two pass the test of Put and then have no pool: Put panics.
pub put_array_panics :
    (alloc : Allocator) (arr : List ℕ) (k : ℕ)
    → length arr ≡ 2 ^ k
    → k < 6
    → put_array alloc arr ≡ panics
unfolding put_array
put_array_panics alloc arr k e h =
    let m = msb-pow k (length arr) (omega arith) e in
    let index : (k + 2 ^ 16 - 6) % 2 ^ 16 ≡ k + 65530 = omega arith in
    rw (m.2, index) (ground (arith, m.0, m.1))

-- Every other length is refused, with the allocator left as it was.
pub put_array_refuses :
    (alloc : Allocator) (arr : List ℕ)
    → ((k : ℕ) → k ≤ 16 → length arr ≢ 2 ^ k)
    → put_array alloc arr ≡ returns (some (leaf incorrect_size), alloc)
unfolding put_array
put_array_refuses alloc arr h = elim (dec_lt 0 (length arr)) [
  | yes pos ↦ elim (dec_le (length arr) 65536) [
    | yes small ↦
        let m = msb_bounds (length arr) pos small in
        ground (arith, m.0, m.1, h (msb (length arr)) m.2)
    | no large ↦ ground arith
  ]
  | no empty ↦ ground arith
]

-- Put, on every branch, for an allocator whose pools hold arrays of their own length. An array of
-- 2 ^ k bytes with k from 6 to 16 goes on top of its pool, the pools stay so, with the array in front. An array of 2 ^ k bytes with k below 6 makes Put panic.
-- Any other length is refused with an error, and the allocator stays as it was.
pub put_array_cases :
    (alloc : Allocator) (arr : List ℕ)
    → IsStocked alloc
    → ((k : ℕ)
        → length arr ≡ 2 ^ (k + 6)
        → k ≤ 10
        → (alloc' : Allocator) × (put_array alloc arr ≡ returns (none, alloc'))
          × (alloc'.buffers k ≡ arr ∷ alloc.buffers k)
          × IsStocked alloc')
      × ((k : ℕ) → length arr ≡ 2 ^ k → k < 6 → put_array alloc arr ≡ panics)
      × (((k : ℕ) → k ≤ 16 → length arr ≢ 2 ^ k)
          → put_array alloc arr ≡ returns (some (leaf incorrect_size), alloc))
put_array_cases alloc arr s = (
  λ k e h.
      let (done, s') = put_array_returns alloc arr k e h s in
      let self : nat_beq k k ≡ true = ground arith in (_, done, rw self, s'),
  λ k. put_array_panics alloc arr k,
  put_array_refuses alloc arr,
)

-- What get gives for the sizes that a managed buffer has.
pub get_safe :
    (alloc : Allocator) (choice size : ℕ)
    → IsStocked alloc
    → 0 < size
    → size ≤ 65536
    → (s : Slice) × (alloc' : Allocator) × (get alloc choice size ≡ returns (some s, alloc'))
      × (s.len ≡ size)
      × (length s.arr ≡ class_size (get_index size))
      × IsStocked alloc'
unfolding get
get_safe alloc choice size s p h =
    let some_size : nat_beq size 0 ≡ false = ground arith in
    rw some_size (get_array_safe alloc choice size s p h)

-- put takes back a slice over an array of one of the pools.
pub put_safe :
    (alloc : Allocator) (s : Slice) (k : ℕ)
    → length s.arr ≡ 2 ^ (k + 6)
    → k ≤ 10
    → IsStocked alloc
    → (alloc' : Allocator) × (put alloc s ≡ returns alloc') × IsStocked alloc'
unfolding put
put_safe alloc s k e h st = elim (Bool-cases (nat_beq s.len 0)) [
  | inl empty ↦ rw empty (alloc, refl, st)
  | inr some_bytes ↦
      let (stored, st') = put_array_returns alloc s.arr k e h st in
      rw (some_bytes, stored) (_, refl, st')
]
