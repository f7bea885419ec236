-- ===== src/Buf/Alloc/Sizes.antt =====
-- Which pool serves which size.
use native.Mathlib.Decide.{dec_lt, ℕ_discrete}
use native.Mathlib.Nat.{pow-suc, pow-le-pow_right}
use native.Mathlib.Numerals.{towards_suc}
use qtfra.Common.{
  ℕ, zero, suc, ◌+◌, ◌-◌, ◌*◌, ◌/◌, ◌%◌, ◌^◌, ◌≤◌, ◌<◌, ◌≡◌, ◌⊎◌, ◌≢◌, refl, sym, ap, ◌∙◌, inl, inr,
  arith,
}
use qtfra.Buf.Alloc.{bit_len, msb, class_size, get_index}

bit_len-zero : (f : ℕ) → bit_len f 0 ≡ 0
unfolding bit_len
bit_len-zero zero = refl
bit_len-zero (suc f) = refl

bit_len-suc : (f n : ℕ) → 0 < n → bit_len (suc f) n ≡ suc (bit_len f (n / 2))
unfolding bit_len
bit_len-suc f n p = ground arith

-- A number has at least and at most the bits that bit_len counts.
bit_len_bounds : (f n : ℕ) → n < 2 ^ f → (n < 2 ^ bit_len f n) × (0 < n → 2 ^ bit_len f n ≤ 2 * n)
unfolding bit_len
bit_len_bounds zero n h = (omega arith, λ p. omega arith)
bit_len_bounds (suc f) zero h = (omega arith, λ p. omega arith)
bit_len_bounds (suc f) (suc zero) h =
    rw (bit_len-suc f 1 (omega arith), bit_len-zero f) (omega arith, λ p. omega arith)
bit_len_bounds (suc f) (suc (suc n)) h =
    let half = suc (suc n) / 2 in
    let ih = bit_len_bounds f half (omega (arith, pow-suc 2 f)) in
    let double = pow-suc 2 (bit_len f half) in
    rw (bit_len-suc f (suc (suc n)) (omega arith))
      (omega (arith, ih.0, double), λ p. omega (arith, ih.1 (omega arith), double))

pow_lt : (i j : ℕ) → 2 ^ i < 2 ^ j → i < j
pow_lt i j h = elim (dec_lt i j) [
  | yes p ↦ p
  | no p ↦
      absurd (omega (arith, pow-le-pow_right {n = 2} (omega arith) {i = j} {j = i} (omega arith)))
]

-- The position of the top bit of a size that the allocator serves.
pub msb_bounds :
    (size : ℕ)
    → 0 < size
    → size ≤ 65536
    → (2 ^ msb size ≤ size) × (size < 2 ^ (msb size + 1)) × (msb size ≤ 16)
unfolding msb
msb_bounds size p h = rw (small, top) (lower, upper, omega (arith, few))
  where
    bits : ℕ
    bits = bit_len 32 size

    small : size % 2 ^ 32 ≡ size
    small = omega arith

    bounds : (size < 2 ^ bits) × (0 < size → 2 ^ bits ≤ 2 * size)
    bounds = bit_len_bounds 32 size (omega arith)

    few : bits < 18
    few = pow_lt bits 18 (omega (arith, bounds.1 p))

    some_bit : bits ≢ 0
    some_bit e = omega (arith, bounds.0, ap (λ k. 2 ^ k) e)

    top : (bits + 2 ^ 16 - 1) % 2 ^ 16 ≡ bits - 1
    top = omega (arith, few, some_bit)

    again : bits - 1 + 1 ≡ bits
    again = omega (arith, some_bit)

    upper : size < 2 ^ (bits - 1 + 1)
    upper = omega (arith, bounds.0, ap (λ k. 2 ^ k) again)

    lower : 2 ^ (bits - 1) ≤ size
    lower = omega (
      arith,
      bounds.1 p,
      ap (λ k. 2 ^ k) again,
      pow-suc 2 (bits - 1),
      ap (λ k. 2 ^ k) (let e : bits - 1 + 1 ≡ suc (bits - 1) = omega arith in e),
    )

-- For the sizes above 64 the top bit decides the pool.
get_index_large :
    (size : ℕ)
    → 64 < size
    → size ≤ 65536
    → (get_index size + 6 ≡ msb size) × (size ≡ 2 ^ msb size)
      ⊎ (get_index size + 6 ≡ msb size + 1) × (size ≢ 2 ^ msb size)
unfolding get_index
get_index_large size p h = ground (arith, msb_bounds size, six)
  where
    six : 6 ≤ msb size
    six = omega (arith, pow_lt 6 (msb size + 1) (omega (arith, msb_bounds size)))

get_index_small : (size : ℕ) → size ≤ 64 → get_index size ≡ 0
unfolding get_index
get_index_small size h = ground arith

pow_mono : (i j : ℕ) → i ≤ j → 2 ^ i ≤ 2 ^ j
pow_mono i j h = pow-le-pow_right {n = 2} (omega arith) {i = i} {j = j} h

-- What the index of a size is good for.
abbrev Fits : ℕ → ℕ → Type 0
Fits size index =
    (index ≤ 10)
    × (size ≤ class_size index)
    × ((k : ℕ) → k < index → class_size k < size)
    × (64 < size → class_size index < 2 * size)

Fits-exact : (size index m : ℕ) → index + 6 ≡ m → size ≡ 2 ^ m → 0 < size → m ≤ 16 → Fits size index
Fits-exact size index m e f p h =
    let same : 2 ^ (index + 6) ≡ size = ap (λ k. 2 ^ k) e ∙ sym f in
    (
      omega arith,
      omega arith,
      λ k lt. omega (
        arith,
        pow-suc 2 (k + 6),
        pow_mono (suc (k + 6)) (index + 6) (omega arith),
        pow_mono 0 (k + 6) (omega arith),
      ),
      λ _. omega arith,
    )

Fits-above :
    (size index m : ℕ)
    → index + 6 ≡ m + 1
    → size ≢ 2 ^ m
    → 2 ^ m ≤ size
    → size < 2 ^ (m + 1)
    → size ≤ 65536
    → m ≤ 16
    → Fits size index
Fits-above size index m e ne lo hi h few =
    let same : 2 ^ (index + 6) ≡ 2 ^ (m + 1) = ap (λ k. 2 ^ k) e in
    let double : 2 ^ (m + 1) ≡ 2 ^ m * 2 = simp towards_suc (pow-suc 2 m) in
    (
      elim (ℕ_discrete m 16) [
        | yes s ↦ absurd (omega (arith, ap (λ k. 2 ^ k) s))
        | no n ↦ omega arith
      ],
      omega arith,
      λ k lt. omega (arith, pow_mono (k + 6) m (omega arith)),
      λ _. omega arith,
    )

-- A size between 1 and 65536 is served by one of the eleven pools; its arrays have room for the size,
-- those of the pools below have not, and above 64 bytes less than half of the array is unused.
pub get_index_fits :
    (size : ℕ)
    → 0 < size
    → size ≤ 65536
    → (get_index size ≤ 10)
      × (size ≤ class_size (get_index size))
      × ((k : ℕ) → k < get_index size → class_size k < size)
      × (64 < size → class_size (get_index size) < 2 * size)
get_index_fits size p h = elim (dec_lt 64 size) [
  | yes large ↦ fits (get_index_large size large h)
  | no small ↦
      rw (get_index_small size (omega arith))
        (omega arith, omega arith, λ k lt. absurd (omega arith), λ l. absurd (omega arith))
]
  where
    m : ℕ
    m = msb size

    b : (2 ^ m ≤ size) × (size < 2 ^ (m + 1)) × (m ≤ 16)
    b = msb_bounds size p h

    fits :
        (get_index size + 6 ≡ m) × (size ≡ 2 ^ m) ⊎ (get_index size + 6 ≡ m + 1) × (size ≢ 2 ^ m)
        → Fits size (get_index size)
    fits (inl (e, f)) = Fits-exact size (get_index size) m e f p b.2
    fits (inr (e, ne)) = Fits-above size (get_index size) m e ne b.0 b.1 h b.2

pub msb-pow : (k size : ℕ) → k ≤ 16 → size ≡ 2 ^ k → (0 < size) × (size ≤ 65536) × (msb size ≡ k)
msb-pow k size h e =
    let lo : 0 < size = omega (arith, pow_mono 0 k (omega arith)) in
    let hi : size ≤ 65536 = omega (arith, pow_mono k 16 h) in
    let b = msb_bounds size lo hi in (lo, hi, squeeze lo hi b)
  where
    squeeze :
        0 < size
        → size ≤ 65536
        → (2 ^ msb size ≤ size) × (size < 2 ^ (msb size + 1)) × (msb size ≤ 16)
        → msb size ≡ k
    squeeze lo hi b = elim (dec_lt k (msb size)) [
      | yes above ↦ absurd (
          omega (arith, pow-suc 2 k, pow_mono (suc k) (msb size) above, pow_mono 0 k (omega arith)))
      | no not_above ↦ omega (arith, pow_lt k (msb size + 1) (omega arith))
    ]
