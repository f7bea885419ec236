-- ===== src/Buf/Buffer/Resizing.antt =====
-- Resize, Truncated and Discard move the limits of a buffer, and what they do not check.
use native.Mathlib.Decide.{dec_lt}
use qtfra.Common.{
  ℕ, ◌+◌, ◌-◌, ◌≤◌, ◌<◌, ◌≡◌, ◌⊎◌, false, List, none, some, refl, ap, ◌∙◌, inl, inr, arith,
}
use qtfra.Common.Tests.{nat_beq}
use qtfra.Common.Lists.{length, take}
use qtfra.Common.Windows.{window-take}
use qtfra.Common.Words.{max_int, is_neg, add_int}
use qtfra.Common.Outcomes.{returns, panics}
use qtfra.Ex.Error.{leaf, overflow}
use qtfra.Buf.Slice.{len_of, arr_of}
use qtfra.Buf.Buffer.{Buffer, resize, write, discard, truncated, free_bytes, bytes_of, is_full}
use qtfra.Buf.Buffer.Valid.{IsValid, contents, length-contents}

-- A Write of some bytes panics on a buffer whose write index is above its size.
write-panics :
    (b : Buffer) (bs : List ℕ) → b.size < b.w → nat_beq (length bs) 0 ≡ false → write bs b ≡ panics
unfolding write
write-panics b bs lt more =
    let room : is_full b ≡ false = ground arith in
    let bad : free_bytes b ≡ panics = ground arith in rw (room, more, bad)

-- Resize, for a size that is not negative: above the slice it is refused and nothing changes; from the
-- write index up to the slice it keeps the buffer well-formed, with its contents; below the write
-- index it is accepted too, and then a Write of some bytes panics.
pub resize_cases :
    (n : ℕ) {b : Buffer}
    → IsValid b
    → n ≤ max_int
    → ((len_of b.bytes < n) × (resize n b ≡ returns (some (leaf overflow), b)))
      ⊎ ((b' : Buffer) × (n ≤ len_of b.bytes)
          × (resize n b ≡ returns (none, b'))
          × (b'.size ≡ n)
          × (contents b' ≡ contents b)
          × (b.w ≤ n → IsValid b')
          × (n < b.w → (bs : List ℕ) → nat_beq (length bs) 0 ≡ false → write bs b' ≡ panics))
unfolding resize
resize_cases n {b} v h = elim (dec_lt (len_of b.bytes) n) [
  | yes above ↦ inl (above, ground arith)
  | no within ↦ inr (
    record b { size = n },
    omega arith,
    ground arith,
    refl,
    refl,
    λ fits. omega arith,
    λ below bs more. write-panics _ bs below more,
  )
]

-- Discard, on a well-formed buffer that holds bytes not yet read, of a count that an int holds and that
-- overflows together with the read index: it reports the whole count as discarded, and leaves a read
-- index that stands for a negative number, so that reading the bytes panics.
pub discard_overflows :
    (n : ℕ) {b : Buffer}
    → IsValid b
    → b.r < b.w
    → n ≤ max_int
    → max_int < b.r + n
    → (discard n b ≡ returns ((n, none), record b { r = b.r + n }))
      × (bytes_of (record b { r = b.r + n }) ≡ panics)
unfolding discard
discard_overflows n {b} v lt h over = (ground arith, ground arith)

-- Truncated, for a count that is not negative and does not overflow: with at most as many bytes as the
-- buffer holds, the first of them stay; with more, the contents grow by what the array happened to
-- hold, up to the size; past the size, a Write of some bytes panics.
pub truncated_cases :
    (n : ℕ) {b : Buffer}
    → IsValid b
    → b.r + n ≤ max_int
    → (b' : Buffer) × (truncated n b ≡ returns (tt, b'))
      × (b.r + n ≤ b.w → IsValid b' × (contents b' ≡ take n (contents b)))
      × (b.r + n ≤ b.size → IsValid b' × (length (contents b') ≡ n))
      × (b.size < b.r + n → (bs : List ℕ) → nat_beq (length bs) 0 ≡ false → write bs b' ≡ panics)
unfolding truncated
truncated_cases n {b} v h =
    let pos : is_neg n ≡ false = ground arith in
    let end : add_int b.r n ≡ b.r + n = omega arith in
    let n' : b.r + n - b.r ≡ n = omega arith in
    let b' : Buffer = record b { w = b.r + n } in
    rw (pos, end)
      (
        b',
        refl,
        λ below. (
          omega arith,
          window-take (arr_of b.bytes) b.r (b.r + n) b.w below ∙ ap (λ i. take i (contents b)) n',
        ),
        λ inside. (omega arith, omega (arith, length-contents {b = b'} (omega arith))),
        λ past bs more. write-panics _ bs past more,
      )
