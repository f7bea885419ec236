-- ===== src/Buf/Buffer/Refine/Reads.antt =====
-- Read, ReadByte, Discard and Peek do what the abstract buffer does.
use qtfra.Common.{
  ℕ, ◌+◌, ◌-◌, ◌≤◌, ◌<◌, ◌≡◌, true, false, [], none, refl, ap, ◌∙◌, min, inl, inr, arith,
}
use qtfra.Common.Tests.{ltb, nat_beq, Bool-cases}
use qtfra.Common.Lists.{length, take, length-take}
use qtfra.Common.Windows.{window-take, window-cons}
use qtfra.Common.Words.{add_int, sub_int, is_neg, lt_int}
use qtfra.Common.Outcomes.{returns}
use qtfra.Buf.Slice.{len_of, arr_of, in_range, sub_slice}
use qtfra.Buf.Buffer.{Buffer, read, read_byte, discard, peek}
use qtfra.Buf.Buffer.Valid.{IsValid, contents, length-contents, bytes_of-valid}
use qtfra.Buf.Buffer.Pipe.{
  Pipe, Op, writes, writes_string, writes_byte, reads, reads_byte, discards, peeks, Reply, fails,
  gives, accept, yield,
}
use qtfra.Buf.Buffer.Pipe
use qtfra.Buf.Buffer.Refine.{view, texts, call, Fits, Does, refused, yielded}

pub read_valid :
    {b : Buffer} (k : ℕ)
    → IsValid b
    → nat_beq b.r b.w ≡ false
    → read k b
      ≡ returns ((take k (contents b), none), record b { r = b.r + min k (length (contents b)) })
unfolding read
read_valid {b} k v more =
    rw (more, bytes_of-valid v)
      (ap (λ i. returns ((take k (contents b), none), record b { r = i })) moved)
  where
    moved : add_int b.r (length (take k (contents b))) ≡ b.r + min k (length (contents b))
    moved = omega (arith, length-take k (contents b), length-contents v)

pub read-Does :
    {b : Buffer} (k : ℕ) → IsValid b → Does b.size (call (reads k) b) (Pipe.step (reads k) (view b))
unfolding call Pipe.step
read-Does {b} k v = elim (Bool-cases (nat_beq b.r b.w)) [
  | inl empty ↦
      let t : nat_beq (length (contents b)) 0 ≡ true = ground (arith, length-contents v) in
      rw t (refused v (unfold read in rw empty))
  | inr some_bytes ↦
      let t : nat_beq (length (contents b)) 0 ≡ false = ground (arith, length-contents v) in
      rw t (
        yielded k (min k (length (contents b))) v refl (
          ap texts (read_valid k v some_bytes)
          ∙ ap
              (λ n. returns (
                record { count = n; bytes = take k (contents b); error = none },
                record b { r = b.r + min k (length (contents b)) },
              ))
              (length-take k (contents b))))
]

pub discard-Does :
    {b : Buffer} (n : ℕ)
    → IsValid b
    → Fits b.size (discards n)
    → Does b.size (call (discards n) b) (Pipe.step (discards n) (view b))
unfolding call discard Pipe.step
discard-Does {b} n v (inr neg) = rw neg (refused v refl)
discard-Does {b} n v (inl fit) =
    let pos : is_neg n ≡ false = ground arith in
    rw pos (elim (Bool-cases (nat_beq b.r b.w)) [
      | inl empty ↦
          let t : nat_beq (length (contents b)) 0 ≡ true = ground (arith, length-contents v) in
          rw (t, empty) (refused v refl)
      | inr some_bytes ↦
          let t : nat_beq (length (contents b)) 0 ≡ false = ground (arith, length-contents v) in
          rw (t, some_bytes)
            (yielded n (min n (length (contents b))) v refl (ground (arith, length-contents v)))
    ])

sub_slice_peek :
    {b : Buffer} (n : ℕ)
    → IsValid b
    → b.r + n ≤ b.w
    → sub_slice b.bytes b.r (add_int b.r n) ≡ returns (take n (contents b))
sub_slice_peek {b} n v h =
    let sum : add_int b.r n ≡ b.r + n = omega arith in
    let checked : in_range b.bytes b.r (b.r + n) ≡ true = ground arith in
    let n' : b.r + n - b.r ≡ n = omega arith in
    rw (sum, checked)
      (ap returns
        (window-take (arr_of b.bytes) b.r (b.r + n) b.w h ∙ ap (λ i. take i (contents b)) n'))

pub peek-Does :
    {b : Buffer} (n : ℕ)
    → IsValid b
    → Fits b.size (peeks n)
    → Does b.size (call (peeks n) b) (Pipe.step (peeks n) (view b))
unfolding call peek Pipe.step
peek-Does {b} n v (inr neg) = rw neg (refused v refl)
peek-Does {b} n v (inl fit) =
    let pos : is_neg n ≡ false = ground arith in
    let n_le : ltb (length (contents b)) n ≡ false → b.r + n ≤ b.w =
      λ fits. ground (arith, length-contents v) in
    rw pos (elim (Bool-cases (nat_beq b.r b.w)) [
      | inl empty ↦
          let t : nat_beq (length (contents b)) 0 ≡ true = ground (arith, length-contents v) in
          rw (t, empty) (refused v refl)
      | inr some_bytes ↦
          let t : nat_beq (length (contents b)) 0 ≡ false = ground (arith, length-contents v) in
          rw (t, some_bytes)
            (elim (Bool-cases (ltb (length (contents b)) n)) [
              | inl long ↦
                  let over : lt_int b.w (add_int b.r n) ≡ true =
                    ground (arith, length-contents v) in
                  rw (long, over) (refused v refl)
              | inr fits ↦
                  let under : lt_int b.w (add_int b.r n) ≡ false =
                    ground (arith, length-contents v) in
                  let found : sub_slice b.bytes b.r (add_int b.r n)
                      ≡ returns (take n (contents b)) =
                    sub_slice_peek n v (n_le fits) in
                  rw (fits, under, found, length-take n (contents b))
                    (
                      b,
                      ap (λ i. returns (gives i (take n (contents b)), b))
                          (ground (arith, length-contents v)),
                      v,
                      refl,
                      refl,
                    )
            ])
    ])

pub read_byte-Does :
    {b : Buffer} → IsValid b → Does b.size (call reads_byte b) (Pipe.step reads_byte (view b))
unfolding call read_byte Pipe.step
read_byte-Does {b} v = elim (Bool-cases (nat_beq b.r b.w)) [
  | inl empty ↦
      let zero_left : b.w - b.r ≡ 0 = ground arith in
      let none_left : contents b ≡ [] = rw zero_left in
      rw (none_left, empty)
        (b, refl, v, ap (λ t. record { pending = t; room = b.size - b.w }) none_left, refl)
  | inr more ↦
      let (x, found, rest) = window-cons (arr_of b.bytes) b.r b.w (ground arith) (omega arith) in
      let place : sub_int (add_int b.r 1) 1 ≡ b.r = omega arith in
      let in_len : ltb b.r (len_of b.bytes) ≡ true = ground arith in
      let next : add_int b.r 1 ≡ b.r + 1 = omega arith in
      rw (rest, more, place, in_len, found)
        (
          record b { r = add_int b.r 1 },
          refl,
          (let lt : b.r < b.w = ground arith in omega arith),
          rw next,
          refl,
        )
]
