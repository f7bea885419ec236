-- ===== src/Buf/Buffer/Refine/Writes.antt =====
-- Write, WriteString and WriteByte do what the abstract buffer does.
use qtfra.Common.{
  ℕ, ◌+◌, ◌-◌, ◌≤◌, ◌≡◌, ◌⊎◌, ◌∙◌, some, true, false, List, [], ◌∷◌, none, refl, ap, min, inl, inr,
  arith,
}
use qtfra.Common.Tests.{ltb, nat_beq, Bool-cases}
use qtfra.Common.Lists.{length, take, window, length-take, take_all}
use qtfra.Common.Windows.{length-window, take-min}
use qtfra.Common.Words.{max_int, add_int, lt_int}
use qtfra.Common.Outcomes.{returns}
use qtfra.Ex.Error.{leaf, short_buffer}
use qtfra.Buf.Slice.{len_of, arr_of, sub_slice}
use qtfra.Buf.Buffer.{Buffer, append, write, write_string, write_byte}
use qtfra.Buf.Buffer.Valid.{IsValid, free_bytes-valid, length-free_bytes}
use qtfra.Buf.Buffer.Pipe.{
  Pipe, Op, writes, writes_string, writes_byte, reads, reads_byte, discards, peeks, Reply, fails,
  gives, accept, yield,
}
use qtfra.Buf.Buffer.Pipe
use qtfra.Buf.Buffer.Refine.{view, counted, call, Does, refused, accepted, accepted_none}

pub write_valid :
    {b : Buffer} (bs : List ℕ)
    → IsValid b
    → nat_beq b.w b.size ≡ false
    → nat_beq (length bs) 0 ≡ false
    → let k = min (b.size - b.w) (length bs) in
      write bs b ≡ returns ((k, none), append b (take k bs))
unfolding write
write_valid {b} bs v room some_bytes =
    rw (room, some_bytes, free_bytes-valid v, length-free_bytes v, ← take-min (b.size - b.w) bs)
      (ap (λ i. returns ((i, none), append b (take (min (b.size - b.w) (length bs)) bs))) all)
  where
    all : length (take (min (b.size - b.w) (length bs)) bs) ≡ min (b.size - b.w) (length bs)
    all = omega (arith, length-take (min (b.size - b.w) (length bs)) bs)

pub write-Does :
    {b : Buffer} (bs : List ℕ)
    → IsValid b
    → b.size + length bs ≤ max_int
    → Does b.size (call (writes bs) b) (Pipe.step (writes bs) (view b))
unfolding call Pipe.step
write-Does {b} bs v h = elim (Bool-cases (nat_beq b.w b.size)) [
  | inl full ↦
      let t : nat_beq (b.size - b.w) 0 ≡ true = ground arith in
      rw t (refused v (unfold write in rw full))
  | inr room ↦
      let t : nat_beq (b.size - b.w) 0 ≡ false = ground arith in
      rw t (elim (Bool-cases (nat_beq (length bs) 0)) [
        | inl empty ↦ accepted_none bs _ v (ground arith) (unfold write in rw (room, empty))
        | inr more ↦
            accepted bs _ v (omega arith) (omega arith) (ap counted (write_valid bs v room more))
      ])
]

pub write_string_valid :
    {b : Buffer} (s : List ℕ)
    → IsValid b
    → nat_beq (length s) 0 ≡ false
    → length s ≤ b.size - b.w
    → write_string s b ≡ returns ((length s, none), append b (take (length s) s))
unfolding write_string
write_string_valid {b} s v more fits =
    rw (more, under, found, room, take_all (length s) s (omega arith)) refl
  where
    under : lt_int b.size (add_int b.w (length s)) ≡ false
    under = ground arith

    found :
        sub_slice b.bytes b.w (add_int b.w (length s))
        ≡ returns (window (arr_of b.bytes) b.w (b.w + length s))
    found = ground arith

    room : length (window (arr_of b.bytes) b.w (b.w + length s)) ≡ length s
    room = omega (arith, length-window (arr_of b.bytes) b.w (b.w + length s) (omega arith))

-- The buffer's own WriteString: it takes all of the string, or nothing and reports a short buffer.
pub write_string-cases :
    {b : Buffer} (s : List ℕ)
    → IsValid b
    → b.size + length s ≤ max_int
    → (length s ≡ 0) × (write_string s b ≡ returns ((0, none), b))
      ⊎ (b.w + length s ≤ b.size) × (write_string s b ≡ returns ((length s, none), append b s))
      ⊎ (write_string s b ≡ returns ((0, some (leaf short_buffer)), b))
unfolding write_string
write_string-cases {b} s v small = elim (Bool-cases (nat_beq (length s) 0)) [
  | inl empty ↦ inl (ground arith, rw empty refl)
  | inr more ↦ elim (Bool-cases (ltb (b.size - b.w) (length s))) [
    | inl over ↦
        let past : lt_int b.size (add_int b.w (length s)) ≡ true = ground arith in
        inr (inr (rw (more, past) refl))
    | inr fits ↦
        let all = take_all (length s) s (omega arith) in
        inr (
          inl (
            ground arith,
            write_string_valid s v more (ground arith)
                ∙ ap (λ t. returns ((length s, none), append b t)) all,
          ))
  ]
]

pub write_string-Does :
    {b : Buffer} (s : List ℕ)
    → IsValid b
    → b.size + length s ≤ max_int
    → Does b.size (call (writes_string s) b) (Pipe.step (writes_string s) (view b))
unfolding call Pipe.step
write_string-Does {b} s v h = elim (Bool-cases (ltb (b.size - b.w) (length s))) [
  | inl long ↦
      let more : nat_beq (length s) 0 ≡ false = ground arith in
      let over : lt_int b.size (add_int b.w (length s)) ≡ true = ground arith in
      rw long (refused v (unfold write_string in rw (more, over)))
  | inr fits ↦ rw fits (elim (Bool-cases (nat_beq (length s) 0)) [
    | inl empty ↦ accepted_none s _ v (ground arith) (unfold write_string in rw empty)
    | inr more ↦
        accepted s (length s) v (ground arith) (omega arith)
          (ap counted (write_string_valid s v more (ground arith)))
  ])
]

pub write_byte-cases :
    {b : Buffer} (x : ℕ)
    → IsValid b
    → (write_byte x b ≡ returns (some (leaf short_buffer), b))
      ⊎ (b.w + length (x ∷ []) ≤ b.size) × (write_byte x b ≡ returns (none, append b (x ∷ [])))
unfolding write_byte
write_byte-cases {b} x v = elim (Bool-cases (nat_beq b.w b.size)) [
  | inl full ↦ inl (rw full refl)
  | inr room ↦
      let in_len : ltb b.w (len_of b.bytes) ≡ true = ground arith in
      inr (ground arith, rw (room, in_len) refl)
]

pub write_byte-Does :
    {b : Buffer} (x : ℕ)
    → IsValid b
    → Does b.size (call (writes_byte x) b) (Pipe.step (writes_byte x) (view b))
unfolding call write_byte Pipe.step
write_byte-Does {b} x v = elim (Bool-cases (nat_beq b.w b.size)) [
  | inl full ↦
      let t : nat_beq (b.size - b.w) 0 ≡ true = ground arith in rw (t, full) (refused v refl)
  | inr room ↦
      let t : nat_beq (b.size - b.w) 0 ≡ false = ground arith in
      let in_len : ltb b.w (len_of b.bytes) ≡ true = ground arith in
      rw (t, room, in_len) (accepted (x ∷ []) 1 v (ground arith) (omega arith) refl)
]
