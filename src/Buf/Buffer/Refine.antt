-- ===== src/Buf/Buffer/Refine.antt =====
-- The relation between a buffer and the abstract buffer, and the forms that a step can take.
pub mod Writes
pub mod Reads
pub mod Calls
use qtfra.Common.{
  ℕ, zero, suc, ◌+◌, ◌-◌, ◌≤◌, ◌<◌, ◌≡◌, ◌⊎◌, ◌≢◌, Bool, true, false, List, [], ◌∷◌, ◌++◌, Option,
  none, some, refl, ap, ap₂, ◌∙◌, sym, append-nil, min, inl, inr, arith,
}
use qtfra.Common.Tests.{leb, ltb, nat_beq, if◌then◌else◌, Bool-cases}
use qtfra.Common.Lists.{length, take, drop, window, get_elem?, length-take, take_all}
use qtfra.Common.Windows.{window-drop, window-take, length-window, window-cons, drop-min, take-min}
use qtfra.Common.Words.{max_int, add_int, sub_int, is_neg, lt_int, sign_bit}
use qtfra.Common.Outcomes.{Outcome, returns, panics, runs_on, ◌>>=◌}
use qtfra.Ex.Error.{Error, leaf, eof}
use qtfra.Buf.Slice.{Slice, len_of, arr_of, cap_of, in_range, sub_slice}
use qtfra.Buf.Buffer.{
  Buffer, append, read, read_byte, write, write_string, write_byte, discard, peek, bytes_of,
  free_bytes,
}
use qtfra.Buf.Buffer.Valid.{
  IsValid, contents, length-contents, bytes_of-valid, free_bytes-valid, length-free_bytes,
  append-IsValid,
}
use qtfra.Buf.Buffer.Pipe.{
  Pipe, Op, writes, writes_string, writes_byte, reads, reads_byte, discards, peeks, Reply, fails,
  gives, accept, yield,
}
use qtfra.Buf.Buffer.Pipe

abbrev pub view : Buffer → Pipe
view b = record { pending = contents b; room = b.size - b.w }

-- A call of the buffer's methods, with what it returns put into the form of a reply.
abbrev pub counted : Outcome ((ℕ × Option Error) × Buffer) → Outcome (Reply × Buffer)
counted m = m >>= λ res. returns (record { count = res.0.0; bytes = []; error = res.0.1 }, res.1)

abbrev pub texts : Outcome ((List ℕ × Option Error) × Buffer) → Outcome (Reply × Buffer)
texts m = m >>= λ res.
    returns (record { count = length res.0.0; bytes = res.0.0; error = res.0.1 }, res.1)

unfoldable pub call : Op → Buffer → Outcome (Reply × Buffer)
call (writes bs) b = counted (write bs b)
call (writes_string s) b = counted (write_string s b)
call (writes_byte x) b =
    write_byte x b >>= λ res. returns (elim res.0 [ none ↦ gives 1 [] | some e ↦ fails e ], res.1)
call (reads k) b = texts (read k b)
call reads_byte b = read_byte b >>= λ res.
    returns (elim res.0.1 [ none ↦ gives 1 (res.0.0 ∷ []) | some e ↦ fails e ], res.1)
call (discards n) b = counted (discard n b)
call (peeks n) b = texts (peek n b)

-- The sums that the call makes fit an `int`.
abbrev pub Fits : ℕ → Op → Type 0
Fits size (writes bs) = size + length bs ≤ max_int
Fits size (writes_string s) = size + length s ≤ max_int
Fits size (writes_byte x) = Unit
Fits size (reads k) = Unit
Fits size reads_byte = Unit
Fits size (discards n) = (size + n ≤ max_int) ⊎ (is_neg n ≡ true)
Fits size (peeks n) = (size + n ≤ max_int) ⊎ (is_neg n ≡ true)

-- The call returns the reply, and leaves a well-formed buffer of the same size with that view.
abbrev pub Does : ℕ → Outcome (Reply × Buffer) → Reply × Pipe → Type 0
Does size m (reply, p) =
    (b : Buffer) × (m ≡ returns (reply, b)) × IsValid b × (view b ≡ p) × (b.size ≡ size)

pub refused :
    {b : Buffer} {m : Outcome (Reply × Buffer)} {e : Error}
    → IsValid b
    → m ≡ returns (fails e, b)
    → Does b.size m (fails e, view b)
refused {b} v h = (b, h, v, refl, refl)

pub accepted :
    {b : Buffer} {m : Outcome (Reply × Buffer)} (bs : List ℕ) (k : ℕ)
    → IsValid b
    → k ≤ b.size - b.w
    → k ≤ length bs
    → m ≡ returns (gives k [], append b (take k bs))
    → Does b.size m (accept (view b) bs k)
accepted {b} bs k v h l e =
    let n : length (take k bs) ≡ k = omega (arith, length-take k bs) in
    let a = append-IsValid (take k bs) v (omega arith) in
    (
      append b (take k bs),
      e,
      a.0,
      ap₂ (λ t q. record { pending = t; room = q }) a.1 (omega (arith, a.2)),
      refl,
    )

pub yielded :
    {b : Buffer} {m : Outcome (Reply × Buffer)} {reply : Reply} (k j : ℕ)
    → IsValid b
    → j ≡ min k (length (contents b))
    → m ≡ returns (reply, record b { r = b.r + j })
    → Does b.size m (reply, yield (view b) k)
yielded {b} k j v h e =
    let n = length-contents v in
    (
      record b { r = b.r + j },
      e,
      omega arith,
      ap (λ t. record { pending = t; room = b.size - b.w })
          (window-drop (arr_of b.bytes) b.r (b.r + j) b.w (omega arith) (omega arith)
            ∙ ap (λ i. drop i (contents b)) (omega arith)
            ∙ drop-min k (contents b)),
      refl,
    )

pub accepted_none :
    {b : Buffer} {m : Outcome (Reply × Buffer)} (bs : List ℕ) (k : ℕ)
    → IsValid b
    → k ≡ 0
    → m ≡ returns (gives 0 [], b)
    → Does b.size m (accept (view b) bs k)
accepted_none {b} bs k v z e = (
  b,
  rw z e,
  v,
  rw z
      (ap₂ (λ t q. record { pending = t; room = q }) (sym (append-nil (contents b))) (omega arith)),
  refl,
)
