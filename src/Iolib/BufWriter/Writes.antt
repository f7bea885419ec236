-- ===== src/Iolib/BufWriter/Writes.antt =====
-- The three Write methods of a BufWriter.
use qtfra.Common.{
  ℕ, zero, suc, ◌+◌, ◌-◌, ◌≤◌, ◌<◌, ◌≡◌, true, false, ◌||◌, List, [], ◌∷◌, ◌++◌, Option, none, some,
  refl, sym, ap, ◌∙◌, append-nil, inl, inr, arith, min,
}
use qtfra.Common.Tests.{ltb, leb, nat_beq, Bool-cases, Option-cases}
use qtfra.Common.Lists.{length, take, window, take_all}
use qtfra.Common.Words.{max_int}
use qtfra.Common.Outcomes.{returns, ◌>>=◌}
use qtfra.Ex.Error.{Error, cause, leaf, is, short_buffer}
use qtfra.Buf.Slice.{arr_of}
use qtfra.Buf.Buffer.{append, cap', write_string}
use qtfra.Buf.Buffer.Valid.{IsValid, contents, length-contents, free_bytes-valid, length-free_bytes}
use qtfra.Buf.Buffer.Refine.Writes.{write_valid, write_string-cases, write_byte-cases}
use qtfra.Buf.Buffer.Stream.{WriteCall}
use qtfra.Iolib.BufWriter.{
  BufWriter, Returns, write_through, write_loop, write_bytes, write_text, then_byte, write_one,
}
use qtfra.Iolib.BufWriter.Ordered.{Honest, fuel_for, Takes, flush-Takes}
use qtfra.Iolib.BufWriter.Written.{
  no_bytes, Written, OneWritten, appended, append-cap, put-Written, nothing-Written, caught_up,
  chain, after-Written, stays,
}

module _ {W : Type 0} (write_call : WriteCall W) (log : W → List ℕ)
    (h : Honest write_call log) where
  -- The bytes go past an empty buffer.
  through-Written :
      {b : BufWriter W} (bs : List ℕ) (mid : BufWriter W) (res : Returns W (ℕ × Option Error))
      → Takes write_call log [] b mid
      → mid.buffer.r ≡ mid.buffer.w
      → res ≡ returns (write_through write_call bs mid)
      → Written write_call log bs b res
  through-Written {b} bs mid res t empty e =
      let (n, err, s') = write_call mid.underlay bs in
      let none_left =
        no_bytes (contents mid.buffer) (omega (arith, length-contents t.still_valid)) in
      record {
        count = n;
        err = err;
        after = record mid { underlay = s' };
        returned = e;
        count_le = h.write_le mid.underlay bs;
        takes = record {
          in_order =
              ap (◌++◌ (log s')) none_left
              ∙ (append-nil (log s')
                  ∙ (h.logs mid.underlay bs
                      ∙ ap (λ l. l ++ take n bs) (caught_up write_call log t none_left)));
          still_valid = t.still_valid;
          size_stays = t.size_stays;
          cap_stays = t.cap_stays;
          array_stays = t.array_stays;
          kind_stays = t.kind_stays;
        };
        all_or_error = h.all_or_error mid.underlay bs;
      }

  loop-Written :
      (fuel : ℕ) {b : BufWriter W} (bs : List ℕ)
      → IsValid b.buffer
      → b.buffer.w + length bs ≤ b.buffer.size
      → 0 < fuel
      → Written write_call log bs b (write_loop write_call fuel 0 bs b)
  unfolding write_loop
  loop-Written zero bs v room f = absurd (omega arith)
  loop-Written (suc fuel) {b} bs v room f = elim (Bool-cases (leb (length bs) 0)) [
    | inl empty ↦
        rw empty (
          nothing-Written write_call log b none (stays write_call log b v) (λ e. ground arith) refl)
    | inr more ↦
        let not_full : nat_beq b.buffer.w b.buffer.size ≡ false = ground arith in
        let some_bytes : nat_beq (length bs) 0 ≡ false = ground arith in
        let all : min (b.buffer.size - b.buffer.w) (length bs) ≡ length bs = omega arith in
        let plain : 0 + length bs ≡ length bs = omega arith in
        let whole : nat_beq (length bs) (length bs) ≡ true = ground arith in
        rw (more, write_valid bs v not_full some_bytes, all, take_all (length bs) bs (omega arith))
          (put-Written write_call log bs _ v room (rw (plain, whole) refl))
  ]

  -- Write takes the first bytes of what it is given, behind all that was written before and each
  -- once, and leaves a well-formed buffer of the same size; unless it reports an error it took all.
  -- It returns for every writer that keeps the contract of io.Writer, on a well-formed buffer, with
  -- 102 rounds for each byte of the buffer and 101 more.
  pub write_bytes-Written :
      (fuel : ℕ) (b : BufWriter W) (bs : List ℕ)
      → IsValid b.buffer
      → fuel_for write_call log b ≤ fuel
      → Written write_call log bs b (write_bytes write_call fuel bs b)
  unfolding write_bytes
  write_bytes-Written fuel b bs v f =
      let room = window (arr_of b.buffer.bytes) b.buffer.w b.buffer.size in
      let n = length-free_bytes v in
      rw (free_bytes-valid v)
        (elim (Bool-cases (ltb (cap' b.buffer) (length bs) || ltb (length room) (length bs))) [
          | inl past ↦
              let (err, mid, e, t, empty) = flush-Takes write_call log h fuel b v f in
              rw (past, e)
                (elim (Option-cases err) [
                  | inl fine ↦ through-Written bs mid _ t (empty fine) (rw fine refl)
                  | inr (failure, failed) ↦
                      nothing-Written write_call log mid (some (cause failure "flush")) t
                        (λ e. absurd (ground arith)) (rw failed refl)
                ])
          | inr fits ↦ rw fits (loop-Written fuel bs v (ground arith) (omega arith))
        ])

  string-Written :
      {b : BufWriter W} (s : List ℕ) (res : Returns W (ℕ × Option Error))
      → IsValid b.buffer
      → b.buffer.size + length s ≤ max_int
      → res ≡ (write_string s b.buffer >>= λ put. returns (put.0, record b { buffer = put.1 }))
      → Written write_call log s b res
  string-Written {b} s res v small e = elim (write_string-cases s v small) [
    | inl (empty, e') ↦
        nothing-Written write_call log b none (stays write_call log b v) (λ fine. sym empty)
          (e ∙ rw e' refl)
    | inr (inl (room, e')) ↦ put-Written write_call log s res v room (e ∙ rw e' refl)
    | inr (inr e') ↦
        nothing-Written write_call log b (some (leaf short_buffer)) (stays write_call log b v)
          (λ fine. absurd (ground arith)) (e ∙ rw e' refl)
  ]

  -- WriteString does the same with a string, if the size of the buffer and the string's together fit
  -- an int.
  pub write_text-Written :
      (fuel : ℕ) (b : BufWriter W) (s : List ℕ)
      → IsValid b.buffer
      → fuel_for write_call log b ≤ fuel
      → b.buffer.size + length s ≤ max_int
      → Written write_call log s b (write_text write_call fuel s b)
  unfolding write_text is
  write_text-Written fuel b s v f small = elim (write_string-cases s v small) [
    | inl (empty, e) ↦
        rw e (
          nothing-Written write_call log b none (stays write_call log b v) (λ fine. sym empty) refl)
    | inr (inl (room, e)) ↦ rw e (put-Written write_call log s _ v room refl)
    | inr (inr e) ↦
        let (err, mid, done, t, empty) = flush-Takes write_call log h fuel b v f in
        rw (e, done)
          (elim (Option-cases err) [
            | inr (failure, failed) ↦
                nothing-Written write_call log mid (some failure) t (λ e. absurd (ground arith))
                  (rw failed refl)
            | inl fine ↦ elim (Bool-cases (leb (cap' mid.buffer) (length s))) [
              | inl long ↦ through-Written s mid _ t (empty fine) (rw (fine, long) refl)
              | inr short ↦ after-Written write_call log t (
                  string-Written s _ t.still_valid (omega (arith, t.size_stays))
                    (rw (fine, short) refl))
            ]
          ])
  ]

  byte-OneWritten :
      {b : BufWriter W} (x : ℕ)
      → IsValid b.buffer
      → (err : Option Error) × (after : BufWriter W) × (then_byte write_call x none b
          ≡ returns (err, after))
        × OneWritten write_call log x b err after
  byte-OneWritten {b} x v = elim (write_byte-cases x v) [
    | inl e ↦ (some (leaf short_buffer), b, rw e refl, stays write_call log b v)
    | inr (room, e) ↦ (
      none,
      record b { buffer = append b.buffer (x ∷ []) },
      rw e refl,
      appended write_call log (x ∷ []) v room (append-cap write_call log b.buffer (x ∷ [])),
    )
  ]

  after-OneWritten :
      {b mid : BufWriter W} (after : BufWriter W) (x : ℕ) (err : Option Error)
      → Takes write_call log [] b mid
      → OneWritten write_call log x mid err after
      → OneWritten write_call log x b err after
  after-OneWritten after x none t u = chain write_call log t u
  after-OneWritten after x (some err) t u = chain write_call log t u

  -- WriteByte, where it reports no error, puts its byte behind all that was written before; where it
  -- reports one, nothing was taken. Nothing else is lost or reordered, on a well-formed buffer, for
  -- every writer that keeps the contract of io.Writer, with the fuel of a Flush.
  pub write_one-OneWritten :
      (fuel : ℕ) (b : BufWriter W) (x : ℕ)
      → IsValid b.buffer
      → fuel_for write_call log b ≤ fuel
      → (err : Option Error) × (after : BufWriter W) × (write_one write_call fuel x b
          ≡ returns (err, after))
        × OneWritten write_call log x b err after
  unfolding write_one
  write_one-OneWritten fuel b x v f =
      let room = window (arr_of b.buffer.bytes) b.buffer.w b.buffer.size in
      rw (free_bytes-valid v) (elim (Bool-cases (nat_beq (length room) 0)) [
        | inr more ↦ rw more (byte-OneWritten x v)
        | inl full ↦
            let (err, mid, e, t, _) = flush-Takes write_call log h fuel b v f in
            rw (full, e)
              (elim (Option-cases err) [
                | inr (failure, failed) ↦ (some (cause failure "flush"), mid, rw failed refl, t)
                | inl fine ↦
                    let (err', after, e', u) = byte-OneWritten {b = mid} x t.still_valid in
                    (err', after, rw fine e', after-OneWritten after x err' t u)
              ])
      ])
