-- ===== src/Buf/Buffer/Stream/ReadFrom.antt =====
-- ReadFrom stores what the reader delivers, and ends.
use qtfra.Common.{
  ℕ, zero, suc, ◌+◌, ◌-◌, ◌*◌, ◌%◌, ◌≤◌, ◌<◌, ◌≡◌, false, List, [], ◌∷◌, ◌++◌, Option, none, some,
  refl, ap, ◌∙◌, append_assoc, append-nil, inl, inr, arith,
}
use qtfra.Common.Tests.{ltb, nat_beq, if◌then◌else◌, Bool-cases, Option-cases}
use qtfra.Common.Lists.{length, take_all, length-append}
use qtfra.Common.Words.{max_int, word_mod}
use qtfra.Common.Outcomes.{returns}
use qtfra.Ex.Error.{Error}
use qtfra.Buf.Buffer.{Buffer, append, is_full}
use qtfra.Buf.Buffer.Valid.{IsValid, contents, free_bytes-valid, length-free_bytes, append-IsValid}
use qtfra.Buf.Buffer.Stream.Rounds.{
  Round, EndsWith, EndsWith-before, ends_done, ends_stuck, ends_failed,
}
use qtfra.Buf.Buffer.Stream.{ReadCall, Result, no_eof, next_round, read_from_loop, read_from}

module _ {R : Type 0} (read_call : ReadCall R) where
  -- What the reader delivers to calls with the given lengths, and its state after them.
  abbrev pub deliver : List ℕ → R → List ℕ × R
  deliver [] s = ([], s)
  deliver (k ∷ ks) s =
      let (chunk, err, s') = read_call s k in
      let (rest, last) = deliver ks s' in (chunk ++ rest, last)

  -- How many bytes each of these calls delivered, and its error.
  abbrev pub rounds : List ℕ → R → List Round
  rounds [] s = []
  rounds (k ∷ ks) s = let (chunk, err, s') = read_call s k in (length chunk, err) ∷ rounds ks s'

  abbrev shown : Error → Option Error
  shown e = no_eof (some e)

  pub record Filled (b : Buffer) (s : R) (retry n : ℕ) (res : Result R) : Type 0 where
    pub lengths : List ℕ
    pub chunks : List ℕ
    pub err : Option Error
    pub after : Buffer
    pub last : R
    pub returned : res ≡ returns (n + length chunks, err, after, last)
    pub delivered : deliver lengths s ≡ (chunks, last)
    pub valid : IsValid after
    pub appended : contents after ≡ contents b ++ chunks
    pub stops : EndsWith retry (after.w ≡ after.size) shown (rounds lengths s) err

  module _ (read_le : (s : R) (k : ℕ) → length (read_call s k).0 ≤ k) where
    loop_step :
        (fuel n retry : ℕ) {b : Buffer} (s : R)
        → IsValid b
        → n + (b.size - b.w) ≤ max_int
        → let (chunk, err, s') = read_call s (b.size - b.w) in
          let retry' = (if nat_beq (length chunk) 0 then retry + 1 else 0) in
          read_from_loop read_call (suc fuel) n retry b s
          ≡ next_round err
              (no_eof err)
              (is_full (append b chunk))
              (n + length chunk)
              retry'
              (append b chunk)
              s'
              (read_from_loop read_call fuel (n + length chunk) retry' (append b chunk) s')
    unfolding read_from_loop
    loop_step fuel n retry {b} s v m =
        let fits = read_le s (b.size - b.w) in
        let sum : (n + length (read_call s (b.size - b.w)).0) % word_mod
            ≡ n + length (read_call s (b.size - b.w)).0 =
          omega arith in
        rw (
          free_bytes-valid v,
          length-free_bytes v,
          take_all (b.size - b.w) (read_call s (b.size - b.w)).0 fits,
          sum,
        )

    module _ (n retry : ℕ) {b : Buffer} (s : R) (v : IsValid b) where
      -- The loop ends in the round that stores the chunk.
      last_round :
          {res : Result R} {err : Option Error}
          → let (chunk, e, s') = read_call s (b.size - b.w) in
            res ≡ returns (n + length chunk, err, append b chunk, s')
            → EndsWith retry ((append b chunk).w ≡ b.size) shown ((length chunk, e) ∷ []) err
            → Filled b s retry n res
      last_round {err = err} e why =
          let (chunk, _, s') = read_call s (b.size - b.w) in
          let a =
            append-IsValid chunk v (omega (arith, read_le s (b.size - b.w), v.write_le_size)) in
          record {
            lengths = (b.size - b.w) ∷ [];
            chunks = chunk;
            err = err;
            after = append b chunk;
            last = s';
            returned = e;
            delivered = ap (λ t. (t, s')) (append-nil chunk);
            valid = a.0;
            appended = a.1;
            stops = why;
          }

      -- The loop goes on after that round.
      more_rounds :
          {res : Result R}
          → let (chunk, e, s') = read_call s (b.size - b.w) in
            let retry' = (if nat_beq (length chunk) 0 then retry + 1 else 0) in
            e ≡ none
            → Filled (append b chunk) s' retry' (n + length chunk) res
            → Filled b s retry n res
      more_rounds fine f =
          let (chunk, e, s') = read_call s (b.size - b.w) in
          let a =
            append-IsValid chunk v (omega (arith, read_le s (b.size - b.w), v.write_le_size)) in
          record {
            lengths = (b.size - b.w) ∷ f.lengths;
            chunks = chunk ++ f.chunks;
            err = f.err;
            after = f.after;
            last = f.last;
            returned =
                f.returned
                ∙ ap (λ i. returns (i, f.err, f.after, f.last))
                    (omega (arith, length-append chunk f.chunks));
            delivered = ap (λ d. (chunk ++ d.0, d.1)) f.delivered;
            valid = f.valid;
            appended =
                f.appended ∙ ap (λ t. t ++ f.chunks) a.1 ∙ append_assoc (contents b) chunk f.chunks;
            stops = rw fine (EndsWith-before retry (length chunk) f.stops);
          }

    loop-Filled :
        (fuel n retry : ℕ) {b : Buffer} (s : R)
        → IsValid b
        → b.w < b.size
        → retry ≤ 100
        → n + (b.size - b.w) ≤ max_int
        → (b.size - b.w) * 102 + (100 - retry) < fuel
        → Filled b s retry n (read_from_loop read_call fuel n retry b s)
    loop-Filled zero n retry s v lt r m f = absurd (omega arith)
    loop-Filled (suc fuel) n retry {b} s v lt r m f =
        let k = b.size - b.w in
        let (chunk, err, s') = read_call s k in
        let fits : length chunk ≤ k = read_le s k in
        let a = append-IsValid chunk v (omega arith) in
        let retry' = (if nat_beq (length chunk) 0 then retry + 1 else 0) in
        rw (loop_step fuel n retry s v m) (elim (Option-cases err) [
          | inr (e, failed) ↦
              rw failed (last_round n retry s v refl (ends_failed retry (length chunk) failed))
          | inl fine ↦ rw fine (elim (Bool-cases (is_full (append b chunk))) [
            | inl full ↦
                rw full
                  (last_round n retry s v refl (ends_done retry (length chunk) fine (ground arith)))
            | inr room ↦ rw room (elim (Bool-cases (ltb 100 retry')) [
              | inl stuck ↦
                  rw stuck
                    (last_round n retry s v refl (ends_stuck retry (length chunk) fine r stuck))
              | inr again ↦ rw again (
                  more_rounds n retry s v fine (
                    loop-Filled fuel (n + length chunk) retry' s' a.0 (ground (arith, a.2))
                      (ground arith) (omega (arith, a.2)) (ground (arith, a.2))))
            ])
          ])
        ])

    -- On a well-formed buffer with room, ReadFrom returns whatever the reader does, if a Read stores at
    -- most as many bytes as its slice holds: it reports how many bytes the reader delivered, these
    -- bytes stand in order behind the contents in a well-formed buffer. It stopped because the buffer is
    -- full, or with ErrNoProgress after a hundred and one empty reads in a row, in both cases without an
    -- error of the reader before, or at the reader's first error, where an end of file is reported as no
    -- error. A hundred and two rounds for each free byte, and a hundred and one more, are enough.
    pub read_from-Filled :
        (fuel : ℕ) {b : Buffer} (s : R)
        → IsValid b
        → b.w < b.size
        → (b.size - b.w) * 102 + 100 < fuel
        → Filled b s 0 0 (read_from read_call fuel b s)
    unfolding read_from
    read_from-Filled fuel {b} s v lt f =
        let room : is_full b ≡ false = ground arith in
        rw room (loop-Filled fuel 0 0 s v lt (omega arith) (omega arith) (omega arith))
