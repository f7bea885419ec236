-- ===== src/Buf/Buffer/Stream/WriteTo.antt =====
-- WriteTo hands its contents to the writer in order, and ends.
use qtfra.Common.{
  ℕ, zero, suc, ◌+◌, ◌-◌, ◌*◌, ◌%◌, ◌≤◌, ◌<◌, ◌≡◌, false, List, [], ◌∷◌, ◌++◌, Option, none, some,
  refl, sym, ap, ap₂, ◌∙◌, append_assoc, append-nil, inl, inr, arith,
}
use qtfra.Common.Tests.{ltb, nat_beq, if◌then◌else◌, Bool-cases, Option-cases}
use qtfra.Common.Lists.{length, take, drop, length-append, length-take, take-append-drop}
use qtfra.Common.Windows.{window-drop}
use qtfra.Common.Words.{max_int, word_mod}
use qtfra.Common.Outcomes.{returns}
use qtfra.Ex.Error.{Error}
use qtfra.Buf.Slice.{arr_of}
use qtfra.Buf.Buffer.{Buffer, is_empty}
use qtfra.Buf.Buffer.Valid.{IsValid, contents, bytes_of-valid, length-contents}
use qtfra.Buf.Buffer.Stream.Rounds.{
  Round, EndsWith, EndsWith-before, ends_done, ends_stuck, ends_failed,
}
use qtfra.Buf.Buffer.Stream.{WriteCall, Result, next_round, write_to_loop, write_to}

-- The buffer after its first bytes have been read.
abbrev pub advance : Buffer → ℕ → Buffer
advance b k = record b { r = b.r + k }

pub advance-IsValid :
    {b : Buffer} (k : ℕ)
    → IsValid b
    → k ≤ length (contents b)
    → IsValid (advance b k) × (contents (advance b k) ≡ drop k (contents b))
advance-IsValid {b} k v h =
    let n = length-contents v in
    let k' : b.r + k - b.r ≡ k = omega arith in
    (
      omega arith,
      window-drop (arr_of b.bytes) b.r (b.r + k) b.w (omega arith) (omega arith)
          ∙ ap (λ i. drop i (contents b)) k',
    )

module _ {W : Type 0} (write_call : WriteCall W) where
  -- Offers the bytes that are left, over and over: what the writer takes, what is left, its state.
  abbrev pub offer : ℕ → List ℕ → W → List ℕ × List ℕ × W
  offer zero waiting s = ([], waiting, s)
  offer (suc rounds) waiting s =
      let (nn, err, s') = write_call s waiting in
      let (taken, left, last) = offer rounds (drop nn waiting) s' in
      (take nn waiting ++ taken, left, last)

  -- How many bytes the writer took of each offer, and its error.
  abbrev pub offers : ℕ → List ℕ → W → List Round
  offers zero waiting s = []
  offers (suc rounds) waiting s =
      let (nn, err, s') = write_call s waiting in (nn, err) ∷ offers rounds (drop nn waiting) s'

  pub record Drained (b : Buffer) (s : W) (retry n : ℕ) (res : Result W) : Type 0 where
    pub rounds : ℕ
    pub taken : List ℕ
    pub err : Option Error
    pub after : Buffer
    pub last : W
    pub returned : res ≡ returns (n + length taken, err, after, last)
    pub offered : offer rounds (contents b) s ≡ (taken, contents after, last)
    pub nothing_lost : taken ++ contents after ≡ contents b
    pub valid : IsValid after
    pub same_size : after.size ≡ b.size
    pub same_bytes : after.bytes ≡ b.bytes
    pub same_kind : after.managed ≡ b.managed
    pub stops : EndsWith retry (after.r ≡ after.w) some (offers rounds (contents b) s) err

  module _ (write_le : (s : W) (bs : List ℕ) → (write_call s bs).0 ≤ length bs) where
    loop_step :
        (fuel n retry : ℕ) {b : Buffer} (s : W)
        → IsValid b
        → n + length (contents b) ≤ max_int
        → let (nn, err, s') = write_call s (contents b) in
          let retry' = (if nat_beq nn 0 then retry + 1 else 0) in
          write_to_loop write_call (suc fuel) n retry b s
          ≡ next_round err err
              (is_empty (advance b nn))
              (n + nn)
              retry'
              (advance b nn)
              s'
              (write_to_loop write_call fuel (n + nn) retry' (advance b nn) s')
    unfolding write_to_loop
    loop_step fuel n retry {b} s v m =
        let (nn, err, s') = write_call s (contents b) in
        let fits = write_le s (contents b) in
        let sum : (n + nn) % word_mod ≡ n + nn = omega arith in
        let moved : (b.r + nn) % word_mod ≡ b.r + nn = omega (arith, length-contents v) in
        rw (bytes_of-valid v, sum, moved)

    module _ (n retry : ℕ) {b : Buffer} (s : W) (v : IsValid b) where
      taken_now :
          length (take (write_call s (contents b)).0 (contents b)) ≡ (write_call s (contents b)).0
      taken_now =
          omega
            (arith, length-take (write_call s (contents b)).0 (contents b), write_le s (contents b))

      -- The loop ends in this round.
      last_round :
          {res : Result W} {err : Option Error}
          → let (nn, e, s') = write_call s (contents b) in
            res ≡ returns (n + nn, err, advance b nn, s')
            → EndsWith retry (b.r + nn ≡ b.w) some ((nn, e) ∷ []) err
            → Drained b s retry n res
      last_round {err = err} e why =
          let (nn, _, s') = write_call s (contents b) in
          let a = advance-IsValid nn v (write_le s (contents b)) in
          record {
            rounds = 1;
            taken = take nn (contents b);
            err = err;
            after = advance b nn;
            last = s';
            returned = e ∙ ap (λ i. returns (n + i, err, advance b nn, s')) (sym taken_now);
            offered = ap₂ (λ t l. (t, l, s')) (append-nil (take nn (contents b))) (sym a.1);
            nothing_lost = ap (◌++◌ (take nn (contents b))) a.1 ∙ take-append-drop nn (contents b);
            valid = a.0;
            same_size = refl;
            same_bytes = refl;
            same_kind = refl;
            stops = why;
          }

      -- The loop goes on after this round.
      more_rounds :
          {res : Result W}
          → let (nn, e, s') = write_call s (contents b) in
            let retry' = (if nat_beq nn 0 then retry + 1 else 0) in
            e ≡ none → Drained (advance b nn) s' retry' (n + nn) res → Drained b s retry n res
      more_rounds fine f =
          let (nn, _, s') = write_call s (contents b) in
          let a = advance-IsValid nn v (write_le s (contents b)) in
          let now = take nn (contents b) in
          record {
            rounds = suc f.rounds;
            taken = now ++ f.taken;
            err = f.err;
            after = f.after;
            last = f.last;
            returned =
                f.returned
                ∙ ap (λ i. returns (i, f.err, f.after, f.last))
                    (omega (arith, length-append now f.taken, taken_now));
            offered =
                ap
                  (λ t. let (taken, left, last) = offer f.rounds t s' in (now ++ taken, left, last))
                  (sym a.1)
                ∙ ap (λ d. (now ++ d.0, d.1, d.2)) f.offered;
            nothing_lost =
                append_assoc now f.taken (contents f.after)
                ∙ ap (◌++◌ now) (f.nothing_lost ∙ a.1)
                ∙ take-append-drop nn (contents b);
            valid = f.valid;
            same_size = f.same_size;
            same_bytes = f.same_bytes;
            same_kind = f.same_kind;
            stops = rw (fine, ← a.1) (EndsWith-before retry nn f.stops);
          }

    loop-Drained :
        (fuel n retry : ℕ) {b : Buffer} (s : W)
        → IsValid b
        → b.r < b.w
        → retry ≤ 100
        → n + (b.w - b.r) ≤ max_int
        → (b.w - b.r) * 102 + (100 - retry) < fuel
        → Drained b s retry n (write_to_loop write_call fuel n retry b s)
    loop-Drained zero n retry s v lt r m f = absurd (omega arith)
    loop-Drained (suc fuel) n retry {b} s v lt r m f =
        let (nn, err, s') = write_call s (contents b) in
        let size = length-contents v in
        let fits : nn ≤ length (contents b) = write_le s (contents b) in
        let a = advance-IsValid nn v fits in
        let retry' = (if nat_beq nn 0 then retry + 1 else 0) in
        rw (loop_step fuel n retry s v (omega arith)) (elim (Option-cases err) [
          | inr (e, failed) ↦ rw failed (last_round n retry s v refl (ends_failed retry nn failed))
          | inl fine ↦ rw fine (elim (Bool-cases (is_empty (advance b nn))) [
            | inl done ↦
                rw done (last_round n retry s v refl (ends_done retry nn fine (ground arith)))
            | inr more ↦ rw more (elim (Bool-cases (ltb 100 retry')) [
              | inl stuck ↦
                  rw stuck (last_round n retry s v refl (ends_stuck retry nn fine r stuck))
              | inr again ↦ rw again (
                  more_rounds n retry s v fine (
                    loop-Drained fuel (n + nn) retry' s' a.0 (ground arith) (ground arith)
                      (omega arith) (ground arith)))
            ])
          ])
        ])

    -- On a well-formed buffer that holds bytes, WriteTo returns whatever the writer does, if a Write
    -- takes at most the bytes that it is given: it reports how many bytes were taken, the bytes taken
    -- are the first of the contents, in order, and the rest stays in a well-formed buffer. It stopped
    -- because nothing is left, or with ErrNoProgress after a hundred and one rounds in a row in which
    -- nothing was taken, in both cases without an error of the writer before, or at the writer's first
    -- error. A hundred and two rounds for each byte, and a hundred and one more, are enough.
    pub write_to-Drained :
        (fuel : ℕ) {b : Buffer} (s : W)
        → IsValid b
        → b.r < b.w
        → (b.w - b.r) * 102 + 100 < fuel
        → Drained b s 0 0 (write_to write_call fuel b s)
    unfolding write_to
    write_to-Drained fuel {b} s v lt f =
        let some_bytes : is_empty b ≡ false = ground arith in
        rw some_bytes (loop-Drained fuel 0 0 s v lt (omega arith) (omega arith) (omega arith))
