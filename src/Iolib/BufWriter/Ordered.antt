-- ===== src/Iolib/BufWriter/Ordered.antt =====
-- A BufWriter hands on what it takes, in order and once.
use qtfra.Common.{
  ℕ, zero, suc, ◌+◌, ◌*◌, ◌≤◌, ◌≡◌, List, [], ◌∷◌, ◌++◌, Option, none, some, refl, sym, ap, ◌∙◌,
  append_assoc, append-nil, inl, inr, arith,
}
use qtfra.Common.Tests.{nat_beq, Bool-cases, Option-cases}
use qtfra.Common.Lists.{length, take, drop}
use qtfra.Common.Outcomes.{Outcome, returns}
use qtfra.Ex.Error.{Error, cause}
use qtfra.Buf.Slice.{len_of, cap_of}
use qtfra.Buf.Buffer.{Buffer, cap', len, reset}
use qtfra.Buf.Buffer.Valid.{IsValid, contents, length-contents}
use qtfra.Buf.Buffer.Stream.{WriteCall}
use qtfra.Buf.Buffer.Stream.WriteTo.{offer, Drained, write_to-Drained}
use qtfra.Iolib.BufWriter.{BufWriter, flush, flushed}

-- io.Writer's contract, for a writer whose log is all that it ever took: it takes the first bytes of
-- what it is given, and reports an error when it takes fewer.
pub record Honest {W : Type 0} (write_call : WriteCall W) (log : W → List ℕ) : Type 0 where
  pub write_le : (s : W) (bs : List ℕ) → (write_call s bs).0 ≤ length bs
  pub logs : (s : W) (bs : List ℕ) → log (write_call s bs).2 ≡ log s ++ take (write_call s bs).0 bs
  pub all_or_error :
      (s : W) (bs : List ℕ) → (write_call s bs).1 ≡ none → (write_call s bs).0 ≡ length bs

module _ {W : Type 0} (write_call : WriteCall W) (log : W → List ℕ) where
  -- Everything that was written: what the underlay has, and what waits in the buffer.
  abbrev pub stream : BufWriter W → List ℕ
  stream b = log b.underlay ++ contents b.buffer

  -- The fuel that a flush of a buffer of this size takes.
  abbrev pub fuel_for : BufWriter W → ℕ
  fuel_for b = b.buffer.size * 102 + 101

  -- After a call that took the bytes: they stand behind what was written before, and the buffer is
  -- well-formed, as large as it was, and over an array of the same length.
  pub record Takes (bs : List ℕ) (b b' : BufWriter W) : Type 0 where
    pub in_order : stream b' ≡ stream b ++ bs
    pub still_valid : IsValid b'.buffer
    pub size_stays : b'.buffer.size ≡ b.buffer.size
    pub cap_stays : cap' b'.buffer ≡ cap' b.buffer
    pub array_stays : cap_of b'.buffer.bytes ≡ cap_of b.buffer.bytes
    pub kind_stays : b'.buffer.managed ≡ b.buffer.managed

  module _ (h : Honest write_call log) where
    log-offer :
        (rounds : ℕ) (waiting : List ℕ) (s : W)
        → let (taken, left, last) = offer write_call rounds waiting s in log last ≡ log s ++ taken
    log-offer zero waiting s = sym (append-nil (log s))
    log-offer (suc rounds) waiting s =
        let (nn, err, s') = write_call s waiting in
        let (taken, left, last) = offer write_call rounds (drop nn waiting) s' in
        log-offer rounds (drop nn waiting) s'
        ∙ (ap (λ t. t ++ taken) (h.logs s waiting) ∙ append_assoc (log s) (take nn waiting) taken)

    -- After WriteTo the writer has what it took, behind what it had.
    pub log-Drained :
        {b : Buffer} {s : W} {m : Outcome (ℕ × Option Error × Buffer × W)}
        (d : Drained write_call b s 0 0 m)
        → log d.last ≡ log s ++ d.taken
    log-Drained {b} {s} d =
        ap (λ o. log o.2) (sym d.offered)
        ∙ (log-offer d.rounds (contents b) s ∙ ap (λ o. log s ++ o.0) d.offered)

    drained :
        {b : Buffer} {s : W} {m : Outcome (ℕ × Option Error × Buffer × W)}
        (d : Drained write_call b s 0 0 m)
        → log d.last ++ contents d.after ≡ log s ++ contents b
    drained {b} {s} d =
        ap (λ t. t ++ contents d.after) (log-Drained d)
        ∙ (append_assoc (log s) d.taken (contents d.after) ∙ ap (◌++◌ (log s)) d.nothing_lost)

    pub waiting_none :
        {b : Buffer} {s : W} {m : Outcome (ℕ × Option Error × Buffer × W)}
        (d : Drained write_call b s 0 0 m)
        → d.err ≡ none
        → contents d.after ≡ []
    waiting_none d e = elim d.stops [
      | inl (_, done, _, _) ↦ none_left (contents d.after) (omega (arith, length-contents d.valid))
      | inr (inl (e', _)) ↦ absurd (ground arith)
      | inr (inr (_, _, err, _, e')) ↦ absurd (ground arith)
    ]
      where
        none_left : (xs : List ℕ) → length xs ≡ 0 → xs ≡ []
        none_left [] e = refl
        none_left (x ∷ xs) e = absurd (omega arith)

    -- Whether WriteTo reported an error or not, the end of Flush loses nothing.
    flushed-Takes :
        {b : BufWriter W} {m : Outcome (ℕ × Option Error × Buffer × W)}
        (d : Drained write_call b.buffer b.underlay 0 0 m)
        → (err : Option Error) × (b' : BufWriter W) × (flushed d.err
              (record { underlay = d.last; buffer = d.after })
            ≡ (err, b'))
          × Takes [] b b'
          × (err ≡ none → b'.buffer.r ≡ b'.buffer.w)
    flushed-Takes {b} d =
        let sum = drained d in
        let bounds = d.valid in
        elim (Option-cases d.err) [
          | inl fine ↦ rw fine (
            none,
            record { underlay = d.last; buffer = reset d.after },
            refl,
            record {
              in_order =
                  append-nil (log d.last)
                  ∙ (sym (append-nil (log d.last))
                      ∙ (ap (◌++◌ (log d.last)) (sym (waiting_none d fine))
                          ∙ (sum ∙ sym (append-nil (stream b)))));
              still_valid = omega arith;
              size_stays = d.same_size;
              cap_stays = ap len_of d.same_bytes;
              array_stays = ap cap_of d.same_bytes;
              kind_stays = d.same_kind;
            },
            λ e. refl,
          )
          | inr (err, failed) ↦ rw failed (
            some (cause err "flush"),
            record { underlay = d.last; buffer = d.after },
            refl,
            record {
              in_order = sum ∙ sym (append-nil (stream b));
              still_valid = d.valid;
              size_stays = d.same_size;
              cap_stays = ap len_of d.same_bytes;
              array_stays = ap cap_of d.same_bytes;
              kind_stays = d.same_kind;
            },
            λ e. absurd (ground arith),
          )
        ]

    -- Flush hands on what waits: when it reports no error the buffer is empty.
    pub flush-Takes :
        (fuel : ℕ) (b : BufWriter W)
        → IsValid b.buffer
        → fuel_for b ≤ fuel
        → (err : Option Error) × (b' : BufWriter W) × (flush write_call fuel b ≡ returns (err, b'))
          × Takes [] b b'
          × (err ≡ none → b'.buffer.r ≡ b'.buffer.w)
    unfolding flush
    flush-Takes fuel b v f = elim (Bool-cases (nat_beq (len b.buffer) 0)) [
      | inl empty ↦ rw empty (
        none,
        b,
        refl,
        record {
          in_order = sym (append-nil (stream b));
          still_valid = v;
          size_stays = refl;
          cap_stays = refl;
          array_stays = refl;
          kind_stays = refl;
        },
        λ e. ground arith,
      )
      | inr waiting ↦
          let d =
            write_to-Drained write_call h.write_le fuel b.underlay v (ground arith)
              (ground arith) in
          let (err, b', e, t, all) = flushed-Takes d in
          (err, b', rw (waiting, d.returned) (ap returns e), t, all)
    ]
