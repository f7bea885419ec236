-- ===== src/Iolib/BufWriter/Written.antt =====
-- What a Write of a BufWriter that returned has done.
use qtfra.Common.{
  ℕ, ◌+◌, ◌≤◌, ◌≡◌, List, [], ◌∷◌, ◌++◌, Option, none, some, refl, sym, ap, ◌∙◌, append_assoc,
  append-nil, inl, inr, arith,
}
use qtfra.Common.Tests.{Option-cases}
use qtfra.Common.Lists.{length, take, take_all}
use qtfra.Common.Windows.{length-overwrite}
use qtfra.Buf.Slice.{cap_of}
use qtfra.Common.Outcomes.{returns}
use qtfra.Ex.Error.{Error}
use qtfra.Buf.Buffer.{Buffer, append, cap'}
use qtfra.Buf.Buffer.Valid.{IsValid, contents, append-IsValid}
use qtfra.Buf.Buffer.Stream.{WriteCall}
use qtfra.Iolib.BufWriter.{BufWriter, Returns}
use qtfra.Iolib.BufWriter.Ordered.{stream, Takes}

pub no_bytes : (xs : List ℕ) → length xs ≡ 0 → xs ≡ []
no_bytes [] e = refl
no_bytes (x ∷ xs) e = absurd (omega arith)

module _ {W : Type 0} (write_call : WriteCall W) (log : W → List ℕ) where
  -- A Write of the bytes that returned: it took the first of them, all where it reports no error.
  pub record Written (bs : List ℕ) (b : BufWriter W) (res : Returns W (ℕ × Option Error))
      : Type 0 where
    pub count : ℕ
    pub err : Option Error
    pub after : BufWriter W
    pub returned : res ≡ returns ((count, err), after)
    pub count_le : count ≤ length bs
    pub takes : Takes write_call log (take count bs) b after
    pub all_or_error : err ≡ none → count ≡ length bs

  -- The buffer took the bytes.
  pub appended :
      {b : BufWriter W} (bs : List ℕ)
      → IsValid b.buffer
      → b.buffer.w + length bs ≤ b.buffer.size
      → (cap' (append b.buffer bs) ≡ cap' b.buffer)
        × (cap_of (append b.buffer bs).bytes ≡ cap_of b.buffer.bytes)
      → Takes write_call log bs b (record b { buffer = append b.buffer bs })
  appended {b} bs v room cap =
      let a = append-IsValid bs v room in
      record {
        in_order =
            ap (◌++◌ (log b.underlay)) a.1
            ∙ sym (append_assoc (log b.underlay) (contents b.buffer) bs);
        still_valid = a.0;
        size_stays = refl;
        cap_stays = cap.0;
        array_stays = cap.1;
        kind_stays = refl;
      }

  pub append-cap :
      (b : Buffer) (bs : List ℕ)
      → (cap' (append b bs) ≡ cap' b) × (cap_of (append b bs).bytes ≡ cap_of b.bytes)
  append-cap b bs = elim (Option-cases b.bytes) [
    | inl e ↦ rw e (refl, refl)
    | inr (s, e) ↦ rw e (refl, length-overwrite s.arr b.w bs)
  ]

  -- One call of the buffer's own Write, of bytes that fit.
  pub put-Written :
      {b : BufWriter W} (bs : List ℕ) (res : Returns W (ℕ × Option Error))
      → IsValid b.buffer
      → b.buffer.w + length bs ≤ b.buffer.size
      → res ≡ returns ((length bs, none), record b { buffer = append b.buffer bs })
      → Written bs b res
  put-Written {b} bs res v room e = record {
    count = length bs;
    err = none;
    after = record b { buffer = append b.buffer bs };
    returned = e;
    count_le = omega arith;
    takes =
        rw (take_all (length bs) bs (omega arith)) (appended bs v room (append-cap b.buffer bs));
    all_or_error = λ fine. refl;
  }

  pub nothing-Written :
      {b : BufWriter W} {bs : List ℕ} {res : Returns W (ℕ × Option Error)} (after : BufWriter W)
      (err : Option Error)
      → Takes write_call log [] b after
      → (err ≡ none → 0 ≡ length bs)
      → res ≡ returns ((0, err), after)
      → Written bs b res
  nothing-Written after err t all e = record {
    count = 0;
    err = err;
    after = after;
    returned = e;
    count_le = omega arith;
    takes = t;
    all_or_error = all;
  }

  pub caught_up :
      {b mid : BufWriter W}
      → Takes write_call log [] b mid
      → contents mid.buffer ≡ []
      → log mid.underlay ≡ stream write_call log b
  caught_up {b} {mid} t e =
      sym (append-nil (log mid.underlay))
      ∙ (ap (◌++◌ (log mid.underlay)) (sym e) ∙ (t.in_order ∙ append-nil (stream write_call log b)))

  -- A call that took nothing, and one that took bytes.
  pub chain :
      {b mid after : BufWriter W} {bs : List ℕ}
      → Takes write_call log [] b mid
      → Takes write_call log bs mid after
      → Takes write_call log bs b after
  chain {b} {bs = bs} t u = record {
    in_order = u.in_order ∙ ap (λ l. l ++ bs) (t.in_order ∙ append-nil (stream write_call log b));
    still_valid = u.still_valid;
    size_stays = u.size_stays ∙ t.size_stays;
    cap_stays = u.cap_stays ∙ t.cap_stays;
    array_stays = u.array_stays ∙ t.array_stays;
    kind_stays = u.kind_stays ∙ t.kind_stays;
  }

  -- A Flush before the call changes nothing of this.
  pub after-Written :
      {b mid : BufWriter W} {bs : List ℕ} {res : Returns W (ℕ × Option Error)}
      → Takes write_call log [] b mid
      → Written bs mid res
      → Written bs b res
  after-Written {b} {mid} {bs} t f = record {
    count = f.count;
    err = f.err;
    after = f.after;
    returned = f.returned;
    count_le = f.count_le;
    takes = chain t f.takes;
    all_or_error = f.all_or_error;
  }

  pub stays : (b : BufWriter W) → IsValid b.buffer → Takes write_call log [] b b
  stays b v = record {
    in_order = sym (append-nil (stream write_call log b));
    still_valid = v;
    size_stays = refl;
    cap_stays = refl;
    array_stays = refl;
    kind_stays = refl;
  }

  -- What WriteByte took, by its error.
  abbrev pub OneWritten : ℕ → BufWriter W → Option Error → BufWriter W → Type 0
  OneWritten x b none after = Takes write_call log (x ∷ []) b after
  OneWritten x b (some err) after = Takes write_call log [] b after
