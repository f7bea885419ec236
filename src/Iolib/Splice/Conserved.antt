-- ===== src/Iolib/Splice/Conserved.antt =====
-- No byte is lost or sent twice by the splice of enhancements/iolib/splice_linux.go.
use qtfra.Common.{
  ℕ, ◌+◌, ◌-◌, ◌≡◌, true, false, ◌||◌, List, [], ◌∷◌, ◌++◌, Option, none, some, min, refl, sym, ap,
  ◌∙◌, append_assoc, append-nil, inl, inr, arith,
}
use qtfra.Common.Tests.{if◌then◌else◌, nat_beq, nat_comparable, beq_iff, Bool-cases}
use qtfra.Common.Lists.{length, take, drop, length-append, length-drop, take-append-drop}
use qtfra.Ex.Error.{Error, cause, is_exactly}
use qtfra.Iolib.Copy.{call_all}
use qtfra.Iolib.Splice.{
  Answer, moves_in, moves_out, fails, gives_up, Doing, reading, writing, finished, SplicePipe,
  Splicing, eagain, einval, enosys, read_failed, read_answer, write_answer, answered, splice_on,
  begin_splice, splice, put_pipe,
}

abbrev pub sum : List ℕ → ℕ
sum [] = 0
sum (x ∷ xs) = x + sum xs

module _ {F : Type 0} (read_counters write_counters : List F) where
  -- Each counter called with each size.
  abbrev pub calls_of : List ℕ → List (F × ℕ)
  calls_of [] = []
  calls_of (size ∷ sizes) =
      (call_all read_counters size ++ call_all write_counters size) ++ calls_of sizes

  -- How much of what was read is not sent yet, by what is being done.
  abbrev pub Pending : Doing → ℕ → ℕ → ℕ → ℕ → Type 0
  Pending reading read_n write_size pending uncounted = (pending ≡ 0) × (uncounted ≡ 0)
  Pending writing read_n write_size pending uncounted =
      (pending ≡ write_size) × (uncounted ≡ read_n)
  Pending (finished handed none) read_n write_size pending uncounted =
      (pending ≡ 0) × (uncounted ≡ 0)
  Pending (finished handed (some err)) read_n write_size pending uncounted = Unit

  -- The bytes that were in the pipe before, and those received, are the ones sent and those that are in
  -- the pipe; the count is that of the bytes which were received and sent, each counter was called with
  -- it bit by bit, and unless an error ended the splice nothing is left over between two rounds.
  pub record Conserves (stale : List ℕ) (s : Splicing F) : Type 0 where
    pub in_order : s.sent ++ s.pipe.held ≡ stale ++ s.received
    pub pending : ℕ
    pub uncounted : ℕ
    pub still_held : length s.pipe.held ≡ length stale + pending
    pub counted : s.n + uncounted ≡ length s.received
    pub sizes : List ℕ
    pub called : s.calls ≡ calls_of sizes
    pub sized : sum sizes ≡ s.n
    pub fits : Pending s.doing s.read_n s.write_size pending uncounted
    pub untouched : s.pipe.data_field ≡ 0

  calls_of-append :
      (sizes : List ℕ) (size : ℕ)
      → calls_of (sizes ++ size ∷ [])
        ≡ calls_of sizes ++ (call_all read_counters size ++ call_all write_counters size)
  calls_of-append [] size = append-nil (call_all read_counters size ++ call_all write_counters size)
  calls_of-append (x ∷ sizes) size =
      ap (◌++◌ (call_all read_counters x ++ call_all write_counters x)) (calls_of-append sizes size)
      ∙ sym (
          append_assoc (call_all read_counters x ++ call_all write_counters x) (calls_of sizes)
            (call_all read_counters size ++ call_all write_counters size))

  sum-append : (sizes : List ℕ) (size : ℕ) → sum (sizes ++ size ∷ []) ≡ sum sizes + size
  sum-append [] size = omega arith
  sum-append (x ∷ sizes) size = omega (arith, sum-append sizes size)

  failed-Pending :
      (outer : Option Error) (err : Error) (read_n write_size pending uncounted : ℕ)
      → pending ≡ 0
      → uncounted ≡ 0
      → Pending (read_failed outer err) read_n write_size pending uncounted
  failed-Pending outer err read_n write_size pending uncounted none_held all_counted =
      elim (Bool-cases (is_exactly err einval || is_exactly err enosys)) [
        | inl unhanded ↦ rw unhanded (ended outer)
        | inr handed ↦ rw handed tt
      ]
    where
      ended : (o : Option Error) → Pending (finished false o) read_n write_size pending uncounted
      ended none = (none_held, all_counted)
      ended (some e) = tt

  -- Only what is being done changes.
  turned :
      {stale : List ℕ} {s : Splicing F} (doing : Doing) (c : Conserves stale s)
      → Pending doing s.read_n s.write_size c.pending c.uncounted
      → Conserves stale (record s { doing = doing })
  turned doing c fits = record {
    in_order = c.in_order;
    pending = c.pending;
    uncounted = c.uncounted;
    still_held = c.still_held;
    counted = c.counted;
    sizes = c.sizes;
    called = c.called;
    sized = c.sized;
    fits = fits;
    untouched = c.untouched;
  }

  chunk-Pending :
      (size : ℕ)
      → Pending (if nat_beq size 0 then finished true none else writing) size size size size
  chunk-Pending size = elim (Bool-cases (nat_beq size 0)) [
    | inl e ↦ let none_read = (beq_iff size 0).0 e in rw e (none_read, none_read)
    | inr e ↦ rw e (refl, refl)
  ]

  read-Conserves :
      (stale : List ℕ) (a : Answer) (s : Splicing F) (c : Conserves stale s)
      → c.pending ≡ 0
      → c.uncounted ≡ 0
      → Conserves stale (read_answer read_counters write_counters a s)
  read-Conserves stale (moves_in chunk) s c none_held all_counted = record {
    in_order =
        sym (append_assoc s.sent s.pipe.held chunk)
        ∙ (ap (λ l. l ++ chunk) c.in_order ∙ append_assoc stale s.received chunk);
    pending = length chunk;
    uncounted = length chunk;
    still_held = omega (arith, length-append s.pipe.held chunk, c.still_held, none_held);
    counted = omega (arith, length-append s.received chunk, c.counted, all_counted);
    sizes = c.sizes;
    called = c.called;
    sized = c.sized;
    fits = chunk-Pending (length chunk);
    untouched = c.untouched;
  }
  read-Conserves stale (fails err) s c none_held all_counted =
      turned (if is_exactly err eagain then reading else read_failed none err) c
        (elim (Bool-cases (is_exactly err eagain)) [
          | inl again ↦ rw again (none_held, all_counted)
          | inr failed ↦ rw failed (
              failed-Pending none err s.read_n s.write_size c.pending c.uncounted none_held
                all_counted)
        ])
  read-Conserves stale (gives_up err) s c none_held all_counted =
      turned (read_failed (some err) err) c (
        failed-Pending (some err) err s.read_n s.write_size c.pending c.uncounted none_held
          all_counted)
  read-Conserves stale (moves_out size) s c none_held all_counted = c

  -- What goes from the pipe to the destination goes on in order.
  out_of_pipe :
      (stale : List ℕ) (size : ℕ) (s : Splicing F)
      → Conserves stale s
      → (s.sent ++ take (min size s.write_size) s.pipe.held)
          ++ drop (min size s.write_size) s.pipe.held
        ≡ stale ++ s.received
  out_of_pipe stale size s c =
      append_assoc s.sent (take (min size s.write_size) s.pipe.held)
        (drop (min size s.write_size) s.pipe.held)
      ∙ (ap (◌++◌ s.sent) (take-append-drop (min size s.write_size) s.pipe.held) ∙ c.in_order)

  -- Part of what was read is written: the round goes on.
  part-Conserves :
      (stale : List ℕ) (size : ℕ) (s : Splicing F) (c : Conserves stale s)
      → c.pending ≡ s.write_size
      → c.uncounted ≡ s.read_n
      → nat_beq (s.write_size - min size s.write_size) 0 ≡ false
      → Conserves stale (write_answer read_counters write_counters (moves_out size) s)
  part-Conserves stale size s c held counts more = rw more (record {
    in_order = out_of_pipe stale size s c;
    pending = c.pending - min size s.write_size;
    uncounted = c.uncounted;
    still_held = omega (arith, length-drop (min size s.write_size) s.pipe.held, c.still_held, held);
    counted = c.counted;
    sizes = c.sizes;
    called = c.called;
    sized = c.sized;
    fits = (omega (arith, held), counts);
    untouched = c.untouched;
  })

  -- All of it is: the counters are called.
  whole-Conserves :
      (stale : List ℕ) (size : ℕ) (s : Splicing F) (c : Conserves stale s)
      → c.pending ≡ s.write_size
      → c.uncounted ≡ s.read_n
      → nat_beq (s.write_size - min size s.write_size) 0 ≡ true
      → Conserves stale (write_answer read_counters write_counters (moves_out size) s)
  whole-Conserves stale size s c held counts all =
      let done = (beq_iff (s.write_size - min size s.write_size) 0).0 all in
      let one = call_all read_counters s.read_n ++ call_all write_counters s.read_n in
      rw all (record {
        in_order = out_of_pipe stale size s c;
        pending = 0;
        uncounted = 0;
        still_held =
            omega
              (arith, length-drop (min size s.write_size) s.pipe.held, c.still_held, held, done);
        counted = omega (arith, c.counted, counts);
        sizes = c.sizes ++ s.read_n ∷ [];
        called = ap (λ l. l ++ one) c.called ∙ sym (calls_of-append c.sizes s.read_n);
        sized = omega (arith, sum-append c.sizes s.read_n, c.sized);
        fits = (refl, refl);
        untouched = c.untouched;
      })

  write-Conserves :
      (stale : List ℕ) (a : Answer) (s : Splicing F) (c : Conserves stale s)
      → c.pending ≡ s.write_size
      → c.uncounted ≡ s.read_n
      → Conserves stale (write_answer read_counters write_counters a s)
  write-Conserves stale (moves_out size) s c held counts =
      elim (Bool-cases (nat_beq (s.write_size - min size s.write_size) 0)) [
        | inl all ↦ whole-Conserves stale size s c held counts all
        | inr more ↦ part-Conserves stale size s c held counts more
      ]
  write-Conserves stale (fails err) s c held counts =
      turned
        (if is_exactly err eagain then writing else finished true (some (cause err "splice write")))
        c
        (elim (Bool-cases (is_exactly err eagain)) [
          | inl again ↦ rw again (held, counts)
          | inr failed ↦ rw failed tt
        ])
  write-Conserves stale (gives_up err) s c held counts =
      turned (finished true (some (cause err "splice write"))) c tt
  write-Conserves stale (moves_in chunk) s c held counts = c

  answered-Conserves :
      (stale : List ℕ) (a : Answer) (s : Splicing F) (doing : Doing) (c : Conserves stale s)
      → Pending doing s.read_n s.write_size c.pending c.uncounted
      → Conserves stale (answered read_counters write_counters doing a s)
  answered-Conserves stale a s reading c (none_held, all_counted) =
      read-Conserves stale a s c none_held all_counted
  answered-Conserves stale a s writing c (held, counts) = write-Conserves stale a s c held counts
  answered-Conserves stale a s (finished handed err) c fits = c

  on-Conserves :
      (stale : List ℕ) (answers : List Answer) (s : Splicing F)
      → Conserves stale s
      → Conserves stale (splice_on read_counters write_counters answers s)
  unfolding splice_on
  on-Conserves stale [] s c = c
  on-Conserves stale (a ∷ answers) s c =
      on-Conserves stale answers (answered read_counters write_counters s.doing a s)
        (answered-Conserves stale a s s.doing c c.fits)

  -- At every point of a splice over a pipe, whatever the calls answer: the bytes that the pipe held
  -- before and those received are, in order, the ones sent and those that it holds; the count is that
  -- of the bytes received, but for a round that is not over, and each counter was called with it bit
  -- by bit; between two rounds, and at an end without error, the pipe holds as much as before. The
  -- pipe goes back to the pool with what it holds, also after an error.
  pub splice-Conserves :
      (pipe : SplicePipe) (answers : List Answer)
      → pipe.data_field ≡ 0
      → let last = splice read_counters write_counters (some pipe) answers in
        Conserves pipe.held last × (put_pipe last.pipe ≡ some last.pipe)
  unfolding splice
  splice-Conserves pipe answers fresh =
      let c = on-Conserves pipe.held answers (begin_splice pipe) (record {
        in_order = sym (append-nil pipe.held);
        pending = 0;
        uncounted = 0;
        still_held = omega arith;
        counted = refl;
        sizes = [];
        called = refl;
        sized = refl;
        fits = (refl, refl);
        untouched = fresh;
      }) in
      (c, rw c.untouched refl)
