-- ===== src/Iolib/Copy/Buffers.antt =====
-- The loop over the caches in copyEarly of enhancements/iolib/copy.go.
use qtfra.Common.{
  ℕ, ◌+◌, ◌≡◌, List, [], ◌∷◌, ◌++◌, Option, none, some, refl, sym, ap, ap₂, ◌∙◌, append_assoc,
  append-nil, inl, inr, arith,
}
use qtfra.Common.Tests.{Option-cases}
use qtfra.Common.Lists.{length, length-append}
use qtfra.Common.Outcomes.{Outcome, returns}
use qtfra.Ex.Error.{Error, cause}
use qtfra.Buf.Alloc.{Allocator}
use qtfra.Buf.Alloc.Safety.{IsStocked}
use qtfra.Buf.Buffer.{Buffer, free}
use qtfra.Buf.Buffer.Valid.{contents}
use qtfra.Buf.Buffer.Lifecycle.{free-IsStocked, free-free}
use qtfra.Buf.Buffer.Stream.{ReadCall, WriteCall, write_to}
use qtfra.Buf.Buffer.Stream.WriteTo.{Drained, write_to-Drained}
use qtfra.Iolib.Cache.{Reader, ReadCache, pick_reader_cache_list}
use qtfra.Iolib.BufWriter.Ordered.{Honest, log-Drained}
use qtfra.Iolib.Copy.Caches.{
  AllPicked, all_contents, all_calls, free_all-IsStocked, same_home, log_whole, Wrote, Ended,
}
use qtfra.Iolib.Copy.{Copied, call_all, free_all, write_buffers, copy_early, not_needed}

module _ {F R W : Type 0} (write_call : WriteCall W) (log : W → List ℕ)
    (read_counters write_counters : List F) where
  -- The loop returned: `whole` are the buffers whose WriteTo had no error. They are written and counted;
  -- of the next one `part` is written and not counted, and the others are left.
  pub record BuffersSent (fuel n : ℕ) (source : Reader R) (w : W) (calls : List (F × ℕ))
      (buffers : List Buffer) (res : Outcome (Copied F R W)) : Type 0 where
    pub out : Copied F R W
    pub returned : res ≡ returns out
    pub whole : List Buffer
    pub rest : List Buffer
    pub part : List ℕ
    pub reached : W
    pub split : whole ++ rest ≡ buffers
    pub wrote : Wrote write_call fuel whole w reached
    pub ended : Ended write_call fuel rest part reached out.err out.destination
    pub logged : log out.destination ≡ log w ++ (all_contents whole ++ part)
    pub counted : out.n ≡ n + length (all_contents whole ++ part)
    pub called : out.calls ≡ calls ++ all_calls read_counters write_counters whole
    pub same_source : out.source ≡ source
    pub stocked : IsStocked out.alloc

  module _ (honest : Honest write_call log) (fuel : ℕ) where
    abbrev Loop : ℕ → Reader R → W → List (F × ℕ) → Allocator → List Buffer → Outcome (Copied F R W)
    Loop n source w calls alloc buffers =
        write_buffers write_call fuel read_counters write_counters n source w calls alloc buffers

    loop_whole :
        (n to : ℕ) (source : Reader R) (w w' : W) (calls : List (F × ℕ)) (alloc alloc' : Allocator)
        (b mid b' : Buffer) (buffers : List Buffer)
        → write_to write_call fuel b w ≡ returns (to, none, mid, w')
        → free alloc mid ≡ returns (b', alloc')
        → Loop n source w calls alloc (b ∷ buffers)
          ≡ Loop
              (n + to)
              source
              w'
              (calls ++ (call_all read_counters to ++ call_all write_counters to))
              alloc'
              buffers
    unfolding write_buffers
    loop_whole n to source w w' calls alloc alloc' b mid b' buffers e e' = rw (e, e') refl

    -- After an error the first buffer is freed again, which changes nothing, and then the others.
    loop_failed :
        (n to : ℕ) (err : Error) (source : Reader R) (w w' : W) (calls : List (F × ℕ))
        (alloc alloc' alloc'' : Allocator) (b mid b' : Buffer) (buffers : List Buffer)
        → write_to write_call fuel b w ≡ returns (to, some err, mid, w')
        → free alloc mid ≡ returns (b', alloc')
        → free_all alloc' buffers ≡ returns alloc''
        → Loop n source w calls alloc (b ∷ buffers)
          ≡ returns (record {
            n = n + to;
            err = some (cause err "writeCache");
            source = source;
            destination = w';
            calls = calls;
            alloc = alloc'';
          })
    unfolding write_buffers free_all
    loop_failed n to err source w w' calls alloc alloc' alloc'' b mid b' buffers e e' e'' =
        rw (e, e', free-free alloc alloc' mid b' e', e'') refl

    first_sent :
        (n : ℕ) (source : Reader R) (w w' : W) (calls : List (F × ℕ)) (b mid : Buffer)
        (buffers : List Buffer) (res res' : Outcome (Copied F R W))
        → write_to write_call fuel b w ≡ returns (length (contents b), none, mid, w')
        → log w' ≡ log w ++ contents b
        → res ≡ res'
        → BuffersSent fuel
            (n + length (contents b))
            source
            w'
            (calls
              ++ (call_all read_counters (length (contents b))
                  ++ call_all write_counters (length (contents b))))
            buffers
            res'
        → BuffersSent fuel n source w calls (b ∷ buffers) res
    first_sent n source w w' calls b mid buffers res res' sent logged e r =
        let one =
          call_all read_counters (length (contents b))
          ++ call_all write_counters (length (contents b)) in
        let more = all_contents r.whole in
        record {
          out = r.out;
          returned = e ∙ r.returned;
          whole = b ∷ r.whole;
          rest = r.rest;
          part = r.part;
          reached = r.reached;
          split = ap (◌∷◌ b) r.split;
          wrote = (mid, w', sent, r.wrote);
          ended = r.ended;
          logged =
              r.logged
              ∙ (ap (λ l. l ++ (more ++ r.part)) logged
                  ∙ (append_assoc (log w) (contents b) (more ++ r.part)
                      ∙ ap (◌++◌ (log w)) (sym (append_assoc (contents b) more r.part))));
          counted = omega (
            arith,
            r.counted,
            length-append (contents b ++ more) r.part,
            length-append (contents b) more,
            length-append more r.part,
          );
          called =
              r.called ∙ append_assoc calls one (all_calls read_counters write_counters r.whole);
          same_source = r.same_source;
          stocked = r.stocked;
        }

    none_sent :
        (n : ℕ) (source : Reader R) (w : W) (calls : List (F × ℕ)) (b : Buffer)
        (buffers : List Buffer) (err : Error) (alloc : Allocator) (res : Outcome (Copied F R W))
        {m : Outcome (ℕ × Option Error × Buffer × W)} (d : Drained write_call b w 0 0 m)
        → write_to write_call fuel b w ≡ returns (length d.taken, some err, d.after, d.last)
        → IsStocked alloc
        → res
          ≡ returns (record {
            n = n + length d.taken;
            err = some (cause err "writeCache");
            source = source;
            destination = d.last;
            calls = calls;
            alloc = alloc;
          })
        → BuffersSent fuel n source w calls (b ∷ buffers) res
    none_sent n source w calls b buffers err alloc res d sent s e = record {
      out = _;
      returned = e;
      whole = [];
      rest = b ∷ buffers;
      part = d.taken;
      reached = w;
      split = refl;
      wrote = refl;
      ended = inr (b, buffers, d.after, err, refl, sent, d.nothing_lost, refl);
      logged = log-Drained write_call log honest d;
      counted = refl;
      called = sym (append-nil calls);
      same_source = refl;
      stocked = s;
    }

    write_buffers-BuffersSent :
        (n : ℕ) (source : Reader R) (w : W) (calls : List (F × ℕ)) (alloc : Allocator)
        (buffers : List Buffer)
        → IsStocked alloc
        → AllPicked fuel buffers
        → BuffersSent fuel n source w calls buffers (Loop n source w calls alloc buffers)
    unfolding write_buffers
    write_buffers-BuffersSent n source w calls alloc [] s all = record {
      out = _;
      returned = refl;
      whole = [];
      rest = [];
      part = [];
      reached = w;
      split = refl;
      wrote = refl;
      ended = inl (refl, refl, refl, refl);
      logged = sym (append-nil (log w));
      counted = omega arith;
      called = sym (append-nil calls);
      same_source = refl;
      stocked = s;
    }
    write_buffers-BuffersSent n source w calls alloc (b ∷ buffers) s (p, all) =
        let d = write_to-Drained write_call honest.write_le fuel w p.valid p.some_bytes p.enough in
        let (b', alloc', e, _, _, s') =
          free-IsStocked alloc d.after s
            (same_home b d.after p.returnable d.same_bytes d.same_kind) in
        elim (Option-cases d.err) [
          | inl fine ↦
              let all_of = log_whole write_call log honest d fine in
              let sum : 0 + length d.taken ≡ length (contents b) =
                omega (arith, ap length all_of) in
              let sent = d.returned ∙ ap₂ (λ i o. returns (i, o, d.after, d.last)) sum fine in
              first_sent n source w d.last calls b d.after buffers _ _ sent
                (log-Drained write_call log honest d ∙ ap (◌++◌ (log w)) all_of)
                (loop_whole n (length (contents b)) source w d.last calls alloc alloc' b d.after b'
                  buffers sent e)
                (write_buffers-BuffersSent (n + length (contents b)) source d.last _ alloc' buffers
                  s' all)
          | inr (err, failed) ↦
              let (alloc'', e', s'') = free_all-IsStocked fuel alloc' buffers s' all in
              let plain : 0 + length d.taken ≡ length d.taken = omega arith in
              let sent = d.returned ∙ ap₂ (λ i o. returns (i, o, d.after, d.last)) plain failed in
              none_sent n source w calls b buffers err alloc'' _ d sent s'' (
                loop_failed n (length d.taken) err source w d.last calls alloc alloc' alloc'' b
                  d.after b' buffers sent e e')
        ]

    -- copyEarly with no handshake to make calls WriteTo on the caches of its source in order, for every
    -- writer that keeps io.Writer's contract, up to the first one that reports an error. The writer got
    -- the bytes of the caches before that one, and the first bytes of that one; the count is theirs
    -- together. Each counter was called with the size of each cache before that one, in order, the
    -- counters of the source first, and not for that one. The error is that of WriteTo, and none when
    -- all are written. The caches must be well-formed and hold bytes, with a stocked allocator and 102
    -- rounds of fuel for each byte of a cache and 101 more.
    pub copy_early-BuffersSent :
        (read_call : ReadCall R) (read_cache : ReadCache R) (picks : ℕ) (source source' : Reader R)
        (caches : List Buffer) (w : W) (alloc : Allocator) (choice : ℕ)
        → pick_reader_cache_list read_cache picks source ≡ returns (source', caches)
        → IsStocked alloc
        → AllPicked fuel caches
        → BuffersSent fuel 0 source' w [] caches (
            copy_early write_call fuel read_counters write_counters read_call read_cache picks
              not_needed source w alloc choice)
    unfolding copy_early
    copy_early-BuffersSent read_call read_cache picks source source' caches w alloc choice picked s
          all =
        rw picked (write_buffers-BuffersSent 0 source' w [] alloc caches s all)
