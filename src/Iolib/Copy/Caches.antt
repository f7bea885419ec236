-- ===== src/Iolib/Copy/Caches.antt =====
-- The caches that copyEarly writes, and what the calls of WriteTo for them did.
use qtfra.Common.{
  ℕ, ◌+◌, ◌-◌, ◌*◌, ◌<◌, ◌≡◌, ◌⊎◌, List, [], ◌∷◌, ◌++◌, Option, none, some, refl, sym, ap, subst,
  ◌∙◌, append-nil,
}
use qtfra.Common.Lists.{length}
use qtfra.Common.Outcomes.{Outcome, returns, ◌>>=◌}
use qtfra.Ex.Error.{Error, cause}
use qtfra.Buf.Alloc.{Allocator}
use qtfra.Buf.Alloc.Safety.{IsStocked}
use qtfra.Buf.Buffer.{Buffer}
use qtfra.Buf.Buffer.Valid.{IsValid, contents}
use qtfra.Buf.Buffer.Lifecycle.{Returnable, IsReturnable, free-IsStocked}
use qtfra.Buf.Buffer.Stream.{WriteCall, write_to}
use qtfra.Buf.Buffer.Stream.WriteTo.{Drained}
use qtfra.Iolib.BufWriter.Ordered.{Honest, waiting_none}
use qtfra.Iolib.Copy.{call_all, free_all}

-- A cache that is picked: well-formed, not empty, and can be given back; the fuel is enough for it.
pub record IsPicked (fuel : ℕ) (b : Buffer) : Type 0 where
  pub valid : IsValid b
  pub some_bytes : b.r < b.w
  pub returnable : IsReturnable b
  pub enough : (b.w - b.r) * 102 + 100 < fuel

abbrev pub AllPicked : ℕ → List Buffer → Type 0
AllPicked fuel [] = Unit
AllPicked fuel (b ∷ buffers) = IsPicked fuel b × AllPicked fuel buffers

abbrev pub all_contents : List Buffer → List ℕ
all_contents [] = []
all_contents (b ∷ buffers) = contents b ++ all_contents buffers

module _ {F : Type 0} (read_counters write_counters : List F) where
  -- Each buffer's bytes, once for each counter.
  abbrev pub all_calls : List Buffer → List (F × ℕ)
  all_calls [] = []
  all_calls (b ∷ buffers) =
      (call_all read_counters (length (contents b))
        ++ call_all write_counters (length (contents b)))
      ++ all_calls buffers

pub free_all-IsStocked :
    (fuel : ℕ) (alloc : Allocator) (buffers : List Buffer)
    → IsStocked alloc
    → AllPicked fuel buffers
    → (alloc' : Allocator) × (free_all alloc buffers ≡ returns alloc') × IsStocked alloc'
unfolding free_all
free_all-IsStocked fuel alloc [] s all = (alloc, refl, s)
free_all-IsStocked fuel alloc (b ∷ buffers) s (p, all) =
    let (b', alloc', e, _, _, s') = free-IsStocked alloc b s p.returnable in
    let (alloc'', e', s'') = free_all-IsStocked fuel alloc' buffers s' all in
    (alloc'', ap (λ o. o >>= λ freed. free_all freed.1 buffers) e ∙ e', s'')

-- A buffer that was drained can be given back as before.
pub same_home :
    (b b' : Buffer) → IsReturnable b → b'.bytes ≡ b.bytes → b'.managed ≡ b.managed → IsReturnable b'
same_home b b' ret bytes managed =
    subst (λ d. Returnable b'.managed d) (sym bytes)
      (subst (λ m. Returnable m b.bytes) (sym managed) ret)

pub log_whole :
    {W : Type 0} (write_call : WriteCall W) (log : W → List ℕ) (honest : Honest write_call log)
    {b : Buffer} {w : W} {m : Outcome (ℕ × Option Error × Buffer × W)}
    (d : Drained write_call b w 0 0 m)
    → d.err ≡ none
    → d.taken ≡ contents b
log_whole write_call log honest d fine =
    sym (append-nil d.taken)
    ∙ (ap (◌++◌ d.taken) (sym (waiting_none write_call log honest d fine)) ∙ d.nothing_lost)

module _ {W : Type 0} (write_call : WriteCall W) where
  -- The calls of WriteTo for these buffers, from one state of the writer to another: each wrote all of
  -- its buffer and reported no error.
  abbrev pub Wrote : ℕ → List Buffer → W → W → Type 0
  Wrote fuel [] w w' = w' ≡ w
  Wrote fuel (b ∷ buffers) w w' =
      (mid : Buffer) × (w'' : W) × (write_to write_call fuel b w
        ≡ returns (length (contents b), none, mid, w''))
      × Wrote fuel buffers w'' w'

  -- How the loop ended, with the writer at `reached`: nothing was left, or WriteTo of the next buffer
  -- reported an error, with the first bytes of this buffer written.
  abbrev pub Ended : ℕ → List Buffer → List ℕ → W → Option Error → W → Type 0
  Ended fuel rest part reached err last =
      ((err ≡ none) × (rest ≡ []) × (part ≡ []) × (last ≡ reached))
      ⊎ ((b : Buffer) × (others : List Buffer) × (mid : Buffer) × (e : Error) × (rest ≡ b ∷ others)
          × (write_to write_call fuel b reached ≡ returns (length part, some e, mid, last))
          × (part ++ contents mid ≡ contents b)
          × (err ≡ some (cause e "writeCache")))
