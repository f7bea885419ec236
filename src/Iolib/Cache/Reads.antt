-- ===== src/Iolib/Cache/Reads.antt =====
-- A read through the caches gives the bytes in order.
use qtfra.Common.{
  ℕ, ◌-◌, ◌≤◌, ◌≡◌, ◌⊎◌, false, List, [], ◌∷◌, ◌++◌, Option, none, some, refl, sym, ap, ◌∙◌,
  append_assoc, inl, inr, arith, min,
}
use qtfra.Common.Tests.{nat_beq, Bool-cases}
use qtfra.Common.Lists.{length, take, drop, length-take, length-append, take-append-drop}
use qtfra.Common.Windows.{drop-min}
use qtfra.Common.Outcomes.{returns, ◌>>=◌}
use qtfra.Ex.Error.{Error}
use qtfra.Buf.Slice.{arr_of}
use qtfra.Buf.Alloc.{Allocator}
use qtfra.Buf.Alloc.Safety.{IsStocked}
use qtfra.Buf.Buffer.{Buffer, is_empty, dec_ref}
use qtfra.Buf.Buffer.Valid.{IsValid, contents}
use qtfra.Buf.Buffer.Lifecycle.{IsReturnable, free-IsStocked}
use qtfra.Buf.Buffer.Refine.Reads.{read_valid}
use qtfra.Buf.Buffer.Stream.{ReadCall}
use qtfra.Buf.Buffer.Stream.WriteTo.{advance, advance-IsValid}
use qtfra.Iolib.Cache.{
  Reader, absent, plain, cached, ReadResult, take_cached, read_rest, read_reader,
}

-- A cached buffer is well-formed and can be given back, or it was read to its end.
abbrev pub IsSound : Buffer → Type 0
IsSound b = (IsValid b × IsReturnable b) ⊎ (b.r ≡ b.w)

pub contents-empty : (b : Buffer) → b.r ≡ b.w → contents b ≡ []
contents-empty b e =
    let none_left : b.w - b.r ≡ 0 = omega arith in
    ap (λ n. take n (drop b.r (arr_of b.bytes))) none_left

no_bytes : (xs : List ℕ) → length xs ≡ 0 → xs ≡ []
no_bytes [] e = refl
no_bytes (x ∷ xs) e = absurd (omega arith)

-- What Read takes from the buffer: the first bytes, in order, and the rest stays.
pub record Took (alloc : Allocator) (k : ℕ) (b : Buffer) : Type 0 where
  pub after : Buffer
  pub alloc_after : Allocator
  pub returned : take_cached alloc k b ≡ returns (take k (contents b), none, after, alloc_after)
  pub sound : IsSound after
  pub nothing_lost : take k (contents b) ++ contents after ≡ contents b
  pub stocked : IsStocked alloc_after

pub take_cached-Took :
    (alloc : Allocator) (k : ℕ) (b : Buffer)
    → IsStocked alloc
    → IsValid b
    → IsReturnable b
    → nat_beq b.r b.w ≡ false
    → Took alloc k b
unfolding take_cached dec_ref
take_cached-Took alloc k b s v ret more =
    let n = min k (length (contents b)) in
    let a = advance-IsValid n v (omega arith) in
    let total = take-append-drop k (contents b) in
    elim (Bool-cases (is_empty (advance b n))) [
      | inl drained ↦
          let (b', alloc', e, same_r, same_w, s') =
            free-IsStocked alloc (dec_ref (advance b n)) s ret in
          let at_end : b'.r ≡ b'.w = ground arith in
          let no_rest : (advance b n).r ≡ b.w = ground arith in
          record {
            after = b';
            alloc_after = alloc';
            returned = rw (read_valid k v more, drained, e) refl;
            sound = inr at_end;
            nothing_lost =
                ap (◌++◌ (take k (contents b))) (
                  contents-empty b' at_end
                  ∙ (sym (contents-empty (advance b n) no_rest) ∙ (a.1 ∙ drop-min k (contents b))))
                ∙ total;
            stocked = s';
          }
      | inr left ↦ record {
        after = advance b n;
        alloc_after = alloc;
        returned = rw (read_valid k v more, left) refl;
        sound = inl (a.0, ret);
        nothing_lost = ap (◌++◌ (take k (contents b))) (a.1 ∙ drop-min k (contents b)) ∙ total;
        stocked = s;
      }
    ]

-- A slice that the buffer does not fill takes all of it.
pub Took-all :
    {alloc : Allocator} {k : ℕ} {b : Buffer} (t : Took alloc k b)
    → nat_beq (length (take k (contents b))) k ≡ false
    → contents t.after ≡ []
Took-all {k = k} {b} t short =
    let n = length-take k (contents b) in
    let all : length (take k (contents b)) ≡ length (contents b) = ground arith in
    no_bytes (contents t.after) (
      omega
        (arith, ap length t.nothing_lost, length-append (take k (contents b)) (contents t.after)))

-- io.Reader's contract, for a reader whose remaining bytes are known: it gives the first of them, and
-- no more than it is asked for.
pub record Faithful {R : Type 0} (read_call : ReadCall R) (left : R → List ℕ) : Type 0 where
  pub read_le : (s : R) (k : ℕ) → length (read_call s k).0 ≤ k
  pub gives_first : (s : R) (k : ℕ) → left s ≡ (read_call s k).0 ++ left (read_call s k).2

module _ {R : Type 0} (read_call : ReadCall R) (left : R → List ℕ) where
  abbrev pub bytes_in : Option Buffer → List ℕ
  bytes_in none = []
  bytes_in (some b) = contents b

  -- All the bytes that a reader has still to give.
  abbrev pub remaining : Reader R → List ℕ
  remaining absent = []
  remaining (plain s) = left s
  remaining (cached r none) = remaining r
  remaining (cached r (some b)) = contents b ++ remaining r

  -- Every buffer is sound, and at the end there is a reader.
  abbrev pub IsFine : Reader R → Type 0
  IsFine absent = ⊥
  IsFine (plain s) = Unit
  IsFine (cached r none) = IsFine r
  IsFine (cached r (some b)) = IsSound b × IsFine r

  -- A Read that returned: what it gave are the next bytes.
  pub record Gave (k : ℕ) (r : Reader R) (res : ReadResult R) : Type 0 where
    pub chunk : List ℕ
    pub err : Option Error
    pub after : Reader R
    pub alloc_after : Allocator
    pub returned : res ≡ returns (chunk, err, after, alloc_after)
    pub chunk_le : length chunk ≤ k
    pub in_order : remaining r ≡ chunk ++ remaining after
    pub fine : IsFine after
    pub stocked : IsStocked alloc_after

  rest-returns :
      (rest : Allocator → ℕ → ReadResult R) (r : Reader R) (d : Option Buffer) (front : List ℕ)
      (alloc : Allocator) (k : ℕ)
      → IsFine r
      → read_rest rest r d front alloc k ≡ (
          rest alloc (k - length front) >>= λ got.
          returns (front ++ got.0, got.1, cached got.2 d, got.3))
  rest-returns rest absent d front alloc k f = absurd f
  rest-returns rest (plain s) d front alloc k f = refl
  rest-returns rest (cached r d') d front alloc k f = refl

  abbrev SoundCache : Option Buffer → Type 0
  SoundCache none = Unit {0}
  SoundCache (some b) = IsSound b

  cached-IsFine : (r : Reader R) (d : Option Buffer) → SoundCache d → IsFine r → IsFine (cached r d)
  cached-IsFine r none sound f = f
  cached-IsFine r (some b) sound f = (sound, f)

  remaining-cached :
      (r : Reader R) (d : Option Buffer) → bytes_in d ≡ [] → remaining (cached r d) ≡ remaining r
  remaining-cached r none e = refl
  remaining-cached r (some b) e = ap (λ t. t ++ remaining r) e

  -- The inner reader fills what is left of the slice.
  rest-Gave :
      (rest : Allocator → ℕ → ReadResult R) (top r : Reader R) (d : Option Buffer) (front : List ℕ)
      (alloc : Allocator) (k : ℕ)
      → IsFine r
      → SoundCache d
      → bytes_in d ≡ []
      → remaining top ≡ front ++ remaining r
      → length front ≤ k
      → Gave (k - length front) r (rest alloc (k - length front))
      → Gave k top (read_rest rest r d front alloc k)
  rest-Gave rest top r d front alloc k f sound none_left start fits g = record {
    chunk = front ++ g.chunk;
    err = g.err;
    after = cached g.after d;
    alloc_after = g.alloc_after;
    returned =
        rest-returns rest r d front alloc k f
        ∙ ap (λ m. m >>= λ got. returns (front ++ got.0, got.1, cached got.2 d, got.3)) g.returned;
    chunk_le = omega (arith, length-append front g.chunk, g.chunk_le);
    in_order =
        start
        ∙ (ap (◌++◌ front) g.in_order
            ∙ (sym (append_assoc front g.chunk (remaining g.after))
                ∙ ap (◌++◌ (front ++ g.chunk)) (sym (remaining-cached g.after d none_left))));
    fine = cached-IsFine g.after d sound g.fine;
    stocked = g.stocked;
  }

  module _ (h : Faithful read_call left) where
    -- Read, through any number of caches, gives the next of all the bytes that are left, the cached
    -- ones first, and no more than the slice holds; it returns for every inner reader that keeps the
    -- contract of io.Reader, the caches stay sound and the allocator stays stocked.
    pub read_reader-Gave :
        (r : Reader R) (alloc : Allocator) (k : ℕ)
        → IsFine r
        → IsStocked alloc
        → Gave k r (read_reader read_call r alloc k)
    unfolding read_reader
    read_reader-Gave absent alloc k f s = absurd f
    read_reader-Gave (plain t) alloc k f s = record {
      chunk = (read_call t k).0;
      err = (read_call t k).1;
      after = plain (read_call t k).2;
      alloc_after = alloc;
      returned = refl;
      chunk_le = h.read_le t k;
      in_order = h.gives_first t k;
      fine = tt;
      stocked = s;
    }
    read_reader-Gave (cached r none) alloc k f s =
        rest-Gave (read_reader read_call r) (cached r none) r none [] alloc k f tt refl refl
          (omega arith) (read_reader-Gave r alloc (k - 0) f s)
    read_reader-Gave (cached r (some b)) alloc k (sound, f) s =
        elim (Bool-cases (nat_beq b.r b.w)) [
          | inl empty ↦
              let none_left = contents-empty b (ground arith) in
              rw empty (
                rest-Gave (read_reader read_call r) (cached r (some b)) r (some b) [] alloc k f
                  sound none_left (ap (λ t. t ++ remaining r) none_left) (omega arith)
                  (read_reader-Gave r alloc (k - 0) f s))
          | inr more ↦ elim sound [
            | inr e ↦ absurd (ground arith)
            | inl (v, ret) ↦
                let t = take_cached-Took alloc k b s v ret more in
                let front = take k (contents b) in
                let whole =
                  ap (λ l. l ++ remaining r) (sym t.nothing_lost)
                  ∙ append_assoc front (contents t.after) (remaining r) in
                let small : length front ≤ k = omega (arith, length-take k (contents b)) in
                rw (more, t.returned)
                  (elim (Bool-cases (nat_beq (length front) k)) [
                    | inl full ↦ rw full (record {
                      chunk = front;
                      err = none;
                      after = cached r (some t.after);
                      alloc_after = t.alloc_after;
                      returned = refl;
                      chunk_le = small;
                      in_order = whole;
                      fine = (t.sound, f);
                      stocked = t.stocked;
                    })
                    | inr short ↦
                        let none_left = Took-all t short in
                        rw short (
                          rest-Gave (read_reader read_call r) (cached r (some b)) r (some t.after)
                            front t.alloc_after k f t.sound none_left
                            (whole ∙ ap (λ l. front ++ (l ++ remaining r)) none_left) small
                            (read_reader-Gave r t.alloc_after (k - length front) f t.stocked))
                  ])
          ]
        ]
