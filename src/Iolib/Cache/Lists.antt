-- ===== src/Iolib/Cache/Lists.antt =====
-- The buffers that are put in front of a reader come out again.
use qtfra.Common.{
  ℕ, zero, suc, ◌+◌, ◌<◌, ◌^◌, ◌≡◌, List, [], ◌∷◌, ◌++◌, Option, none, some, refl, sym, ap, ◌∙◌,
  append_assoc, append-nil, inl, inr, arith,
}
use qtfra.Common.Tests.{if◌then◌else◌, Bool-cases}
use qtfra.Common.Lists.{length}
use qtfra.Common.Words.{add_int, sub_int}
use qtfra.Common.Outcomes.{Outcome, returns, panics, runs_on, ◌>>=◌}
use qtfra.Buf.Buffer.{Buffer, is_empty, inc_ref, dec_ref}
use qtfra.Iolib.Cache.{
  Reader, ReadCache, pick_reader_cache, pick_next, pick_list_loop, pick_reader_cache_list,
  new_cache_reader_list,
}

-- The buffers that hold something.
abbrev pub not_empty : List Buffer → List Buffer
not_empty [] = []
not_empty (b ∷ buffers) = let rest = not_empty buffers in if is_empty b then rest else b ∷ rest

-- The reference counts are words.
abbrev pub RefsFit : List Buffer → Type 0
RefsFit [] = Unit
RefsFit (b ∷ buffers) = (b.ref < 2 ^ 64) × RefsFit buffers

dec_ref-inc_ref : (b : Buffer) → b.ref < 2 ^ 64 → dec_ref (inc_ref b) ≡ b
unfolding inc_ref dec_ref
dec_ref-inc_ref b h =
    let e : sub_int (add_int b.ref 1) 1 ≡ b.ref = omega arith in ap (λ n. record b { ref = n }) e

-- Buffers that are put before what a pick found.
abbrev pub put_before :
    {R : Type 0} → List Buffer → Outcome (Reader R × List Buffer) → Outcome (Reader R × List Buffer)
put_before found picked = picked >>= λ p. returns (p.0, found ++ p.1)

put_before-more :
    {R : Type 0} (found more : List Buffer) (picked : Outcome (Reader R × List Buffer))
    → put_before (found ++ more) picked ≡ put_before found (put_before more picked)
put_before-more found more (returns p) = ap (λ l. returns (p.0, l)) (append_assoc found more p.1)
put_before-more found more panics = refl
put_before-more found more runs_on = refl

module _ {R : Type 0} (read_cache : ReadCache R) where
  next-found :
      (left : Reader R) (again : List Buffer → Outcome (Reader R × List Buffer))
      (buffer : Option Buffer) (found : List Buffer)
      → ((more : List Buffer) → again more ≡ put_before more (again []))
      → pick_next left again buffer found ≡ put_before found (pick_next left again buffer [])
  next-found left again none found h = ap (λ l. returns (left, l)) (sym (append-nil found))
  next-found left again (some b) found h = elim (Bool-cases (is_empty b)) [
    | inl empty ↦ rw empty (h found)
    | inr holds ↦ rw holds (
        h (found ++ b ∷ [])
        ∙ put_before-more found (b ∷ []) (again [])
        ∙ ap (put_before found) (sym (h (b ∷ []))))
  ]

  -- The buffers found before stand before the others.
  loop-found :
      (fuel : ℕ) (r : Reader R) (found : List Buffer)
      → pick_list_loop read_cache fuel r found
        ≡ put_before found (pick_list_loop read_cache fuel r [])
  unfolding pick_list_loop
  loop-found zero r found = refl
  loop-found (suc fuel) r found =
      let (left, buffer) = pick_reader_cache read_cache r in
      next-found left (pick_list_loop read_cache fuel left) buffer found (loop-found fuel left)

  pick-new :
      (fuel : ℕ) (r : Reader R) (buffers : List Buffer)
      → RefsFit buffers
      → pick_list_loop read_cache
          (length (not_empty buffers) + fuel)
          (new_cache_reader_list r buffers)
          []
        ≡ put_before (not_empty buffers) (pick_list_loop read_cache fuel r [])
  unfolding pick_list_loop
  pick-new fuel r [] h = rw (plain_sum fuel) (loop-found fuel r [])
    where
      plain_sum : (n : ℕ) → 0 + n ≡ n
      plain_sum n = omega arith
  pick-new fuel r (b ∷ buffers) (h, hs) = elim (Bool-cases (is_empty b)) [
    | inl empty ↦ rw empty (pick-new fuel r buffers hs)
    | inr more ↦
        let next : suc (length (not_empty buffers)) + fuel
            ≡ suc (length (not_empty buffers) + fuel) =
          omega arith in
        rw (more, next, dec_ref-inc_ref b h, more)
          (loop-found (length (not_empty buffers) + fuel) (new_cache_reader_list r buffers) (b ∷ [])
            ∙ ap (put_before (b ∷ [])) (pick-new fuel r buffers hs)
            ∙ sym (
                put_before-more (b ∷ []) (not_empty buffers) (pick_list_loop read_cache fuel r [])))
  ]

  -- PickReaderCacheList on what NewCacheReaderList made of a reader and buffers gives what it gives on
  -- the reader itself, with the buffers that hold something before, in order and as they were, for a
  -- round more for each. The reference counts must be words.
  pub pick_reader_cache_list-new_cache_reader_list :
      (fuel : ℕ) (r r' : Reader R) (buffers rest : List Buffer)
      → RefsFit buffers
      → pick_reader_cache_list read_cache fuel r ≡ returns (r', rest)
      → pick_reader_cache_list read_cache
          (length (not_empty buffers) + fuel)
          (new_cache_reader_list r buffers)
        ≡ returns (r', not_empty buffers ++ rest)
  unfolding pick_reader_cache_list
  pick_reader_cache_list-new_cache_reader_list fuel r r' buffers rest h picked =
      pick-new fuel r buffers h ∙ ap (put_before (not_empty buffers)) picked
