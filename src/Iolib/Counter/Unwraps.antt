-- ===== src/Iolib/Counter/Unwraps.antt =====
-- What unwrapping does to the counters, and when it ends.
use qtfra.Common.{
  ℕ, zero, suc, ◌+◌, ◌≤◌, ◌≡◌, Bool, List, [], ◌∷◌, ◌++◌, none, some, refl, inl, inr, arith,
}
use qtfra.Common.Tests.{if◌then◌else◌, nat_beq, Bool-cases}
use qtfra.Common.Lists.{length}
use qtfra.Common.Outcomes.{returns, runs_on}
use qtfra.Iolib.Counter.{
  Stack, base, over, counting, unwrap_read_loop, unwrap_read_counter, unwrap_writer_loop,
  unwrap_writer_counter, flattened, new_counted, new_reader, called,
}

module _ {F : Type 0} where
  -- How often a counter of a kind is in the list.
  abbrev pub count : (F → Bool) → List F → ℕ
  count p [] = 0
  count p (f ∷ fs) = if p f then suc (count p fs) else count p fs

  count-append : (p : F → Bool) (xs ys : List F) → count p (xs ++ ys) ≡ count p xs + count p ys
  count-append p [] ys = omega arith
  count-append p (x ∷ xs) ys = ground (arith, count-append p xs ys)

  -- Every foreign type with counters has something below it.
  abbrev pub IsLayered : Stack F → Type 0
  IsLayered (base none n) = Unit
  IsLayered (base (some cs) n) = ⊥
  IsLayered (over d w) = IsLayered w
  IsLayered (counting cs w) = IsLayered w

  abbrev pub height : Stack F → ℕ
  height (base d n) = 1
  height (over d w) = suc (height w)
  height (counting cs w) = suc (height w)

  count-unwrap :
      (p : F → Bool) (r : Stack F) (ans : List F)
      → IsLayered r
      → let (inner, found) = unwrap_read_loop r ans in
        count p found + count p (called inner) ≡ count p ans + count p (called r)
  unfolding unwrap_read_loop called
  count-unwrap p (base none n) ans l = refl
  count-unwrap p (base (some cs) n) ans l = absurd l
  count-unwrap p (over none r) ans l = refl
  count-unwrap p (over (some cs) r) ans l =
      omega
        (arith, count-unwrap p r (ans ++ cs) l, count-append p ans cs, count-append p (called r) cs)
  count-unwrap p (counting cs r) ans l =
      omega
        (arith, count-unwrap p r (ans ++ cs) l, count-append p ans cs, count-append p (called r) cs)

  count-flattened :
      (p : F → Bool) (r : Stack F) (counters : List F)
      → IsLayered r
      → count p (called (flattened (unwrap_read_counter r) counters))
        ≡ count p (called r) + count p counters
  unfolding unwrap_read_counter called
  count-flattened p r counters l =
      let (inner, extra) = unwrap_read_loop r [] in
      omega (
        arith,
        count-unwrap p r [] l,
        count-append p (called inner) (extra ++ counters),
        count-append p extra counters,
      )

  -- After NewReader each counter is called as often as before, and the new ones as often as they are
  -- given, for a stack in which every foreign type with counters has a reader below it.
  pub new_reader-count :
      (p : F → Bool) (r : Stack F) (counters : List F)
      → IsLayered r
      → count p (called (new_reader r counters)) ≡ count p (called r) + count p counters
  unfolding new_reader
  new_reader-count p r counters l = elim (Bool-cases (nat_beq (length counters) 0)) [
    | inl empty ↦ rw empty (no_more counters (ground arith))
    | inr some_more ↦ rw some_more (more r l)
  ]
    where
      no_more : (cs : List F) → length cs ≡ 0 → count p (called r) ≡ count p (called r) + count p cs
      no_more [] e = omega arith
      no_more (c ∷ cs) e = absurd (omega arith)

      fast :
          (cs : List F) (r : Stack F)
          → count p (called (counting (cs ++ counters) r))
            ≡ count p (called (counting cs r)) + count p counters
      fast cs r =
          unfold called in
          omega (
            arith,
            count-append p (called r) (cs ++ counters),
            count-append p cs counters,
            count-append p (called r) cs,
          )

      more :
          (r : Stack F)
          → IsLayered r
          → count p (called (new_counted r counters)) ≡ count p (called r) + count p counters
      more (base d n) l = count-flattened p (base d n) counters l
      more (over d r) l = count-flattened p (over d r) counters l
      more (counting cs r) l = fast cs r

  unwrap_writer_loop-layered :
      (fuel : ℕ) (w : Stack F) (ans : List F)
      → IsLayered w
      → height w ≤ fuel
      → unwrap_writer_loop fuel w ans ≡ returns (unwrap_read_loop w ans)
  unfolding unwrap_writer_loop unwrap_read_loop
  unwrap_writer_loop-layered zero (base d n) ans l h = absurd (omega arith)
  unwrap_writer_loop-layered zero (over d w) ans l h = absurd (omega arith)
  unwrap_writer_loop-layered zero (counting cs w) ans l h = absurd (omega arith)
  unwrap_writer_loop-layered (suc fuel) (base none n) ans l h = refl
  unwrap_writer_loop-layered (suc fuel) (base (some cs) n) ans l h = absurd l
  unwrap_writer_loop-layered (suc fuel) (over none w) ans l h = refl
  unwrap_writer_loop-layered (suc fuel) (over (some cs) w) ans l h =
      unwrap_writer_loop-layered fuel w (ans ++ cs) l (omega arith)
  unwrap_writer_loop-layered (suc fuel) (counting cs w) ans l h =
      unwrap_writer_loop-layered fuel w (ans ++ cs) l (omega arith)

  unwrap_writer_loop-forever :
      (fuel n : ℕ) (cs ans : List F) → unwrap_writer_loop fuel (base (some cs) n) ans ≡ runs_on
  unfolding unwrap_writer_loop
  unwrap_writer_loop-forever zero n cs ans = refl
  unwrap_writer_loop-forever (suc fuel) n cs ans = unwrap_writer_loop-forever fuel n cs (ans ++ cs)

  -- UnwrapWriterCounter finds what UnwrapReadCounter finds on a stack in which every foreign type with
  -- counters has a writer below it, in as many rounds as the stack is high; on a writer with counters
  -- and nothing below it goes round for ever, where UnwrapReadCounter returns.
  pub unwrap_writer_counter-cases :
      (fuel : ℕ) (w : Stack F) (cs : List F) (n : ℕ)
      → IsLayered w
      → height w ≤ fuel
      → (unwrap_writer_counter fuel w ≡ returns (unwrap_read_counter w))
        × ((rounds : ℕ) → unwrap_writer_counter rounds (base (some cs) n) ≡ runs_on)
        × (unwrap_read_counter (base (some cs) n) ≡ (base (some cs) n, cs))
  unfolding unwrap_writer_counter unwrap_read_counter unwrap_read_loop
  unwrap_writer_counter-cases fuel w cs n l h = (
    unwrap_writer_loop-layered fuel w [] l h,
    λ rounds. unwrap_writer_loop-forever rounds n cs [],
    refl,
  )
