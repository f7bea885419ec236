-- ===== src/Threads/SubHub/Channels.antt =====
-- What a publication does to the channels.
use qtfra.Common.{
  ℕ, zero, suc, ◌-◌, ◌≤◌, ◌≡◌, ◌⊎◌, true, false, List, [], ◌∷◌, Option, none, some, min, refl, sym,
  ap, ◌∙◌, inl, inr, arith,
}
use qtfra.Common.Tests.{
  Comparable, ◌==◌, nat_beq, if◌then◌else◌, nat_comparable, beq_iff, Bool-cases,
}
use qtfra.Common.Lists.{length, take}
use qtfra.Common.Words.{is_neg, max_int}
use qtfra.Common.Maps.{lookup, insert, lookup-insert}
use qtfra.Common.Outcomes.{returns, ◌>>=◌}
use qtfra.Threads.SubHub.{Channel, Hub, has, members, offer, publish_to, publish_loop, publish_n}
use qtfra.Threads.SubHub.Members.{Unique, IsValid}

module _ {V : Type 0} where
  -- Every one of the ids has a channel, and it is open.
  abbrev pub AllOpen : List ℕ → List (ℕ × Channel V) → Type 0
  AllOpen ids chans =
      (id : ℕ)
      → has ids id ≡ true
      → (ch : Channel V) × (lookup id chans ≡ some ch) × (ch.is_closed ≡ false)

  -- The channel, offered the value.
  abbrev pub offered : V → Option (Channel V) → Option (Channel V)
  offered v none = none
  offered v (some ch) = some (offer v ch)

  -- The channels after the value was offered to those of the ids, and to no others.
  abbrev pub Offered : V → List ℕ → List (ℕ × Channel V) → List (ℕ × Channel V) → Type 0
  Offered v ids chans chans' =
      (id : ℕ)
      → lookup id chans' ≡ (if has ids id then offered v (lookup id chans) else lookup id chans)

  offer-is_closed : (v : V) (ch : Channel V) → (offer v ch).is_closed ≡ ch.is_closed
  offer-is_closed v ch = ground arith

  AllOpen-insert :
      (v : V) (id : ℕ) (ch : Channel V) (ids : List ℕ) (chans : List (ℕ × Channel V))
      → ch.is_closed ≡ false
      → AllOpen (id ∷ ids) chans
      → AllOpen ids (insert id (offer v ch) chans)
  AllOpen-insert v id ch ids chans opened all other h = elim (Bool-cases (other == id)) [
    | inl same ↦ (
      offer v ch,
      lookup-insert other id (offer v ch) chans ∙ rw same refl,
      offer-is_closed v ch ∙ opened,
    )
    | inr new ↦
        let (ch', found, opened') = all other (rw new h) in
        (ch', lookup-insert other id (offer v ch) chans ∙ rw new found, opened')
  ]

  publish_to-open :
      (v : V) (id : ℕ) (chans : List (ℕ × Channel V)) (ch : Channel V)
      → lookup id chans ≡ some ch
      → ch.is_closed ≡ false
      → publish_to v id chans ≡ returns (insert id (offer v ch) chans)
  unfolding publish_to
  publish_to-open v id chans ch found opened = ground arith

  publish_loop-open :
      (v : V) (id : ℕ) (ids : List ℕ) (nn : ℕ) (chans : List (ℕ × Channel V)) (ch : Channel V)
      → lookup id chans ≡ some ch
      → ch.is_closed ≡ false
      → publish_loop v (id ∷ ids) (suc nn) chans
        ≡ publish_loop v ids nn (insert id (offer v ch) chans)
  unfolding publish_loop
  publish_loop-open v id ids nn chans ch found opened =
      ap (λ sent. sent >>= publish_loop v ids nn) (publish_to-open v id chans ch found opened)

  -- The loop of PublishN offers the value to the first subscribers, each once, and panics for none.
  pub publish_loop-Offered :
      (v : V) (ids : List ℕ) (nn : ℕ) (chans : List (ℕ × Channel V))
      → Unique ids
      → AllOpen ids chans
      → (chans' : List (ℕ × Channel V)) × (publish_loop v ids nn chans
          ≡ returns (nn - length ids, chans'))
        × Offered v (take nn ids) chans chans'
  unfolding publish_loop
  publish_loop-Offered v [] zero chans u all = (chans, refl, λ id. refl)
  publish_loop-Offered v [] (suc nn) chans u all =
      let e : suc nn ≡ suc nn - 0 = omega arith in
      (chans, ap (λ k. returns (k, chans)) e, λ id. refl)
  publish_loop-Offered v (id ∷ ids) zero chans u all =
      let e : 0 ≡ 0 - length (id ∷ ids) = omega arith in
      (chans, ap (λ k. returns (k, chans)) e, λ other. refl)
  publish_loop-Offered v (id ∷ ids) (suc nn) chans (fresh, u) all =
      let (ch, found, opened) = all id (ground arith) in
      let (chans', done, rest) =
        publish_loop-Offered v ids nn (insert id (offer v ch) chans) u
          (AllOpen-insert v id ch ids chans opened all) in
      let left : nn - length ids ≡ suc nn - length (id ∷ ids) = omega arith in
      (
        chans',
        publish_loop-open v id ids nn chans ch found opened
            ∙ (done ∙ ap (λ k. returns (k, chans')) left),
        λ other. ground (
          arith,
          rest other,
          lookup-insert other id (offer v ch) chans,
          found,
          fresh,
          take-has nn ids id,
          beq_iff other id,
        ),
      )
    where
      take-has : (n : ℕ) (xs : List ℕ) (x : ℕ) → has xs x ≡ false → has (take n xs) x ≡ false
      take-has zero xs x h = refl
      take-has (suc n) [] x h = refl
      take-has (suc n) (y ∷ xs) x h = ground (arith, take-has n xs x)

-- The order of a range over a map: every key comes, and comes once.
pub record Shuffles (order : List ℕ → List ℕ) : Type 0 where
  pub has-order : (ids : List ℕ) (id : ℕ) → has (order ids) id ≡ has ids id
  pub length-order : (ids : List ℕ) → length (order ids) ≡ length ids
  pub order-Unique : (ids : List ℕ) → Unique ids → Unique (order ids)

-- How many subscribers PublishN means to reach.
abbrev pub reach : ℕ → ℕ → ℕ
reach n present = if is_neg n then present else min n present

Offered-nothing :
    {V : Type 0} (v : V) (count : ℕ) (ids : List ℕ) (chans : List (ℕ × Channel V))
    → count ≡ 0
    → Offered v (take count ids) chans chans
Offered-nothing v zero ids chans e id = refl
Offered-nothing v (suc count) ids chans e id = absurd (omega arith)

pub length-members :
    {T : Type 0} ⦃c : Comparable T⦄ (topic : T) (subs : List (T × List ℕ))
    → length subs ≡ 0
    → length (members topic subs) ≡ 0
unfolding lookup
length-members topic [] e = refl
length-members topic (entry ∷ subs) e = absurd (omega arith)

-- The count that PublishN works with.
abbrev pub limit : ℕ → ℕ
limit n = if is_neg n then max_int else n

module _ {V T : Type 0} ⦃c : Comparable T⦄ (order : List ℕ → List ℕ) where
  publish_n-nothing :
      (topic : T) (value : V) (n : ℕ) (h : Hub V T)
      → (limit n ≡ 0) ⊎ (length h.subscribers ≡ 0)
      → publish_n order topic value n h ≡ returns (0, h)
  unfolding publish_n
  publish_n-nothing topic value n h (inl e) = rw e refl
  publish_n-nothing topic value n h (inr e) = ground arith

  publish_n-loop :
      (topic : T) (value : V) (n count : ℕ) (h : Hub V T) (chans : List (ℕ × Channel V))
      → nat_beq (limit n) 0 ≡ false
      → nat_beq (length h.subscribers) 0 ≡ false
      → count ≡ min (limit n) (length (members topic h.subscribers))
      → publish_loop value (order (members topic h.subscribers)) count h.channels
        ≡ returns (0, chans)
      → publish_n order topic value n h ≡ returns (count, record h { channels = chans })
  unfolding publish_n
  publish_n-loop topic value n count h chans some_wanted some_topic e done =
      rw (some_wanted, some_topic, sym e, done)
        (ap (λ k. returns (k, record h { channels = chans })) minus_zero)
    where
      minus_zero : count - 0 ≡ count
      minus_zero = omega arith

  -- PublishN on a hub in order, whose topic's channels are open and whose subscribers fit an int,
  -- panics for no count: it returns how many subscribers it offered the value to, which is all of them
  -- for a negative count and never more than the count otherwise, each of these once, in the order of
  -- the range, nobody else's channel changes, and the subscriptions stay. A value that was offered and
  -- found no room still counts.
  pub publish_n-Offered :
      (topic : T) (value : V) (n : ℕ) {last_id : ℕ} (h : Hub V T)
      → Shuffles order
      → IsValid last_id h
      → AllOpen (members topic h.subscribers) h.channels
      → length (members topic h.subscribers) ≤ max_int
      → let ids = members topic h.subscribers in
        let count = reach n (length ids) in
        (chans : List (ℕ × Channel V)) × (publish_n order topic value n h
          ≡ returns (count, record h { channels = chans }))
        × Offered value (take count (order ids)) h.channels chans
  publish_n-Offered topic value n h sh v all fits = elim (Bool-cases (nat_beq (limit n) 0)) [
    | inl e ↦ nothing (inl (ground arith)) (ground arith)
    | inr some_wanted ↦ elim (Bool-cases (nat_beq (length h.subscribers) 0)) [
      | inl e ↦ nothing (inr (ground arith)) (ground (arith, length-members topic h.subscribers))
      | inr some_topic ↦
          let k : count ≡ min (limit n) (length ids) = ground arith in
          let (chans, done, which) =
            publish_loop-Offered value (order ids) count h.channels
              (sh.order-Unique ids (v.each_once topic))
              (λ id has_id. all id (sym (sh.has-order ids id) ∙ has_id)) in
          let none_left : count - length (order ids) ≡ 0 = ground (arith, sh.length-order ids) in
          (
            chans,
            publish_n-loop topic value n count h chans some_wanted some_topic k
                (done ∙ ap (λ k. returns (k, chans)) none_left),
            which,
          )
    ]
  ]
    where
      ids : List ℕ
      ids = members topic h.subscribers

      count : ℕ
      count = reach n (length ids)

      nothing :
          (limit n ≡ 0) ⊎ (length h.subscribers ≡ 0)
          → count ≡ 0
          → (chans : List (ℕ × Channel V)) × (publish_n order topic value n h
              ≡ returns (count, record h { channels = chans }))
            × Offered value (take count (order ids)) h.channels chans
      nothing why e = (
        h.channels,
        publish_n-nothing topic value n h why ∙ ap (λ k. returns (k, h)) (sym e),
        Offered-nothing value count (order ids) h.channels e,
      )
