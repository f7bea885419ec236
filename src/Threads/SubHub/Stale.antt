-- ===== src/Threads/SubHub/Stale.antt =====
-- A subscriber that closes its channel and is not taken off the hub.
use qtfra.Common.{
  ℕ, zero, suc, ◌≤◌, ◌≡◌, ◌⊎◌, true, false, List, [], ◌∷◌, some, min, refl, ◌∙◌, inl, inr, arith,
}
use qtfra.Common.Tests.{
  Comparable, ◌==◌, nat_beq, nat_comparable, beq_iff, Bool-cases, Option-cases,
}
use qtfra.Common.Lists.{length}
use qtfra.Common.Words.{max_int}
use qtfra.Common.Maps.{lookup, insert, lookup-insert}
use qtfra.Common.Outcomes.{returns, panics, ◌>>=◌}
use qtfra.Threads.SubHub.{
  Channel, Hub, has, members, offer, publish_to, publish_loop, publish_n, publish, close_subscriber,
}
use qtfra.Threads.SubHub.Channels.{Shuffles, length-members}

module _ {V : Type 0} where
  -- The id's channel is closed.
  abbrev pub IsClosed : ℕ → List (ℕ × Channel V) → Type 0
  IsClosed id chans = (ch : Channel V) × (lookup id chans ≡ some ch) × (ch.is_closed ≡ true)

  publish_to-IsClosed :
      (v : V) (id other : ℕ) (chans : List (ℕ × Channel V))
      → IsClosed id chans
      → (publish_to v other chans ≡ panics)
        ⊎ ((id == other ≡ false)
            × (chans' : List (ℕ × Channel V)) × (publish_to v other chans ≡ returns chans')
            × IsClosed id chans')
  unfolding publish_to
  publish_to-IsClosed v id other chans (ch, found, shut) =
      elim (Option-cases (lookup other chans)) [
        | inl missing ↦ inl (ground arith)
        | inr (ch', found') ↦ elim (Bool-cases ch'.is_closed) [
          | inl stale ↦ inl (ground arith)
          | inr fine ↦
              let differs : id == other ≡ false = ground (arith, beq_iff id other) in
              inr (
                differs,
                insert other (offer v ch') chans,
                ground arith,
                (ch, ground (arith, lookup-insert id other (offer v ch') chans), shut),
              )
        ]
      ]

  publish_loop-IsClosed :
      (v : V) (id : ℕ) (ids : List ℕ) (nn : ℕ) (chans : List (ℕ × Channel V))
      → has ids id ≡ true
      → length ids ≤ nn
      → IsClosed id chans
      → publish_loop v ids nn chans ≡ panics
  unfolding publish_loop
  publish_loop-IsClosed v id [] nn chans has_id enough shut = absurd (ground arith)
  publish_loop-IsClosed v id (other ∷ ids) zero chans has_id enough shut = absurd (omega arith)
  publish_loop-IsClosed v id (other ∷ ids) (suc nn) chans has_id enough shut =
      elim (publish_to-IsClosed v id other chans shut) [
        | inl e ↦ rw e refl
        | inr (differs, chans', e, shut') ↦
            let has_id' : has ids id ≡ true = ground arith in
            rw e (publish_loop-IsClosed v id ids nn chans' has_id' (omega arith) shut')
      ]

has-length : (ids : List ℕ) (id : ℕ) → length ids ≡ 0 → has ids id ≡ false
has-length [] id e = refl
has-length (other ∷ ids) id e = absurd (omega arith)

module _ {V T : Type 0} ⦃c : Comparable T⦄ (order : List ℕ → List ℕ) where
  publish-IsClosed :
      (topic : T) (value : V) (id : ℕ) (h : Hub V T)
      → Shuffles order
      → has (members topic h.subscribers) id ≡ true
      → length (members topic h.subscribers) ≤ max_int
      → IsClosed id h.channels
      → publish order topic value h ≡ panics
  unfolding publish publish_n
  publish-IsClosed topic value id h sh has_id fits shut =
      let some_topic : nat_beq (length h.subscribers) 0 ≡ false =
        ground (
          arith,
          length-members topic h.subscribers,
          has-length (members topic h.subscribers) id,
        ) in
      let most : min max_int (length (members topic h.subscribers))
          ≡ length (members topic h.subscribers) =
        omega arith in
      rw
        (
          some_topic,
          most,
          publish_loop-IsClosed value id (order (members topic h.subscribers))
              (length (members topic h.subscribers)) h.channels
              (sh.has-order (members topic h.subscribers) id ∙ has_id)
              (omega (arith, sh.length-order (members topic h.subscribers))) shut,
        )
        refl

  -- A subscriber that unsubscribes by its own method, which closes its channel but leaves it on the
  -- hub, makes the next Publish to its topic panic, in whatever order the subscribers are visited; the
  -- topic's subscribers must fit an int.
  pub close-publish :
      (topic : T) (value : V) (id : ℕ) (ch : Channel V) (h : Hub V T)
      → Shuffles order
      → has (members topic h.subscribers) id ≡ true
      → length (members topic h.subscribers) ≤ max_int
      → lookup id h.channels ≡ some ch
      → (close_subscriber id h >>= λ h'. publish order topic value h') ≡ panics
  unfolding close_subscriber
  close-publish topic value id ch h sh has_id fits found = elim (Bool-cases ch.is_closed) [
    | inl stale ↦ ground arith
    | inr fine ↦
        let closed : close_subscriber id h ≡ returns (record h { channels = after }) =
          ground arith in
        rw closed (
          publish-IsClosed topic value id (record h { channels = after }) sh has_id fits
            (
              record ch { is_closed = true },
              lookup-insert id id (record ch { is_closed = true }) h.channels ∙ ground arith,
              refl,
            ))
  ]
    where
      after : List (ℕ × Channel V)
      after = insert id (record ch { is_closed = true }) h.channels
