-- ===== src/Threads/SubHub/Frames.antt =====
-- PublishN, and the Unsubscribe of a subscriber, keep a hub in order and its subscriptions.
use qtfra.Common.{ℕ, zero, suc, ◌≡◌, ◌⊎◌, true, List, [], ◌∷◌, some, min, refl, inl, inr, arith}
use qtfra.Common.Tests.{Comparable, ◌==◌, nat_beq, nat_comparable, Bool-cases, Option-cases}
use qtfra.Common.Lists.{length}
use qtfra.Common.Maps.{lookup, insert, lookup-insert}
use qtfra.Common.Outcomes.{returns, panics, Holds, Holds-weaken, Holds-bind}
use qtfra.Threads.SubHub.{
  Channel, Hub, members, publish_n, close_subscriber, publish_to, publish_loop, offer,
}
use qtfra.Threads.SubHub.Members.{IsValid, subscribed}
use qtfra.Threads.SubHub.Channels.{limit}
use qtfra.Threads.SubHub.Kept.{channels-IsValid}

module _ {V : Type 0} where
  -- The second store has a channel wherever the first has one.
  abbrev pub Keeps : List (ℕ × Channel V) → List (ℕ × Channel V) → Type 0
  Keeps chans chans' =
      (id : ℕ) (ch : Channel V)
      → lookup id chans ≡ some ch
      → (ch' : Channel V) × (lookup id chans' ≡ some ch')

  insert-Keeps :
      (chans : List (ℕ × Channel V)) (id : ℕ) (ch : Channel V) → Keeps chans (insert id ch chans)
  insert-Keeps chans id ch asked old found = elim (Bool-cases (asked == id)) [
    | inl same ↦ (ch, ground (arith, lookup-insert asked id ch chans))
    | inr new ↦ (old, ground (arith, lookup-insert asked id ch chans))
  ]

  publish_to-cases :
      (v : V) (id : ℕ) (chans : List (ℕ × Channel V))
      → (publish_to v id chans ≡ panics)
        ⊎ ((ch : Channel V) × (publish_to v id chans ≡ returns (insert id ch chans)))
  unfolding publish_to
  publish_to-cases v id chans = elim (Option-cases (lookup id chans)) [
    | inl missing ↦ inl (ground arith)
    | inr (ch, found) ↦ elim (Bool-cases ch.is_closed) [
      | inl stale ↦ inl (ground arith)
      | inr opened ↦ inr (offer v ch, ground arith)
    ]
  ]

  publish_loop-Keeps :
      (v : V) (ids : List ℕ) (nn : ℕ) (chans : List (ℕ × Channel V))
      → Holds (λ done. Keeps chans done.1) (publish_loop v ids nn chans)
  unfolding publish_loop
  publish_loop-Keeps v [] nn chans = λ other ch found. (ch, found)
  publish_loop-Keeps v (id ∷ ids) zero chans = λ other ch found. (ch, found)
  publish_loop-Keeps v (id ∷ ids) (suc nn) chans = elim (publish_to-cases v id chans) [
    | inl e ↦ rw e tt
    | inr (ch, e) ↦ rw e (
        Holds-weaken (publish_loop v ids nn (insert id ch chans))
          (λ done keeps asked old found.
            let (mid, there) = insert-Keeps chans id ch asked old found in keeps asked mid there)
          (publish_loop-Keeps v ids nn (insert id ch chans)))
  ]

module _ {V T : Type 0} ⦃c : Comparable T⦄ where
  -- A hub in order with the subscriptions of another one.
  abbrev pub SameSubscriptions : ℕ → Hub V T → Hub V T → Type 0
  SameSubscriptions last_id h h' = IsValid last_id h' × (subscribed h' ≡ subscribed h)

module _ {V T : Type 0} ⦃c : Comparable T⦄ (order : List ℕ → List ℕ) where
  pub publish_n-SameSubscriptions :
      (topic : T) (value : V) (n last_id : ℕ) (h : Hub V T)
      → IsValid last_id h
      → Holds (λ done. SameSubscriptions last_id h done.1) (publish_n order topic value n h)
  unfolding publish_n
  publish_n-SameSubscriptions topic value n last_id h v = elim (Bool-cases (nat_beq (limit n) 0)) [
    | inl e ↦ rw e (v, refl)
    | inr some_wanted ↦ elim (Bool-cases (nat_beq (length h.subscribers) 0)) [
      | inl e ↦ rw (some_wanted, e) (v, refl)
      | inr some_topic ↦
          rw (some_wanted, some_topic)
            (Holds-bind (λ done. SameSubscriptions last_id h done.1)
              (publish_loop value (order ids) (min (limit n) (length ids)) h.channels) _
              (publish_loop-Keeps value (order ids) (min (limit n) (length ids)) h.channels)
              (λ done keeps. (channels-IsValid h done.1 v keeps, refl)))
    ]
  ]
    where
      ids : List ℕ
      ids = members topic h.subscribers

module _ {V T : Type 0} ⦃c : Comparable T⦄ where
  close-cases :
      (id : ℕ) (h : Hub V T)
      → (close_subscriber id h ≡ panics)
        ⊎ ((ch : Channel V) × (close_subscriber id h
              ≡ returns (record h { channels = insert id ch h.channels })))
  unfolding close_subscriber
  close-cases id h = elim (Option-cases (lookup id h.channels)) [
    | inl missing ↦ inl (ground arith)
    | inr (ch, found) ↦ elim (Bool-cases ch.is_closed) [
      | inl stale ↦ inl (ground arith)
      | inr opened ↦ inr (record ch { is_closed = true }, ground arith)
    ]
  ]

  pub close-SameSubscriptions :
      (id last_id : ℕ) (h : Hub V T)
      → IsValid last_id h
      → Holds (SameSubscriptions last_id h) (close_subscriber id h)
  close-SameSubscriptions id last_id h v = elim (close-cases id h) [
    | inl e ↦ rw e tt
    | inr (ch, e) ↦
        rw e (channels-IsValid h (insert id ch h.channels) v (insert-Keeps h.channels id ch), refl)
  ]
