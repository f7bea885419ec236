-- ===== src/Threads/SubHub/Kept.antt =====
-- Subscribe and Unsubscribe keep a hub in order, and so do other channels under the same ids.
use qtfra.Common.{
  ℕ, ◌+◌, ◌<◌, ◌^◌, ◌≡◌, ◌⊎◌, true, false, List, [], ◌∷◌, some, refl, sym, ◌∙◌, inl, inr, arith,
  subst,
}
use qtfra.Common.Tests.{Comparable, ◌==◌, nat_beq, nat_comparable, beq_iff, Bool-cases}
use qtfra.Common.Lists.{length}
use qtfra.Common.Maps.{lookup, erase, insert, lookup-insert}
use qtfra.Threads.SubHub.{
  Channel, Hub, has, delete_id, delete_ids, members, new_channel, next_id, subscribe, unsubscribe,
}
use qtfra.Threads.SubHub.Members.{
  Unique, IsValid, subscribed, subscribed-subscribe, delete_id-Unique, delete_ids-Unique,
  has-delete_id, has-delete_ids, members-insert, members-erase,
}

module _ {T : Type 0} ⦃c : Comparable T⦄ where
  pub insert-Unique :
      (topic : T) (ids : List ℕ) (subs : List (T × List ℕ))
      → Unique ids
      → ((asked : T) → Unique (members asked subs))
      → (asked : T) → Unique (members asked (insert topic ids subs))
  insert-Unique topic ids subs u all asked = elim (Bool-cases (asked == topic)) [
    | inl same ↦
        let e : members asked (insert topic ids subs) ≡ ids =
          ground (arith, members-insert asked topic ids subs) in
        subst Unique (sym e) u
    | inr differs ↦
        let e : members asked (insert topic ids subs) ≡ members asked subs =
          ground (arith, members-insert asked topic ids subs) in
        subst Unique (sym e) (all asked)
  ]

  pub erase-Unique :
      (topic : T) (subs : List (T × List ℕ))
      → ((asked : T) → Unique (members asked subs))
      → (asked : T) → Unique (members asked (erase topic subs))
  erase-Unique topic subs all asked = elim (Bool-cases (asked == topic)) [
    | inl same ↦
        let e : members asked (erase topic subs) ≡ [] =
          ground (arith, members-erase asked topic subs) in
        subst Unique (sym e) tt
    | inr differs ↦
        let e : members asked (erase topic subs) ≡ members asked subs =
          ground (arith, members-erase asked topic subs) in
        subst Unique (sym e) (all asked)
  ]

module _ {V T : Type 0} ⦃c : Comparable T⦄ where
  -- Each id that is new is one that no topic has.
  pub new_id :
      (last_id : ℕ) (h : Hub V T) (topic : T)
      → IsValid last_id h
      → last_id + 1 < 2 ^ 64
      → has (members topic h.subscribers) (next_id last_id) ≡ false
  new_id last_id h topic v room =
      elim (Bool-cases (has (members topic h.subscribers) (next_id last_id))) [
        | inl old ↦ absurd (omega (arith, v.given_out topic (next_id last_id) old))
        | inr new ↦ new
      ]

  pub has_channel-insert :
      (h : Hub V T) (asked : ℕ) (id : ℕ) (ch : Channel V)
      → (asked == id ≡ true) ⊎ ((ch' : Channel V) × (lookup asked h.channels ≡ some ch'))
      → (ch' : Channel V) × (lookup asked (insert id ch h.channels) ≡ some ch')
  has_channel-insert h asked id ch (inl same) =
      (ch, lookup-insert asked id ch h.channels ∙ rw same refl)
  has_channel-insert h asked id ch (inr (ch', found)) = elim (Bool-cases (asked == id)) [
    | inl same ↦ (ch, lookup-insert asked id ch h.channels ∙ rw same refl)
    | inr new ↦ (ch', lookup-insert asked id ch h.channels ∙ rw new found)
  ]

  pub subscribe-IsValid :
      (topic : T) (max_wait last_id : ℕ) (h : Hub V T)
      → IsValid last_id h
      → last_id + 1 < 2 ^ 64
      → IsValid (next_id last_id) (subscribe topic max_wait last_id h).1
  unfolding subscribe
  subscribe-IsValid topic max_wait last_id h v room = record {
    each_once = once;
    given_out = λ asked id has_id. elim (who asked id has_id) [
      | inl same ↦ ground arith
      | inr old ↦ omega (arith, v.given_out asked id old)
    ];
    has_channel = λ asked id has_id.
        has_channel-insert h id new (new_channel max_wait) (elim (who asked id has_id) [
          | inl same ↦ inl same
          | inr old ↦ inr (v.has_channel asked id old)
        ]);
  }
    where
      new : ℕ
      new = next_id last_id

      ids : List ℕ
      ids = new ∷ delete_id new (members topic h.subscribers)

      who :
          (asked : T) (id : ℕ)
          → subscribed (subscribe topic max_wait last_id h).1 asked id ≡ true
          → (id == new ≡ true) ⊎ (subscribed h asked id ≡ true)
      who asked id has_id =
          ground
            (arith, subscribed-subscribe topic asked max_wait last_id id h, beq_iff asked topic)

      once : (asked : T) → Unique (members asked (insert topic ids h.subscribers))
      once =
          insert-Unique topic ids h.subscribers
            (
              has-delete_id new new (members topic h.subscribers) ∙ ground arith,
              delete_id-Unique new (members topic h.subscribers) (v.each_once topic),
            )
            v.each_once

  -- A hub with fewer subscriptions is in order where the old one was.
  pub fewer-IsValid :
      {last_id : ℕ} (h : Hub V T) (subs : List (T × List ℕ))
      → IsValid last_id h
      → ((asked : T) → Unique (members asked subs))
      → ((asked : T) (id : ℕ) → has (members asked subs) id ≡ true → subscribed h asked id ≡ true)
      → IsValid last_id (record h { subscribers = subs })
  fewer-IsValid h subs v once old = record {
    each_once = once;
    given_out = λ asked id has_id. v.given_out asked id (old asked id has_id);
    has_channel = λ asked id has_id. v.has_channel asked id (old asked id has_id);
  }

  pub unsubscribe-IsValid :
      {last_id : ℕ} (topic : T) (gone : List ℕ) (h : Hub V T)
      → IsValid last_id h
      → IsValid last_id (unsubscribe topic gone h)
  unfolding unsubscribe
  unsubscribe-IsValid topic gone h v = elim (Bool-cases (nat_beq (length h.subscribers) 0)) [
    | inl e ↦ rw e v
    | inr some_topic ↦ elim (Bool-cases (nat_beq (length gone) 0)) [
      | inl e ↦
          rw (some_topic, e)
            (fewer-IsValid h (erase topic h.subscribers) v
              (erase-Unique topic h.subscribers v.each_once)
              (λ asked id has_id. ground (arith, members-erase asked topic h.subscribers)))
      | inr some_gone ↦ elim (Bool-cases (nat_beq (length ids) 0)) [
        | inl e ↦ rw (some_topic, some_gone, e) v
        | inr some_id ↦
            rw (some_topic, some_gone, some_id)
              (fewer-IsValid h (insert topic (delete_ids gone ids) h.subscribers) v
                (insert-Unique topic (delete_ids gone ids) h.subscribers
                  (delete_ids-Unique gone ids (v.each_once topic)) v.each_once)
                (λ asked id has_id. ground (
                  arith,
                  members-insert asked topic (delete_ids gone ids) h.subscribers,
                  has-delete_ids id gone ids,
                  beq_iff asked topic,
                )))
      ]
    ]
  ]
    where
      ids : List ℕ
      ids = members topic h.subscribers

  -- Other channels under the same ids.
  pub channels-IsValid :
      {last_id : ℕ} (h : Hub V T) (chans : List (ℕ × Channel V))
      → IsValid last_id h
      → ((id : ℕ) (ch : Channel V)
          → lookup id h.channels ≡ some ch
          → (ch' : Channel V) × (lookup id chans ≡ some ch'))
      → IsValid last_id (record h { channels = chans })
  channels-IsValid h chans v keeps = record {
    each_once = v.each_once;
    given_out = v.given_out;
    has_channel =
        λ asked id has_id. let (ch, found) = v.has_channel asked id has_id in keeps id ch found;
  }
