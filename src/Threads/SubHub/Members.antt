-- ===== src/Threads/SubHub/Members.antt =====
-- The ids of a topic, and the hubs in which they are in order: each stands once, is no later than the
-- last one given out, and has a channel.
use qtfra.Common.{
  ℕ, ◌≤◌, ◌≡◌, Bool, true, false, ◌||◌, List, [], ◌∷◌, some, refl, ◌∙◌, inl, inr, arith,
}
use qtfra.Common.Tests.{
  Comparable, ◌==◌, nat_beq, if◌then◌else◌, nat_comparable, beq_iff, Bool-cases,
}
use qtfra.Common.Lists.{length}
use qtfra.Common.Maps.{lookup, insert, erase, lookup-insert, lookup-erase}
use qtfra.Threads.SubHub.{Channel, Hub, has, delete_id, delete_ids, members, subscribe, unsubscribe}

abbrev pub Unique : List ℕ → Type 0
Unique [] = Unit
Unique (id ∷ ids) = (has ids id ≡ false) × Unique ids

pub has-delete_id :
    (id gone : ℕ) (ids : List ℕ)
    → has (delete_id gone ids) id ≡ (if id == gone then false else has ids id)
has-delete_id id gone [] = ground arith
has-delete_id id gone (other ∷ ids) = ground (arith, has-delete_id id gone ids)

pub delete_id-Unique : (gone : ℕ) (ids : List ℕ) → Unique ids → Unique (delete_id gone ids)
delete_id-Unique gone [] u = tt
delete_id-Unique gone (other ∷ ids) (fresh, u) = elim (Bool-cases (gone == other)) [
  | inl same ↦ rw same (delete_id-Unique gone ids u)
  | inr new ↦ rw new (has-delete_id other gone ids ∙ ground arith, delete_id-Unique gone ids u)
]

pub has-delete_ids :
    (id : ℕ) (gone ids : List ℕ)
    → has (delete_ids gone ids) id ≡ (if has gone id then false else has ids id)
has-delete_ids id [] ids = refl
has-delete_ids id (g ∷ gone) ids =
    ground (arith, has-delete_ids id gone (delete_id g ids), has-delete_id id g ids)

pub delete_ids-Unique : (gone ids : List ℕ) → Unique ids → Unique (delete_ids gone ids)
delete_ids-Unique [] ids u = u
delete_ids-Unique (g ∷ gone) ids u =
    delete_ids-Unique gone (delete_id g ids) (delete_id-Unique g ids u)

module _ {T : Type 0} ⦃c : Comparable T⦄ where
  pub members-insert :
      (asked topic : T) (ids : List ℕ) (subs : List (T × List ℕ))
      → members asked (insert topic ids subs) ≡ (if asked == topic then ids else members asked subs)
  members-insert asked topic ids subs = ground (arith, lookup-insert asked topic ids subs)

  pub members-erase :
      (asked topic : T) (subs : List (T × List ℕ))
      → members asked (erase topic subs) ≡ (if asked == topic then [] else members asked subs)
  members-erase asked topic subs = ground (arith, lookup-erase asked topic subs)

module _ {V T : Type 0} ⦃c : Comparable T⦄ where
  -- Whether a subscriber of the topic has the id.
  abbrev pub subscribed : Hub V T → T → ℕ → Bool
  subscribed h topic id = has (members topic h.subscribers) id

  pub record IsValid (last_id : ℕ) (h : Hub V T) : Type 0 where
    pub each_once : (topic : T) → Unique (members topic h.subscribers)
    pub given_out : (topic : T) (id : ℕ) → subscribed h topic id ≡ true → id ≤ last_id
    pub has_channel :
        (topic : T) (id : ℕ)
        → subscribed h topic id ≡ true
        → (ch : Channel V) × (lookup id h.channels ≡ some ch)

  -- What Subscribe changes: the topic has the new id, and nobody else's subscription changes.
  pub subscribed-subscribe :
      (topic asked : T) (max_wait last_id id : ℕ) (h : Hub V T)
      → let (new, h') = subscribe topic max_wait last_id h in
        subscribed h' asked id
        ≡ (if asked == topic then id == new || subscribed h topic id else subscribed h asked id)
  unfolding subscribe
  subscribed-subscribe topic asked max_wait last_id id h =
      let new = (subscribe topic max_wait last_id h).0 in
      rw
        (members-insert asked topic (new ∷ delete_id new (members topic h.subscribers))
          h.subscribers)
        (ground (arith, has-delete_id id new (members topic h.subscribers)))

  -- What Unsubscribe changes: the topic loses the ids, all of them when none is named.
  pub subscribed-unsubscribe :
      (topic asked : T) (gone : List ℕ) (id : ℕ) (h : Hub V T)
      → subscribed (unsubscribe topic gone h) asked id ≡ (
          if asked == topic
          then (if nat_beq (length gone) 0 || has gone id then false else subscribed h topic id)
          else subscribed h asked id)
  unfolding unsubscribe lookup
  subscribed-unsubscribe topic asked gone id h = ground (
    arith,
    members-erase asked topic h.subscribers,
    members-insert asked topic (delete_ids gone (members topic h.subscribers)) h.subscribers,
    has-delete_ids id gone (members topic h.subscribers),
    no_topics h.subscribers asked,
    beq_iff asked topic,
    empty-has (members topic h.subscribers) id,
  )
    where
      no_topics : (subs : List (T × List ℕ)) (asked : T) → length subs ≡ 0 → members asked subs ≡ []
      no_topics [] asked e = refl
      no_topics (entry ∷ subs) asked e = absurd (omega arith)

      empty-has : (ids : List ℕ) (id : ℕ) → length ids ≡ 0 → has ids id ≡ false
      empty-has [] id e = refl
      empty-has (other ∷ ids) id e = absurd (omega arith)
