-- ===== src/Threads/SubHub/Reach.antt =====
-- Sequences of calls on a hub.
use qtfra.Common.{
  ℕ, ◌+◌, ◌≤◌, ◌<◌, ◌^◌, ◌≡◌, ◌⊎◌, List, [], ◌∷◌, ◌++◌, refl, inl, inr, arith, Bool, false, ap₂,
  ◌∙◌, ◌||◌,
}
use qtfra.Common.Tests.{if◌then◌else◌, Comparable, ◌==◌, nat_beq, nat_comparable}
use qtfra.Common.Lists.{length}
use qtfra.Common.Outcomes.{Outcome, returns, Holds, Holds-bind, ◌>>=◌}
use qtfra.Threads.SubHub.{Hub, has, next_id, subscribe, unsubscribe, publish_n, close_subscriber}
use qtfra.Threads.SubHub.Members.{IsValid, subscribed, subscribed-subscribe, subscribed-unsubscribe}
use qtfra.Threads.SubHub.Frames.{publish_n-SameSubscriptions, close-SameSubscriptions}
use qtfra.Threads.SubHub.Kept.{subscribe-IsValid, unsubscribe-IsValid}

-- What the users of a hub call; `elsewhere` is a Subscribe on another hub.
pub data Call (V T : Type 0) : Type 0 where
  subscribes : T → ℕ → Call V T
  unsubscribes : T → List ℕ → Call V T
  publishes : T → V → ℕ → Call V T
  closes : ℕ → Call V T
  elsewhere : Call V T

-- The ids that Subscribe returned, the counter, and the hub.
abbrev pub State : Type 0 → Type 0 → Type 0
State V T = List ℕ × ℕ × Hub V T

-- Each id is past the one before, and the first one past a given one.
abbrev pub Ascending : ℕ → List ℕ → Type 0
Ascending last_id [] = Unit
Ascending last_id (id ∷ ids) = (last_id < id) × Ascending id ids

Ascending-weaken :
    (low high : ℕ) (ids : List ℕ) → low ≤ high → Ascending high ids → Ascending low ids
Ascending-weaken low high [] h a = tt
Ascending-weaken low high (id ∷ ids) h (lt, a) = (omega arith, a)

-- The ids of one call and of those after it.
first_ids :
    (last_id last_id' : ℕ) (ids later : List ℕ)
    → last_id ≤ last_id'
    → (ids ≡ []) ⊎ ((ids ≡ last_id' ∷ []) × (last_id < last_id'))
    → Ascending last_id' later
    → Ascending last_id (ids ++ later)
first_ids last_id last_id' ids later h (inl e) a =
    rw e (Ascending-weaken last_id last_id' later h a)
first_ids last_id last_id' ids later h (inr (e, lt)) a = rw e (lt, a)

module _ {V T : Type 0} ⦃c : Comparable T⦄ where
  -- The counter after a call, and who is subscribed to what then, by the call alone: each Subscribe adds
  -- the next id to its topic, and an Unsubscribe takes the ids that it names, or all of its topic.
  abbrev pub next_counter : Call V T → ℕ → ℕ
  next_counter (subscribes topic max_wait) last_id = next_id last_id
  next_counter elsewhere last_id = next_id last_id
  next_counter _ last_id = last_id

  abbrev pub expected_next : Call V T → ℕ → (T → ℕ → Bool) → T → ℕ → Bool
  expected_next (subscribes topic max_wait) last_id before = λ asked id.
      if asked == topic then id == next_id last_id || before topic id else before asked id
  expected_next (unsubscribes topic gone) last_id before = λ asked id.
      if asked == topic
      then (if nat_beq (length gone) 0 || has gone id then false else before topic id)
      else before asked id
  expected_next _ last_id before = before

  abbrev pub expected : List (Call V T) → ℕ → (T → ℕ → Bool) → T → ℕ → Bool
  expected [] last_id before = before
  expected (first ∷ rest) last_id before =
      expected rest (next_counter first last_id) (expected_next first last_id before)

  -- After some calls from a counter and a hub: the hub is in order, each id is past those given out
  -- before, and those are subscribed that are expected to.
  abbrev pub InOrder : List (Call V T) → ℕ → Hub V T → State V T → Type 0
  InOrder all last_id h (ids, last_id', h') =
      IsValid last_id' h'
      × Ascending last_id ids
      × (subscribed h' ≡ expected all last_id (subscribed h))

module _ {V T : Type 0} ⦃c : Comparable T⦄ (order : List ℕ → List ℕ) where
  -- One call, and a sequence of them, from a counter and a hub.
  unfoldable pub call : Call V T → ℕ → Hub V T → Outcome (State V T)
  call (subscribes topic max_wait) last_id h =
      let (id, h') = subscribe topic max_wait last_id h in returns (id ∷ [], id, h')
  call (unsubscribes topic gone) last_id h = returns ([], last_id, unsubscribe topic gone h)
  call (publishes topic value n) last_id h =
      publish_n order topic value n h >>= λ done. returns ([], last_id, done.1)
  call (closes id) last_id h = close_subscriber id h >>= λ h'. returns ([], last_id, h')
  call elsewhere last_id h = returns ([], next_id last_id, h)

  unfoldable pub calls : List (Call V T) → ℕ → Hub V T → Outcome (State V T)
  calls [] last_id h = returns ([], last_id, h)
  calls (first ∷ rest) last_id h = do
    (ids, last_id', h') ← call first last_id h
    done ← calls rest last_id' h'
    returns (ids ++ done.0, done.1, done.2)

  -- After one call at most one id is given out, which the counter has then, and no more than the next
  -- one is counted.
  abbrev Counted : Call V T → ℕ → Hub V T → State V T → Type 0
  Counted one last_id h (ids, last_id', h') =
      IsValid last_id' h'
      × (last_id' ≡ next_counter one last_id)
      × (last_id ≤ last_id')
      × (last_id' ≤ last_id + 1)
      × ((ids ≡ []) ⊎ ((ids ≡ last_id' ∷ []) × (last_id < last_id')))
      × (subscribed h' ≡ expected_next one last_id (subscribed h))

  call-Counted :
      (one : Call V T) (last_id : ℕ) (h : Hub V T)
      → IsValid last_id h
      → last_id + 1 < 2 ^ 64
      → Holds (Counted one last_id h) (call one last_id h)
  unfolding call subscribe
  call-Counted (subscribes topic max_wait) last_id h v room = (
    subscribe-IsValid topic max_wait last_id h v room,
    refl,
    omega arith,
    omega arith,
    inr (refl, omega arith),
    λ i asked id. subscribed-subscribe topic asked max_wait last_id id h i,
  )
  call-Counted (unsubscribes topic gone) last_id h v room = (
    unsubscribe-IsValid topic gone h v,
    refl,
    omega arith,
    omega arith,
    inl refl,
    λ i asked id. subscribed-unsubscribe topic asked gone id h i,
  )
  call-Counted (publishes topic value n) last_id h v room =
      Holds-bind (Counted (publishes topic value n) last_id h) (publish_n order topic value n h) _
        (publish_n-SameSubscriptions order topic value n last_id h v)
        (λ done (good, same). (good, refl, omega arith, omega arith, inl refl, same))
  call-Counted (closes id) last_id h v room =
      Holds-bind (Counted (closes id) last_id h) (close_subscriber id h) _
        (close-SameSubscriptions id last_id h v)
        (λ h' (good, same). (good, refl, omega arith, omega arith, inl refl, same))
  call-Counted elsewhere last_id h v room = (
    record {
      each_once = v.each_once;
      given_out = λ topic id has_id. omega (arith, v.given_out topic id has_id);
      has_channel = v.has_channel;
    },
    refl,
    omega arith,
    omega arith,
    inl refl,
    refl,
  )

  -- Whatever is called on a hub in order, and in whatever sequence, with calls of Subscribe on other
  -- hubs between, until a call panics: it stays in order, so that a topic has no id twice, a channel for
  -- each, and no id past the counter; each id that a Subscribe of the hub returned is larger than those
  -- before, and than the counter at the start; and of each topic those are subscribed that were at the
  -- start or subscribed to it, and that no later Unsubscribe took. The counter must not overflow.
  pub calls-IsValid :
      (all : List (Call V T)) (last_id : ℕ) (h : Hub V T)
      → IsValid last_id h
      → last_id + length all < 2 ^ 64
      → Holds (InOrder all last_id h) (calls all last_id h)
  unfolding calls
  calls-IsValid [] last_id h v room = (v, tt, refl)
  calls-IsValid (first ∷ rest) last_id h v room =
      Holds-bind (InOrder (first ∷ rest) last_id h) (call first last_id h) _
        (call-Counted first last_id h v (omega arith))
        (λ (ids, last_id', h') (v', counter, past, few, given, now).
          Holds-bind (InOrder (first ∷ rest) last_id h) (calls rest last_id' h') _
            (calls-IsValid rest last_id' h' v' (omega arith))
            (λ done (good, later, tracked). (
              good,
              first_ids last_id last_id' ids done.0 past given later,
              tracked ∙ ap₂ (λ n before. expected rest n before) counter now,
            )))
