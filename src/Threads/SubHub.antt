-- ===== src/Threads/SubHub.antt =====
-- threads/sub.go. A subscriber is told by its id; its channel stands in a store under that id, since
-- the subscriber's owner and the hub share it. The mutex makes each method one step. The order in
-- which Go ranges over a map is a parameter.
pub mod Channels
pub mod Members
pub mod Frames
pub mod Kept
pub mod Reach
pub mod Stale
mod Tests
use qtfra.Common.{
  ℕ, zero, suc, ◌+◌, ◌-◌, ◌%◌, ◌^◌, Bool, true, false, ◌||◌, List, [], ◌∷◌, ◌++◌, Option, none,
  some, min,
}
use qtfra.Common.Tests.{Comparable, ◌==◌, ltb, nat_beq, if◌then◌else◌, nat_comparable}
use qtfra.Common.Lists.{length}
use qtfra.Common.Words.{is_neg, max_int}
use qtfra.Common.Maps.{lookup, insert, erase}
use qtfra.Common.Outcomes.{Outcome, returns, panics, ◌>>=◌}

-- A Go channel: what waits in it, how much may wait, how many receivers are blocked on it, and what
-- they were handed.
pub record Channel (V : Type 0) : Type 0 where
  pub queue : List V
  pub capacity : ℕ
  pub receivers : ℕ
  pub handed : List V
  pub is_closed : Bool

pub record Hub (V T : Type 0) : Type 0 where
  pub subscribers : List (T × List ℕ)
  pub channels : List (ℕ × Channel V)

abbrev pub has : List ℕ → ℕ → Bool
has [] id = false
has (other ∷ ids) id = id == other || has ids id

-- delete(existSubscriber, id)
abbrev pub delete_id : ℕ → List ℕ → List ℕ
delete_id id [] = []
delete_id id (other ∷ ids) =
    let kept = delete_id id ids in if id == other then kept else other ∷ kept

abbrev pub delete_ids : List ℕ → List ℕ → List ℕ
delete_ids [] ids = ids
delete_ids (id ∷ gone) ids = delete_ids gone (delete_id id ids)

-- newChannelSubscriber's id, a word
abbrev pub next_id : ℕ → ℕ
next_id last_id = (last_id + 1) % 2 ^ 64

module _ {V : Type 0} where
  -- newChannelSubscriber's channel
  abbrev pub new_channel : ℕ → Channel V
  new_channel queue = record {
    queue = [];
    capacity = (if is_neg queue then 0 else queue);
    receivers = 0;
    handed = [];
    is_closed = false;
  }

  -- A send that does not block, on an open channel.
  abbrev pub offer : V → Channel V → Channel V
  offer v ch =
      if ltb 0 ch.receivers
      then record ch { receivers = ch.receivers - 1; handed = ch.handed ++ v ∷ [] }
      else if ltb (length ch.queue) ch.capacity
      then record ch { queue = ch.queue ++ v ∷ [] }
      else ch

  -- (*channelSubscriber).publish: a send on a closed channel panics.
  unfoldable pub publish_to : V → ℕ → List (ℕ × Channel V) → Outcome (List (ℕ × Channel V))
  publish_to v id chans = elim (lookup id chans) [
    | none ↦ panics
    | some ch ↦ if ch.is_closed then panics else returns (insert id (offer v ch) chans)
  ]

  -- The loop of PublishN, with `nn` sends to go.
  unfoldable pub publish_loop :
      V → List ℕ → ℕ → List (ℕ × Channel V) → Outcome (ℕ × List (ℕ × Channel V))
  publish_loop v [] nn chans = returns (nn, chans)
  publish_loop v (id ∷ ids) zero chans = returns (zero, chans)
  publish_loop v (id ∷ ids) (suc nn) chans = do
    chans' ← publish_to v id chans
    publish_loop v ids nn chans'

module _ {T : Type 0} ⦃c : Comparable T⦄ where
  -- `sh.subscribers[topic]`, nil where there is none.
  abbrev pub members : T → List (T × List ℕ) → List ℕ
  members topic subs = elim (lookup topic subs) [ none ↦ [] | some ids ↦ ids ]

module _ {V T : Type 0} ⦃c : Comparable T⦄ where
  -- Subscribe, with the counter that all hubs of the program share: it returns the new subscriber's id,
  -- which is the counter after it too.
  unfoldable pub subscribe : T → ℕ → ℕ → Hub V T → ℕ × Hub V T
  subscribe topic max_wait last_id h =
      let id = next_id last_id in
      (
        id,
        record {
          subscribers =
              insert topic (id ∷ delete_id id (members topic h.subscribers)) h.subscribers;
          channels = insert id (new_channel max_wait) h.channels;
        },
      )

  -- (*SubHub).Unsubscribe
  unfoldable pub unsubscribe : T → List ℕ → Hub V T → Hub V T
  unsubscribe topic gone h =
      if nat_beq (length h.subscribers) 0
      then h
      else if nat_beq (length gone) 0
      then record h { subscribers = erase topic h.subscribers }
      else if nat_beq (length (members topic h.subscribers)) 0
      then h
      else record h {
        subscribers = insert topic (delete_ids gone (members topic h.subscribers)) h.subscribers;
      }

  module _ (order : List ℕ → List ℕ) where
    -- PublishN
    unfoldable pub publish_n : T → V → ℕ → Hub V T → Outcome (ℕ × Hub V T)
    publish_n topic value n h =
        let n' = (if is_neg n then max_int else n) in
        if nat_beq n' 0
        then returns (0, h)
        else if nat_beq (length h.subscribers) 0
        then returns (0, h)
        else (do
          let ids = members topic h.subscribers
          let most = min n' (length ids)
          done ← publish_loop value (order ids) most h.channels
          returns (most - done.0, record h { channels = done.1 }))

    -- Publish
    unfoldable pub publish : T → V → Hub V T → Outcome (ℕ × Hub V T)
    publish topic value h = publish_n topic value (2 ^ 64 - 1) h

  -- (*channelSubscriber).Unsubscribe: close panics on a closed channel.
  unfoldable pub close_subscriber : ℕ → Hub V T → Outcome (Hub V T)
  close_subscriber id h = elim (lookup id h.channels) [
    | none ↦ panics
    | some ch ↦
        if ch.is_closed
        then panics
        else returns (record h { channels = insert id (record ch { is_closed = true }) h.channels })
  ]
