-- ===== src/Threads/SubHub/Tests.antt =====
-- A hub with two topics.
use qtfra.Common.{ℕ, ◌≤◌, ◌≡◌, true, false, List, [], ◌∷◌, some, refl, arith, inl, inr}
use qtfra.Common.Tests.{nat_comparable, nat_beq, Bool-cases}
use qtfra.Common.Lists.{length, take}
use qtfra.Common.Words.{max_int}
use qtfra.Common.Maps.{lookup, insert, erase}
use qtfra.Common.Outcomes.{returns, panics, Holds, ◌>>=◌}
use qtfra.Threads.SubHub.{
  Channel, Hub, has, members, subscribe, publish_n, publish, close_subscriber,
}
use qtfra.Threads.SubHub.Members.{IsValid}
use qtfra.Threads.SubHub.Channels.{AllOpen, Offered, Shuffles, reach, publish_n-Offered}
use qtfra.Threads.SubHub.Reach.{
  Call, InOrder, call, subscribes, unsubscribes, publishes, closes, elsewhere, calls, calls-IsValid,
}
use qtfra.Threads.SubHub.Stale.{close-publish}

abbrev same_order : List ℕ → List ℕ
same_order ids = ids

same_order-Shuffles : Shuffles same_order
same_order-Shuffles = record {
  has-order = λ ids id. refl;
  length-order = λ ids. refl;
  order-Unique = λ ids u. u;
}

abbrev room_for : ℕ → Channel ℕ
room_for n = record { queue = []; capacity = n; receivers = 0; handed = []; is_closed = false }

abbrev two : Hub ℕ ℕ
two = record {
  subscribers = (5, 2 ∷ 1 ∷ []) ∷ [];
  channels = (2, room_for 3) ∷ (1, room_for 0) ∷ [];
}

abbrev empty_hub : Hub ℕ ℕ
empty_hub = record { subscribers = []; channels = [] }

empty_hub-IsValid : IsValid 0 empty_hub
unfolding lookup
empty_hub-IsValid = record {
  each_once = λ topic. tt;
  given_out = λ topic id h. absurd (ground arith);
  has_channel = λ topic id h. absurd (ground arith);
}

two-IsValid : IsValid 2 two
unfolding calls call subscribe insert erase lookup
two-IsValid =
    (calls-IsValid same_order (subscribes 5 0 ∷ subscribes 5 3 ∷ []) 0 empty_hub empty_hub-IsValid
      (omega arith)).0

two-AllOpen : AllOpen (members 5 two.subscribers) two.channels
unfolding lookup
two-AllOpen id h = elim (Bool-cases (nat_beq id 2)) [
  | inl e ↦ (room_for 3, ground arith, refl)
  | inr e ↦ (room_for 0, ground arith, refl)
]

two-few : length (members 5 two.subscribers) ≤ max_int
unfolding lookup
two-few = omega arith

two-has : has (members 5 two.subscribers) 1 ≡ true
unfolding lookup
two-has = refl

two-found : lookup 1 two.channels ≡ some (room_for 0)
unfolding lookup
two-found = refl

abbrev some_calls : List (Call ℕ ℕ)
some_calls =
    subscribes 5 3
    ∷ publishes 5 70 1
    ∷ elsewhere
    ∷ subscribes 5 0
    ∷ closes 1
    ∷ unsubscribes 5 (1 ∷ [])
    ∷ []

calls-IsValid_example :
    Holds (InOrder some_calls 0 empty_hub) (calls same_order some_calls 0 empty_hub)
calls-IsValid_example =
    calls-IsValid same_order some_calls 0 empty_hub empty_hub-IsValid (omega arith)

publish_n-Offered_example :
    let ids = members 5 two.subscribers in
    let count = reach 1 (length ids) in
    (chans : List (ℕ × Channel ℕ)) × (publish_n same_order 5 70 1 two
      ≡ returns (count, record two { channels = chans }))
    × Offered 70 (take count (same_order ids)) two.channels chans
publish_n-Offered_example =
    publish_n-Offered same_order 5 70 1 two same_order-Shuffles two-IsValid two-AllOpen two-few

close-publish_example : (close_subscriber 1 two >>= λ h'. publish same_order 5 70 h') ≡ panics
close-publish_example =
    close-publish same_order 5 70 1 (room_for 0) two same_order-Shuffles two-has two-few two-found
