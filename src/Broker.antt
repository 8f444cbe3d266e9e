-- ===== src/Broker.antt =====
-- internal/pubsub/broker.go: the subscriptions to the lines of a job's log. Each method holds the
-- broker's mutex, so it is one step; channels are numbered in the order in which they are made, and a
-- number stands for the channel's identity, by which `Unsubscribe` compares. A panic is `none`.
pub mod Sound
pub mod Publishing
pub mod Laws
use openenvx_cloud.Prelude.{
  ℕ, suc, String, Bool, true, false, List, [], ◌∷◌, ◌++◌, Option, none, some, nat_eq, ltb, any,
  length, ◌==◌, if◌then◌else◌,
}
use openenvx_cloud.Models.{Bytes}

-- A channel with 100 places: the lines in it, oldest first.
pub record Channel : Type 0 where
  pub buffer : List Bytes
  pub closed : Bool

pub record Broker : Type 0 where
  pub subscribers : String → Option (List ℕ)  -- `none` where the map has no key
  pub channels : ℕ → Channel
  pub made : ℕ  -- how many channels were made

abbrev pub capacity : ℕ
capacity = 100

abbrev pub fresh_channel : Channel
fresh_channel = record { buffer = []; closed = false }

abbrev pub new_broker : Broker
new_broker = record { subscribers = λ k. none; channels = λ c. fresh_channel; made = 0 }

-- Reading a key that the map lacks gives the nil slice.
abbrev pub listed : Option (List ℕ) → List ℕ
listed none = []
listed (some cs) = cs

abbrev pub subscribers_of : Broker → String → List ℕ
subscribers_of b job_id = listed (b.subscribers job_id)

abbrev pub set_subscribers : String → Option (List ℕ) → Broker → Broker
set_subscribers job_id v b = record b {
  subscribers = λ k. if k == job_id then v else b.subscribers k;
}

abbrev pub set_channel : ℕ → Channel → (ℕ → Channel) → ℕ → Channel
set_channel c ch channels k = if nat_eq k c then ch else channels k

unfoldable pub subscribe : String → Broker → ℕ × Broker
subscribe job_id b = (
  b.made,
  set_subscribers job_id (some (subscribers_of b job_id ++ b.made ∷ []))
      (record b { channels = set_channel b.made fresh_channel b.channels; made = suc b.made }),
)

-- append(subs[:i], subs[i+1:]...) for the first `i` with the channel.
unfoldable pub without : ℕ → List ℕ → List ℕ
without c [] = []
without c (x ∷ xs) = let rest = without c xs in if nat_eq c x then xs else x ∷ rest

abbrev pub closing : ℕ → Broker → Broker
closing c b = record b {
  channels = set_channel c (record (b.channels c) { closed = true }) b.channels;
}

-- A closed channel that is closed again panics.
unfoldable pub close : ℕ → Broker → Option Broker
close c b = if (b.channels c).closed then none else some (closing c b)

-- The key is deleted once nobody is left.
abbrev pub or_deleted : List ℕ → Option (List ℕ)
or_deleted [] = none
or_deleted (c ∷ cs) = some (c ∷ cs)

unfoldable pub unsubscribe : String → ℕ → Broker → Option Broker
unfolding without close
unsubscribe job_id c b =
    let cs = subscribers_of b job_id in
    if any (nat_eq c) cs
    then close c (set_subscribers job_id (or_deleted (without c cs)) b)
    else some (set_subscribers job_id (or_deleted cs) b)

-- The `select` with a default: a line for which there is no place is dropped.
unfoldable pub offer : Bytes → Channel → Channel
offer line ch =
    if ltb (length ch.buffer) capacity then record ch { buffer = ch.buffer ++ line ∷ [] } else ch

-- A send on a closed channel panics.
unfoldable pub deliver : Bytes → List ℕ → (ℕ → Channel) → Option (ℕ → Channel)
unfolding offer
deliver line [] channels = some channels
deliver line (c ∷ cs) channels =
    let rest = deliver line cs (set_channel c (offer line (channels c)) channels) in
    if (channels c).closed then none else rest

abbrev pub with_channels : Broker → Option (ℕ → Channel) → Option Broker
with_channels b none = none
with_channels b (some channels) = some (record b { channels = channels })

unfoldable pub publish : String → Bytes → Broker → Option Broker
unfolding deliver
publish job_id line b = with_channels b (deliver line (subscribers_of b job_id) b.channels)

-- `<-ch` of `handleStreamJobLogs`, where there is a line.
abbrev pub rest_of : List Bytes → List Bytes
rest_of [] = []
rest_of (l ∷ ls) = ls

unfoldable pub receive : ℕ → Broker → Broker
receive c b = record b {
  channels =
      set_channel c (record (b.channels c) { buffer = rest_of (b.channels c).buffer }) b.channels;
}

pub data Step : Type 0 where
  subscribes : String → Step
  unsubscribes : String → ℕ → Step
  publishes : String → Bytes → Step
  receives : ℕ → Step

unfoldable pub step : Step → Broker → Option Broker
unfolding subscribe unsubscribe publish receive
step (subscribes job_id) b = some (subscribe job_id b).1
step (unsubscribes job_id c) b = unsubscribe job_id c b
step (publishes job_id line) b = publish job_id line b
step (receives c) b = some (receive c b)

abbrev pub and_then : Option Broker → (Broker → Option Broker) → Option Broker
and_then none f = none
and_then (some b) f = f b

-- The steps, until one panics.
unfoldable pub steps : List Step → Broker → Option Broker
unfolding step
steps [] b = some b
steps (s ∷ ss) b = and_then (step s b) (steps ss)
