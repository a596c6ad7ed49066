-- ===== src/ChannelQueue.antt =====
-- src/bridge/queue.rs: tasks wait for the mutex of their channel. A spawned task takes its mutex when
-- the runtime lets it, and no other task holds it then.
pub mod Holders
pub mod Exclusion
pub mod Channels
mod Tests
use mathlib.Core.Option
use matrix_bridge_discord.Prelude.{
  ℕ, suc, List, [], ◌∷◌, ◌++◌, String, Bool, true, false, not, Option, none, some, if◌then◌else◌,
  ◌==◌, ◌&&◌, eqb, any, length, unwrap_or,
}
use matrix_bridge_discord.HashMap
use matrix_bridge_discord.HashMap.{string_eq}

pub data Phase : Type 0 where
  spawned running finished : Phase

pub record QueuedTask : Type 0 where
  pub channel : String
  pub mutex : ℕ
  pub phase : Phase

-- The mutexes are numbered in the order of their creation.
pub record ChannelQueue : Type 0 where
  pub queues : List (String × ℕ)
  pub tasks : List QueuedTask

abbrev pub new : ChannelQueue
new = record { queues = []; tasks = [] }

-- `entry(channel_id).or_insert_with(...)`, and its clone.
abbrev pub entry : Option ℕ → String → List (String × ℕ) → List (String × ℕ) × ℕ
entry (some mutex) channel queues = (queues, mutex)
entry none channel queues = ((channel, length queues) ∷ queues, length queues)

unfoldable pub enqueue : ChannelQueue → String → ChannelQueue
enqueue q channel =
    let (queues, mutex) = entry (HashMap.get channel q.queues) channel q.queues in
    record {
      queues = queues;
      tasks = q.tasks ++ record { channel = channel; mutex = mutex; phase = spawned } ∷ [];
    }

abbrev pub is_running : QueuedTask → Bool
is_running t = elim t.phase [ running ↦ true | _ ↦ false ]

abbrev pub is_held : ℕ → List QueuedTask → Bool
is_held mutex tasks = any (λ t. is_running t && eqb t.mutex mutex) tasks

-- Task `n` is given the mutex, if it waits for it and it is free.
abbrev pub lock : Bool → QueuedTask → QueuedTask
lock held t = elim t.phase [ spawned ↦ (if held then t else record t { phase = running }) | _ ↦ t ]

abbrev pub unlock : QueuedTask → QueuedTask
unlock t = elim t.phase [ running ↦ record t { phase = finished } | _ ↦ t ]

abbrev pub modify : (QueuedTask → QueuedTask) → ℕ → List QueuedTask → List QueuedTask
modify f n [] = []
modify f ℕ.zero (t ∷ ts) = f t ∷ ts
modify f (ℕ.suc n) (t ∷ ts) = t ∷ modify f n ts

pub data Event : Type 0 where
  enqueues : String → Event
  begins : ℕ → Event
  ends : ℕ → Event

abbrev pub step : ChannelQueue → Event → ChannelQueue
step q (enqueues channel) = enqueue q channel
step q (begins n) = record q { tasks = modify (λ t. lock (is_held t.mutex q.tasks) t) n q.tasks }
step q (ends n) = record q { tasks = modify unlock n q.tasks }

abbrev pub run : ChannelQueue → List Event → ChannelQueue
run q [] = q
run q (e ∷ events) = run (step q e) events
