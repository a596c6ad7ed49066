-- ===== src/ChannelQueue/Channels.antt =====
-- What the mutexes mean for the channels.
use matrix_bridge_discord.Prelude.{
  ℕ, ◌≤◌, List, [], ◌∷◌, String, Option, none, some, ◌≡◌, refl, sym, ap, ◌∙◌, subst, arith, ◌==◌,
  ◌&&◌, eq_iff, any, length, retain, All, All-imp, Bool-cases, inl, inr,
}
use matrix_bridge_discord.HashMap
use matrix_bridge_discord.HashMap.{string_eq}
use matrix_bridge_discord.ChannelQueue.{
  QueuedTask, ChannelQueue, new, is_running, is_held, Event, run,
}
use matrix_bridge_discord.ChannelQueue.Holders.{holds}
use matrix_bridge_discord.ChannelQueue.Exclusion.{
  IsValid, events-IsValid, new-IsValid, runs_in, same_mutex, retain_same,
}

-- The tests by channel and by its mutex agree.
by_mutex :
    (q : ChannelQueue) (c : String) (m : ℕ)
    → IsValid q
    → HashMap.get c q.queues ≡ some m
    → All (λ t. holds m t ≡ runs_in c t) q.tasks
by_mutex q c m v h =
    All-imp (λ t. HashMap.get t.channel q.queues ≡ some t.mutex) (λ t. holds m t ≡ runs_in c t)
      q.tasks (λ t k. ap (λ b. is_running t && b) (same_mutex q c m t v h k)) v.known

-- A channel that has no mutex has no task.
absent :
    (q : ChannelQueue) (c : String)
    → HashMap.get c q.queues ≡ none
    → (l : List QueuedTask) → All (λ t. HashMap.get t.channel q.queues ≡ some t.mutex) l
    → retain (runs_in c) l ≡ []
absent q c e [] h = refl
absent q c e (t ∷ l) (h, hs) = elim (Bool-cases (t.channel == c)) [
  | inl same ↦
      let here : t.channel ≡ c = ground (arith, eq_iff t.channel c) in
      let both : some t.mutex ≡ none = sym h ∙ ap (λ d. HashMap.get d q.queues) here ∙ e in
      ground (arith, both)
  | inr other ↦ ground (arith, other, absent q c e l hs)
]

one_at_a_time :
    (q : ChannelQueue) (c : String) (o : Option ℕ)
    → IsValid q
    → HashMap.get c q.queues ≡ o
    → length (retain (runs_in c) q.tasks) ≤ 1
one_at_a_time q c none v e = rw (absent q c e q.tasks v.known) (omega arith)
one_at_a_time q c (some m) v e =
    subst (λ l. length l ≤ 1) (retain_same (holds m) (runs_in c) q.tasks (by_mutex q c m v e)).0
      (v.exclusive m)

-- Whatever tasks are enqueued, and however they are let in and end, at most one task of a channel
-- runs at a time, and the mutex that a task waits for is held exactly while another task, or the
-- task itself, runs in its channel: no channel holds up another.
pub run-Exclusive :
    (events : List Event)
    → ((channel : String) → length (retain (runs_in channel) (run new events).tasks) ≤ 1)
      × All
          (λ t.
            is_held t.mutex (run new events).tasks ≡ any (runs_in t.channel) (run new events).tasks)
          (run new events).tasks
run-Exclusive events =
    let q = run new events in
    let v = events-IsValid new events new-IsValid in
    (
      λ channel. one_at_a_time q channel (HashMap.get channel q.queues) v refl,
      All-imp (λ t. HashMap.get t.channel q.queues ≡ some t.mutex) _ q.tasks
          (λ t h.
            (retain_same (holds t.mutex) (runs_in t.channel) q.tasks
              (by_mutex q t.channel t.mutex v h)).1)
          v.known,
    )
