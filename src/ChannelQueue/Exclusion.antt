-- ===== src/ChannelQueue/Exclusion.antt =====
-- One task of a channel runs at a time, and no channel holds up another.
use matrix_bridge_discord.Prelude.{
  ℕ, ◌≤◌, ◌<◌, List, [], ◌∷◌, ◌++◌, String, Bool, Option, none, some, ◌≡◌, ◌⊎◌, refl, sym, ap, ◌∙◌,
  subst, arith, if◌then◌else◌, ◌==◌, ◌&&◌, eq_iff, eq_refl, eqb, eqb_iff, any, length, retain, All,
  All-append, All-imp, Bool-cases, inl, inr,
}
use matrix_bridge_discord.HashMap
use matrix_bridge_discord.HashMap.{string_eq}
use matrix_bridge_discord.ChannelQueue.{
  QueuedTask, spawned, ChannelQueue, new, entry, enqueue, is_running, is_held, lock, unlock, modify,
  Event, enqueues, begins, ends, step, run,
}
use matrix_bridge_discord.ChannelQueue.Holders.{
  holders, unlock-holders, lock-holders, free-holders, holders-append,
}

-- The mutex of a channel is its own, and its tasks have it; and one task holds it at most.
pub record IsValid (q : ChannelQueue) : Type 0 where
  pub known : All (λ t. HashMap.get t.channel q.queues ≡ some t.mutex) q.tasks
  pub bounded : (c : String) (m : ℕ) → HashMap.get c q.queues ≡ some m → m < length q.queues
  pub apart :
      (c d : String) (m : ℕ)
      → HashMap.get c q.queues ≡ some m
      → HashMap.get d q.queues ≡ some m
      → c ≡ d
  pub exclusive : (m : ℕ) → holders m q.tasks ≤ 1

-- A change that keeps the channel and the mutex of each task keeps what is known of them.
modify-All :
    (queues : List (String × ℕ)) (f : QueuedTask → QueuedTask) (n : ℕ) (l : List QueuedTask)
    → ((t : QueuedTask) → ((f t).channel ≡ t.channel) × ((f t).mutex ≡ t.mutex))
    → All (λ t. HashMap.get t.channel queues ≡ some t.mutex) l
    → All (λ t. HashMap.get t.channel queues ≡ some t.mutex) (modify f n l)
modify-All queues f n [] same h = tt
modify-All queues f ℕ.zero (t ∷ l) same (h, hs) = (rw ((same t).0, (same t).1) h, hs)
modify-All queues f (ℕ.suc n) (t ∷ l) same (h, hs) = (h, modify-All queues f n l same hs)

lock-same :
    (held : Bool) (t : QueuedTask)
    → ((lock held t).channel ≡ t.channel) × ((lock held t).mutex ≡ t.mutex)
lock-same held t = ground arith

unlock-same : (t : QueuedTask) → ((unlock t).channel ≡ t.channel) × ((unlock t).mutex ≡ t.mutex)
unlock-same t = ground arith

begins-IsValid : (q : ChannelQueue) (n : ℕ) → IsValid q → IsValid (step q (begins n))
begins-IsValid q n v = record {
  known =
      modify-All q.queues (λ t. lock (is_held t.mutex q.tasks) t) n q.tasks
        (λ t. lock-same (is_held t.mutex q.tasks) t) v.known;
  bounded = v.bounded;
  apart = v.apart;
  exclusive = λ m.
      let after = lock-holders m n q.tasks q.tasks in
      let free = free-holders m q.tasks in
      let one = v.exclusive m in ground (arith, after, free, one);
}

ends-IsValid : (q : ChannelQueue) (n : ℕ) → IsValid q → IsValid (step q (ends n))
ends-IsValid q n v = record {
  known = modify-All q.queues unlock n q.tasks unlock-same v.known;
  bounded = v.bounded;
  apart = v.apart;
  exclusive = λ m.
      let after = unlock-holders m n q.tasks in
      let one = v.exclusive m in omega (arith, after, one);
}

-- What a channel without a mutex gets.
added :
    (queues : List (String × ℕ)) (channel c : String) (n : ℕ)
    → HashMap.get c ((channel, n) ∷ queues)
      ≡ (if channel == c then some n else HashMap.get c queues)
unfolding HashMap.get
added queues channel c n = refl

old_kept :
    (q : ChannelQueue) (channel c : String) (m : ℕ)
    → HashMap.get channel q.queues ≡ none
    → HashMap.get c q.queues ≡ some m
    → HashMap.get c ((channel, length q.queues) ∷ q.queues) ≡ some m
old_kept q channel c m e h = elim (Bool-cases (channel == c)) [
  | inl same ↦
      let here : channel ≡ c = ground (arith, eq_iff channel c) in
      let none_there : HashMap.get c q.queues ≡ none =
        subst (λ d. HashMap.get d q.queues ≡ none) here e in
      ground (arith, none_there, h)
  | inr other ↦ added q.queues channel c (length q.queues) ∙ rw other h
]

-- Where an entry that is found comes from.
found :
    (q : ChannelQueue) (channel c : String) (m : ℕ)
    → HashMap.get c ((channel, length q.queues) ∷ q.queues) ≡ some m
    → ((channel ≡ c) × (m ≡ length q.queues)) ⊎ (HashMap.get c q.queues ≡ some m)
found q channel c m h = elim (Bool-cases (channel == c)) [
  | inl same ↦
      let k = sym (added q.queues channel c (length q.queues)) ∙ h in
      inl (ground (arith, eq_iff channel c), ground (arith, k, same))
  | inr other ↦
      let k = sym (added q.queues channel c (length q.queues)) ∙ h in inr (ground (arith, k, other))
]

found-apart :
    (q : ChannelQueue) (channel c d : String) (m : ℕ)
    → IsValid q
    → ((channel ≡ c) × (m ≡ length q.queues)) ⊎ (HashMap.get c q.queues ≡ some m)
    → ((channel ≡ d) × (m ≡ length q.queues)) ⊎ (HashMap.get d q.queues ≡ some m)
    → c ≡ d
found-apart q channel c d m v (inl (here, _)) (inl (there, _)) = sym here ∙ there
found-apart q channel c d m v (inl (_, last)) (inr old) =
    let clash : ⊥ = omega (arith, last, v.bounded d m old) in elim clash [ ]
found-apart q channel c d m v (inr old) (inl (_, last)) =
    let clash : ⊥ = omega (arith, last, v.bounded c m old) in elim clash [ ]
found-apart q channel c d m v (inr old) (inr old') = v.apart c d m old old'

entry-IsValid :
    (q : ChannelQueue) (channel : String) (o : Option ℕ)
    → HashMap.get channel q.queues ≡ o
    → IsValid q
    → IsValid (record {
      queues = (entry o channel q.queues).0;
      tasks =
          q.tasks
          ++ record { channel = channel; mutex = (entry o channel q.queues).1; phase = spawned }
            ∷ [];
    })
entry-IsValid q channel (some m) e v = record {
  known = All-append (λ t. HashMap.get t.channel q.queues ≡ some t.mutex) q.tasks _ v.known (e, tt);
  bounded = v.bounded;
  apart = v.apart;
  exclusive = λ k. rw holders-append (omega (arith, v.exclusive k));
}
entry-IsValid q channel none e v =
    let fresh = length q.queues in
    let get_later = λ (c : String). added q.queues channel c fresh in
    record {
      known =
          All-append (λ t. HashMap.get t.channel ((channel, fresh) ∷ q.queues) ≡ some t.mutex)
            q.tasks _
            (All-imp (λ t. HashMap.get t.channel q.queues ≡ some t.mutex) _ q.tasks
              (λ t h. old_kept q channel t.channel t.mutex e h) v.known)
            (get_later channel ∙ ground (arith, eq_refl channel), tt);
      bounded = λ c m h. elim (found q channel c m h) [
        | inl (here, last) ↦ omega (arith, last)
        | inr old ↦ omega (arith, v.bounded c m old)
      ];
      apart = λ c d m h k.
          found-apart q channel c d m v (found q channel c m h) (found q channel d m k);
      exclusive = λ k. rw holders-append (omega (arith, v.exclusive k));
    }

enqueues-IsValid :
    (q : ChannelQueue) (channel : String) → IsValid q → IsValid (step q (enqueues channel))
unfolding enqueue
enqueues-IsValid q channel v = entry-IsValid q channel (HashMap.get channel q.queues) refl v

step-IsValid : (q : ChannelQueue) (e : Event) → IsValid q → IsValid (step q e)
step-IsValid q (enqueues channel) v = enqueues-IsValid q channel v
step-IsValid q (begins n) v = begins-IsValid q n v
step-IsValid q (ends n) v = ends-IsValid q n v

pub events-IsValid : (q : ChannelQueue) (events : List Event) → IsValid q → IsValid (run q events)
events-IsValid q [] v = v
events-IsValid q (e ∷ events) v = events-IsValid (step q e) events (step-IsValid q e v)

pub new-IsValid : IsValid new
unfolding HashMap.get
new-IsValid = record {
  known = tt;
  bounded = λ c m h. ground arith;
  apart = λ c d m h k. ground arith;
  exclusive = λ m. omega arith;
}

abbrev pub runs_in : String → QueuedTask → Bool
runs_in channel t = is_running t && (t.channel == channel)

-- Two tasks have the same mutex exactly if they have the same channel.
pub same_mutex :
    (q : ChannelQueue) (c : String) (m : ℕ) (t : QueuedTask)
    → IsValid q
    → HashMap.get c q.queues ≡ some m
    → HashMap.get t.channel q.queues ≡ some t.mutex
    → eqb t.mutex m ≡ (t.channel == c)
same_mutex q c m t v h k = elim (Bool-cases (t.channel == c)) [
  | inl same ↦
      let here : t.channel ≡ c = ground (arith, eq_iff t.channel c) in
      let both : some t.mutex ≡ some m = sym k ∙ ap (λ d. HashMap.get d q.queues) here ∙ h in
      ground (arith, both, same, eqb_iff t.mutex m)
  | inr other ↦ elim (Bool-cases (eqb t.mutex m)) [
    | inl e ↦
        let equal : t.mutex ≡ m = ground (arith, eqb_iff t.mutex m) in
        let here : t.channel ≡ c = v.apart t.channel c m (k ∙ ap some equal) h in
        ground (arith, here, other, eq_iff t.channel c)
    | inr e ↦ ground (arith, e, other)
  ]
]

pub retain_same :
    (p r : QueuedTask → Bool) (l : List QueuedTask)
    → All (λ t. p t ≡ r t) l
    → (retain p l ≡ retain r l) × (any p l ≡ any r l)
retain_same p r [] h = (refl, refl)
retain_same p r (t ∷ l) (h, hs) =
    let (same, same') = retain_same p r l hs in (rw (h, same) refl, rw (h, same') refl)
