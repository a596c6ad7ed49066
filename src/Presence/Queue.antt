-- ===== src/Presence/Queue.antt =====
-- The queue holds the latest presence of each user, and never the bot's own.
use matrix_bridge_discord.Prelude.{
  List, [], ◌∷◌, ◌++◌, String, false, not, Option, none, some, ◌==◌, ◌≡◌, refl, arith, eqb,
  if◌then◌else◌, length, All, All-append, All-retain, find, is_some, eq_iff, Bool-cases, inl, inr,
  length-retain-le,
}
use matrix_bridge_discord.Presence.{
  DiscordPresence, PresenceHandler, is_bot, without, enqueue_user, dequeue_user, Casing, Target,
  finish, new, pop_front, take, take_next, finish_taken, resting, Running, Event, enqueues,
  dequeues, takes, finishes, step, run,
}

-- No entry for the user.
abbrev pub Absent : String → List DiscordPresence → Type 0
Absent user = All (λ i. (i.user_id == user) ≡ false)

abbrev pub HasDistinctUsers : List DiscordPresence → Type 0
HasDistinctUsers [] = Unit
HasDistinctUsers (p ∷ q) = Absent p.user_id q × HasDistinctUsers q

pub record IsValid (h : PresenceHandler) : Type 0 where
  pub distinct : HasDistinctUsers h.queue
  pub no_bot : All (λ i. is_bot h.bot_discord_user_id i.user_id ≡ false) h.queue

pub Absent-without : (user : String) (q : List DiscordPresence) → Absent user (without user q)
Absent-without user [] = tt
Absent-without user (p ∷ q) = ground (arith, Absent-without user q)

pub without_of_Absent :
    (user : String) (q : List DiscordPresence) → Absent user q → without user q ≡ q
without_of_Absent user [] _ = refl
without_of_Absent user (p ∷ q) (h, hs) = rw (h, without_of_Absent user q hs)

without-HasDistinctUsers :
    (user : String) (q : List DiscordPresence)
    → HasDistinctUsers q
    → HasDistinctUsers (without user q)
without-HasDistinctUsers user [] _ = tt
without-HasDistinctUsers user (p ∷ q) (h, hs) =
    ground
      (arith, without-HasDistinctUsers user q hs, All-retain _ (λ i. not (i.user_id == user)) q h)

HasDistinctUsers-concat :
    (q : List DiscordPresence) (p : DiscordPresence)
    → HasDistinctUsers q
    → Absent p.user_id q
    → HasDistinctUsers (q ++ p ∷ [])
HasDistinctUsers-concat [] p _ _ = (tt, tt)
HasDistinctUsers-concat (i ∷ q) p (h, hs) (k, ks) = (
  All-append _ q (p ∷ []) h
      (ground (arith, eq_iff i.user_id p.user_id, eq_iff p.user_id i.user_id), tt),
  HasDistinctUsers-concat q p hs ks,
)

-- A user has one entry at most and the bot none, after each operation.
pub enqueue_user-IsValid :
    (h : PresenceHandler) (p : DiscordPresence) → IsValid h → IsValid (enqueue_user h p)
unfolding enqueue_user
enqueue_user-IsValid h p v = elim (Bool-cases (is_bot h.bot_discord_user_id p.user_id)) [
  | inl e ↦ rw e v
  | inr e ↦ rw e (record {
    distinct =
        HasDistinctUsers-concat (without p.user_id h.queue) p
          (without-HasDistinctUsers p.user_id h.queue v.distinct)
          (Absent-without p.user_id h.queue);
    no_bot =
        All-append _ (without p.user_id h.queue) (p ∷ []) (All-retain _ _ h.queue v.no_bot) (e, tt);
  })
]

pub dequeue_user-IsValid :
    (h : PresenceHandler) (user : String) → IsValid h → IsValid (dequeue_user h user).1
unfolding dequeue_user
dequeue_user-IsValid h user v = record {
  distinct = without-HasDistinctUsers user h.queue v.distinct;
  no_bot = All-retain _ _ h.queue v.no_bot;
}

pub latest : String → List DiscordPresence → Option DiscordPresence
latest user = find (λ i. i.user_id == user)

latest-concat :
    (user : String) (q : List DiscordPresence) (p : DiscordPresence)
    → Absent p.user_id q
    → latest user (q ++ p ∷ []) ≡ (if p.user_id == user then some p else latest user q)
unfolding latest
latest-concat user [] p _ = refl
latest-concat user (i ∷ q) p (h, hs) = ground (
  arith,
  latest-concat user q p hs,
  eq_iff i.user_id user,
  eq_iff p.user_id user,
  eq_iff i.user_id p.user_id,
)

latest-without :
    (user other : String) (q : List DiscordPresence)
    → latest other (without user q) ≡ (if user == other then none else latest other q)
unfolding latest
latest-without user other [] = ground arith
latest-without user other (i ∷ q) = ground (
  arith,
  latest-without user other q,
  eq_iff i.user_id user,
  eq_iff i.user_id other,
  eq_iff user other,
)

-- After an update the queue holds it for its user, and for every other user what it held; the
-- bot's own changes nothing.
pub latest-enqueue_user :
    (h : PresenceHandler) (p : DiscordPresence) (user : String)
    → latest user (enqueue_user h p).queue ≡ (
        if is_bot h.bot_discord_user_id p.user_id
        then latest user h.queue
        else if p.user_id == user
        then some p
        else latest user h.queue)
unfolding enqueue_user
latest-enqueue_user h p user = ground (
  arith,
  latest-concat user (without p.user_id h.queue) p (Absent-without p.user_id h.queue),
  latest-without p.user_id user h.queue,
)

count_without :
    (user : String) (q : List DiscordPresence)
    → not (eqb (length q) (length (without user q))) ≡ is_some (latest user q)
unfolding latest
count_without user [] = refl
count_without user (i ∷ q) =
    ground (arith, count_without user q, length-retain-le (λ j. not (j.user_id == user)) q)

-- `dequeue_user` says whether the user was in the queue, removes the user and nobody else.
pub dequeue_user_lem :
    (h : PresenceHandler) (user other : String)
    → ((dequeue_user h user).0 ≡ is_some (latest user h.queue))
      × (latest other (dequeue_user h user).1.queue
          ≡ (if user == other then none else latest other h.queue))
unfolding dequeue_user
dequeue_user_lem h user other = (count_without user h.queue, latest-without user other h.queue)

take-IsValid :
    (bot : Option String) (q : List DiscordPresence)
    → IsValid (record { bot_discord_user_id = bot; queue = q })
    → IsValid (record { bot_discord_user_id = bot; queue = (pop_front q).1 })
take-IsValid bot [] v = v
take-IsValid bot (p ∷ rest) v = record { distinct = v.distinct.1; no_bot = v.no_bot.1 }

take_next-IsValid :
    (h : PresenceHandler) (o : Option DiscordPresence) → IsValid h → IsValid (take_next h o).handler
unfolding take
take_next-IsValid h none v = take-IsValid h.bot_discord_user_id h.queue v
take_next-IsValid h (some p) v = v

module _ (casing : Casing) (target : Target) where
  pub finish-IsValid :
      (h : PresenceHandler) (p : DiscordPresence) → IsValid h → IsValid (finish casing target h p)
  unfolding finish
  finish-IsValid h p v = ground (arith, enqueue_user-IsValid h p v)

  finish_taken-IsValid :
      (h : PresenceHandler) (o : Option DiscordPresence)
      → IsValid h
      → IsValid (finish_taken casing target h o).handler
  finish_taken-IsValid h none v = v
  finish_taken-IsValid h (some p) v = finish-IsValid h p v

  step-IsValid :
      (s : Running) (e : Event) → IsValid s.handler → IsValid (step casing target s e).handler
  unfolding step
  step-IsValid s (enqueues p) v = enqueue_user-IsValid s.handler p v
  step-IsValid s (dequeues user) v = dequeue_user-IsValid s.handler user v
  step-IsValid s takes v = take_next-IsValid s.handler s.reporting v
  step-IsValid s finishes v = finish_taken-IsValid s.handler s.reporting v

  run-IsValid_from :
      (s : Running) (events : List Event)
      → IsValid s.handler
      → IsValid (run casing target s events).handler
  run-IsValid_from s [] v = v
  run-IsValid_from s (e ∷ events) v =
      run-IsValid_from (step casing target s e) events (step-IsValid s e v)

  -- From a new handler on, whatever updates, removals, and beginnings and ends of ticks come in
  -- whatever order, also updates between the two sections of a tick: the queue holds one entry at
  -- most for each user, and none for the bot.
  pub run-new-IsValid :
      (bot : Option String) (events : List Event)
      → IsValid (run casing target (resting (new bot)) events).handler
  unfolding new
  run-new-IsValid bot events =
      run-IsValid_from (resting (new bot)) events (record { distinct = tt; no_bot = tt })
