-- ===== src/Presence.antt =====
-- src/bridge/presence_handler.rs: the queue of Discord users whose presence is reported to Matrix,
-- one at each tick. The change of case of `char` and `str` is a parameter.
pub mod Queue
pub mod Rounds
pub mod Status
mod Tests
use Prim.Native.String
use matrix_bridge_discord.Prelude.{
  ℕ, List, [], ◌∷◌, ◌++◌, String, Char, Bool, true, false, not, Option, none, some, ◌==◌,
  if◌then◌else◌, retain, length, Result, ok, err, eqb,
}
use matrix_bridge_discord.Text.{is_empty, contains}

pub data DiscordPresenceState : Type 0 where
  online dnd idle offline : DiscordPresenceState

pub record DiscordActivity : Type 0 where
  pub kind : String
  pub name : String
  pub url : Option String

pub record DiscordPresence : Type 0 where
  pub user_id : String
  pub username : Option String
  pub state : DiscordPresenceState
  pub activities : List DiscordActivity

pub data MatrixPresenceState : Type 0 where
  online offline unavailable : MatrixPresenceState

pub record PresenceDecision : Type 0 where
  pub presence : MatrixPresenceState
  pub status_message : String
  pub should_drop : Bool

pub record PresenceHandler : Type 0 where
  pub bot_discord_user_id : Option String
  pub queue : List DiscordPresence

unfoldable pub new : Option String → PresenceHandler
new bot = record { bot_discord_user_id = bot; queue = [] }

unfoldable pub queue_count : PresenceHandler → ℕ
queue_count h = length h.queue

abbrev pub is_bot : Option String → String → Bool
is_bot none user = false
is_bot (some bot) user = bot == user

abbrev pub without : String → List DiscordPresence → List DiscordPresence
without user queue = retain (λ item. not (item.user_id == user)) queue

unfoldable pub enqueue_user : PresenceHandler → DiscordPresence → PresenceHandler
enqueue_user h p =
    if is_bot h.bot_discord_user_id p.user_id
    then h
    else record h { queue = without p.user_id h.queue ++ p ∷ [] }

unfoldable pub dequeue_user : PresenceHandler → String → Bool × PresenceHandler
dequeue_user h user = (
  not (eqb (length h.queue) (length (without user h.queue))),
  record h { queue = without user h.queue },
)

-- `char::to_uppercase` and `str::to_lowercase`.
pub record Casing : Type 0 where
  pub to_uppercase : Char → String
  pub to_lowercase : String → String

module _ (casing : Casing) where
  open casing use {to_uppercase, to_lowercase}

  abbrev pub titled : String → String → String
  titled String.[] name = name
  titled (String.◌∷◌ c rest) name =
      String.◌++◌ (to_uppercase c) (String.◌++◌ (to_lowercase rest) (String.◌++◌ " " name))

  abbrev pub with_url : String → Option String → String
  with_url text none = text
  with_url text (some url) = String.◌++◌ text (String.◌++◌ " | " url)

  unfoldable pub activity_text : List DiscordActivity → String
  activity_text [] = ""
  activity_text (a ∷ _) = with_url (titled a.kind a.name) a.url

  abbrev pub decide : DiscordPresenceState → String → PresenceDecision
  decide DiscordPresenceState.online text = record {
    presence = MatrixPresenceState.online;
    status_message = text;
    should_drop = false;
  }
  decide DiscordPresenceState.dnd text = record {
    presence = MatrixPresenceState.online;
    status_message =
        if is_empty text then "Do not disturb" else String.◌++◌ "Do not disturb | " text;
    should_drop = false;
  }
  decide DiscordPresenceState.offline text = record {
    presence = MatrixPresenceState.offline;
    status_message = text;
    should_drop = true;
  }
  decide DiscordPresenceState.idle text = record {
    presence = MatrixPresenceState.unavailable;
    status_message = text;
    should_drop = false;
  }

  unfoldable pub map_presence : DiscordPresence → PresenceDecision
  map_presence p = decide p.state (activity_text p.activities)

-- The calls of the trait `MatrixPresenceTarget`.
pub data TargetCall : Type 0 where
  set_presence : String → MatrixPresenceState → String → TargetCall
  ensure_user_registered : String → Option String → TargetCall

-- What the target answers to `set_presence`: nothing, or an error's text. An error of
-- `ensure_user_registered` is only logged.
abbrev pub Target : Type 0
Target = String → MatrixPresenceState → String → Result String (Unit {0})

abbrev pub after_error : DiscordPresence → Result String (Unit {0}) → List TargetCall
after_error p (ok _) = []
after_error p (err text) =
    if contains text "M_FORBIDDEN" then ensure_user_registered p.user_id p.username ∷ [] else []

module _ (casing : Casing) (target : Target) where
  -- The calls that report one presence.
  unfoldable pub report : DiscordPresence → List TargetCall
  report p =
      let decision = map_presence casing p in
      set_presence p.user_id decision.presence decision.status_message
      ∷ after_error p (target p.user_id decision.presence decision.status_message)

  -- What follows the calls: the lock is taken again.
  unfoldable pub finish : PresenceHandler → DiscordPresence → PresenceHandler
  finish h p = if not (map_presence casing p).should_drop then enqueue_user h p else h

-- `self.queue.lock().pop_front()`
abbrev pub pop_front : List DiscordPresence → Option DiscordPresence × List DiscordPresence
pop_front [] = (none, [])
pop_front (p ∷ rest) = (some p, rest)

unfoldable pub take : PresenceHandler → Option DiscordPresence × PresenceHandler
take h = ((pop_front h.queue).0, record h { queue = (pop_front h.queue).1 })

-- The handler, and the presence that the loop is reporting.
pub record Running : Type 0 where
  pub handler : PresenceHandler
  pub reporting : Option DiscordPresence

abbrev pub resting : PresenceHandler → Running
resting h = record { handler = h; reporting = none }

-- What may happen next, in any order; a tick is its two sections under the lock.
pub data Event : Type 0 where
  enqueues : DiscordPresence → Event
  dequeues : String → Event
  takes finishes : Event

abbrev pub take_next : PresenceHandler → Option DiscordPresence → Running
take_next h none = record { handler = (take h).1; reporting = (take h).0 }
take_next h (some p) = record { handler = h; reporting = some p }

module _ (casing : Casing) (target : Target) where
  -- A presence that was taken, or none; `others` is what other tasks do to the handler while the
  -- target is awaited.
  abbrev pub process_taken :
      (PresenceHandler → PresenceHandler)
      → Option DiscordPresence
      → PresenceHandler
      → Bool × List TargetCall × PresenceHandler
  process_taken others none h = (false, [], h)
  process_taken others (some p) h =
      (true, report casing target p, finish casing target (others h) p)

  unfoldable pub process_next :
      (PresenceHandler → PresenceHandler)
      → PresenceHandler
      → Bool × List TargetCall × PresenceHandler
  process_next others h = process_taken others (take h).0 (take h).1

  -- Ticks of the loop in `BridgeCore::start`, with the calls of all of them.
  unfoldable pub ticks :
      (PresenceHandler → PresenceHandler) → ℕ → PresenceHandler → List TargetCall × PresenceHandler
  ticks others ℕ.zero h = ([], h)
  ticks others (ℕ.suc n) h =
      let (_, calls, h') = process_next others h in
      let (later, h'') = ticks others n h' in (calls ++ later, h'')

  abbrev pub finish_taken : PresenceHandler → Option DiscordPresence → Running
  finish_taken h none = resting h
  finish_taken h (some p) = resting (finish casing target h p)

  unfoldable pub step : Running → Event → Running
  step s (enqueues p) = record s { handler = enqueue_user s.handler p }
  step s (dequeues user) = record s { handler = (dequeue_user s.handler user).1 }
  step s takes = take_next s.handler s.reporting
  step s finishes = finish_taken s.handler s.reporting

  abbrev pub run : Running → List Event → Running
  run s [] = s
  run s (e ∷ events) = run (step s e) events
