-- ===== src/DiscordClient.antt =====
-- src/discord.rs: the connection to Discord. What the gateway of serenity does to an attempt to log
-- in is an argument; a task that runs the gateway is a number.
pub mod Login
mod Tests
use Prim.Native.String
use matrix_bridge_discord.Prelude.{
  ℕ, suc, ◌+◌, ◌*◌, List, [], ◌∷◌, ◌++◌, String, Bool, true, false, not, Option, none, some,
  if◌then◌else◌, Result, ok, err, eqb, ltb, retain, any,
}

-- Permissions of serenity, of which the program asks whether they contain one.
pub data Permission : Type 0 where
  administrator manage_webhooks manage_channels ban_members kick_members : Permission

abbrev pub when : {A : Type 0} → Bool → A → List A
when true a = a ∷ []
when false a = []

-- A `HashSet<String>` is the list of its elements.
unfoldable pub permissions_to_names : (Permission → Bool) → List String
permissions_to_names contains =
    (if contains administrator
      then "MANAGE_WEBHOOKS" ∷ "MANAGE_CHANNELS" ∷ "BAN_MEMBERS" ∷ "KICK_MEMBERS" ∷ []
      else [])
    ++ when (contains manage_webhooks) "MANAGE_WEBHOOKS"
    ++ when (contains manage_channels) "MANAGE_CHANNELS"
    ++ when (contains ban_members) "BAN_MEMBERS"
    ++ when (contains kick_members) "KICK_MEMBERS"

abbrev pub initial_login_retry_seconds : ℕ
initial_login_retry_seconds = 2

abbrev pub max_login_retry_seconds : ℕ
max_login_retry_seconds = 300

-- What comes of an attempt: no client, `Ready` with or without its handle in time, an end of the
-- gateway before `Ready`, or nothing for 30 seconds.
pub data Attempt : Type 0 where
  unbuildable : String → Attempt
  exited silent : Attempt
  ready : Bool → Attempt

-- `spawned` numbers the tasks that run a gateway; `running` are those that have neither been aborted
-- nor ended.
pub record DiscordClient : Type 0 where
  pub is_logged_in : Bool
  pub gateway_task : Option ℕ
  pub http : Bool
  pub spawned : ℕ
  pub running : List ℕ

abbrev pub new : DiscordClient
new = record { is_logged_in = false; gateway_task = none; http = false; spawned = 0; running = [] }

abbrev pub spawn : DiscordClient → DiscordClient
spawn c = record c { spawned = suc c.spawned; running = c.spawned ∷ c.running }

-- The task does not run any more; nothing else of the client changes.
abbrev pub abort : ℕ → DiscordClient → DiscordClient
abort task c = record c { running = retain (λ t. not (eqb t task)) c.running }

abbrev pub attempt : DiscordClient → Attempt → Result String (Unit {0}) × DiscordClient
attempt c (unbuildable text) =
    (err (String.◌++◌ "failed to build discord gateway client: " text), c)
attempt c exited =
    (err "discord gateway exited before receiving Ready event", abort c.spawned (spawn c))
attempt c silent = (err "timed out waiting for discord Ready event", abort c.spawned (spawn c))
attempt c (ready true) =
    (ok tt, record (spawn c) { is_logged_in = true; gateway_task = some c.spawned; http = true })
attempt c (ready false) =
    (ok tt, record (spawn c) { is_logged_in = true; gateway_task = some c.spawned })

unfoldable pub login : DiscordClient → Attempt → Result String (Unit {0}) × DiscordClient
login c a = if c.is_logged_in then (ok tt, c) else attempt c a

abbrev pub abort_task : Option ℕ → DiscordClient → DiscordClient
abort_task none c = c
abort_task (some task) c = record (abort task c) { gateway_task = none }

unfoldable pub stop : DiscordClient → DiscordClient
stop c =
    if not c.is_logged_in then c else record (abort_task c.gateway_task c) { is_logged_in = false }

abbrev pub next_retry : ℕ → ℕ
next_retry seconds =
    if ltb (seconds * 2) max_login_retry_seconds then seconds * 2 else max_login_retry_seconds

abbrev pub after_wait : ℕ → Option (DiscordClient × List ℕ) → Option (DiscordClient × List ℕ)
after_wait seconds none = none
after_wait seconds (some (c, waits)) = some (c, seconds ∷ waits)

-- The loop of `start`: attempts from number `k` on, on fuel, with the seconds that it has slept.
abbrev pub attempts : ℕ → (ℕ → Attempt) → ℕ → DiscordClient → ℕ → Option (DiscordClient × List ℕ)
attempts ℕ.zero gateway k c retry_seconds = none
attempts (ℕ.suc fuel) gateway k c retry_seconds =
    let rest = attempts fuel gateway (suc k) (login c (gateway k)).1 (next_retry retry_seconds) in
    elim (login c (gateway k)).0 [
      | ok _ ↦ some ((login c (gateway k)).1, [])
      | err e ↦ after_wait retry_seconds rest
    ]

unfoldable pub start : ℕ → (ℕ → Attempt) → DiscordClient → Option (DiscordClient × List ℕ)
start fuel gateway c = attempts fuel gateway 0 c initial_login_retry_seconds

-- What may happen to the client, in any order. A gateway may also end by itself after `Ready`, which
-- its task only logs.
pub data Event : Type 0 where
  logs_in : Attempt → Event
  stops : Event
  gateway_ends : ℕ → Event

abbrev pub step : DiscordClient → Event → DiscordClient
step c (logs_in a) = (login c a).1
step c stops = stop c
step c (gateway_ends task) = abort task c

abbrev pub run : DiscordClient → List Event → DiscordClient
run c [] = c
run c (e ∷ events) = run (step c e) events
