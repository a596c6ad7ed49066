-- ===== src/Presence/Tests.antt =====
-- The queue of presences, run.
use matrix_bridge_discord.Prelude.{
  List, [], ◌∷◌, String, none, some, ◌≡◌, refl, ok, if◌then◌else◌, ◌==◌, is_some, length,
}
use matrix_bridge_discord.Presence.{
  DiscordPresenceState, DiscordPresence, PresenceHandler, Casing, Target, is_bot, enqueue_user,
  dequeue_user, finish, ticks, resting, run, new, Event, enqueues, dequeues, takes, finishes,
}
use matrix_bridge_discord.Presence.Queue.{
  IsValid, run-new-IsValid, latest, latest-enqueue_user, dequeue_user_lem,
}
use matrix_bridge_discord.Presence.Rounds.{reports, kept, ticks_round}
use matrix_bridge_discord.Presence.Status.{latest-finish}

abbrev plain : Casing
plain = record { to_uppercase = λ c. String.◌∷◌ c String.[]; to_lowercase = λ s. s }

abbrev quiet : Target
quiet _ _ _ = ok tt

abbrev ann : DiscordPresence
ann = record {
  user_id = "1";
  username = some "ann";
  state = DiscordPresenceState.dnd;
  activities = [];
}

abbrev ann_later : DiscordPresence
ann_later = record {
  user_id = "1";
  username = some "ann";
  state = DiscordPresenceState.offline;
  activities = [];
}

abbrev bob : DiscordPresence
bob = record {
  user_id = "2";
  username = none;
  state = DiscordPresenceState.offline;
  activities = record { kind = "playing"; name = "chess"; url = none } ∷ [];
}

abbrev queued : PresenceHandler
queued = record { bot_discord_user_id = some "9"; queue = ann ∷ bob ∷ [] }

queued-IsValid : IsValid queued
queued-IsValid = record { distinct = ((refl, tt), (tt, tt)); no_bot = (refl, (refl, tt)) }

latest-enqueue_user_example : latest "1" (enqueue_user queued ann_later).queue ≡ (
    if is_bot (some "9") "1"
    then latest "1" queued.queue
    else if "1" == "1"
    then some ann_later
    else latest "1" queued.queue)
latest-enqueue_user_example = latest-enqueue_user queued ann_later "1"

dequeue_user_lem_example :
    ((dequeue_user queued "1").0 ≡ is_some (latest "1" queued.queue))
    × (latest "2" (dequeue_user queued "1").1.queue
        ≡ (if "1" == "2" then none else latest "2" queued.queue))
dequeue_user_lem_example = dequeue_user_lem queued "1" "2"

-- Ann goes offline while her earlier presence is being reported.
abbrev raced : List Event
raced = enqueues ann ∷ enqueues bob ∷ takes ∷ enqueues ann_later ∷ finishes ∷ dequeues "2" ∷ []

run-new-IsValid_example : IsValid (run plain quiet (resting (new (some "9"))) raced).handler
run-new-IsValid_example = run-new-IsValid plain quiet (some "9") raced

ticks_round_example :
    ticks plain quiet (λ h. h) (length queued.queue) queued
    ≡ (reports plain quiet queued.queue, record queued { queue = kept queued.queue })
ticks_round_example = ticks_round plain quiet queued queued-IsValid

latest-finish_example :
    latest "1" (finish plain quiet (enqueue_user queued ann_later) ann).queue ≡ some ann
latest-finish_example = latest-finish plain quiet queued ann ann_later refl refl
