-- ===== src/Presence/Status.antt =====
-- What a presence is reported as, and what a tick forgets.
use Prim.Native.String
use text.Mathlib.TextLemmas.{append_assoc}
use matrix_bridge_discord.Prelude.{
  List, [], ◌∷◌, String, Bool, true, false, Option, none, some, ◌≡◌, refl, sym, ap, ◌∙◌, arith,
  if◌then◌else◌, eq_refl, ok, err, Result,
}
use matrix_bridge_discord.Text.{is_empty, contains}
use matrix_bridge_discord.Presence.{
  DiscordPresenceState, MatrixPresenceState, DiscordActivity, DiscordPresence, PresenceHandler,
  is_bot, enqueue_user, Casing, Target, TargetCall, set_presence, ensure_user_registered, with_url,
  titled, activity_text, decide, map_presence, after_error, report, finish,
}
use matrix_bridge_discord.Presence.Queue.{latest, latest-enqueue_user}

-- The state that Matrix shows: it has no state for a user who is not to be disturbed.
abbrev pub shown_state : DiscordPresenceState → MatrixPresenceState
shown_state DiscordPresenceState.online = MatrixPresenceState.online
shown_state DiscordPresenceState.dnd = MatrixPresenceState.online
shown_state DiscordPresenceState.idle = MatrixPresenceState.unavailable
shown_state DiscordPresenceState.offline = MatrixPresenceState.offline

abbrev pub is_offline : DiscordPresenceState → Bool
is_offline DiscordPresenceState.online = false
is_offline DiscordPresenceState.dnd = false
is_offline DiscordPresenceState.idle = false
is_offline DiscordPresenceState.offline = true

-- Two texts with " | " between them, or the first alone if the second is empty.
abbrev pub beside : String → String → String
beside a b = if is_empty b then a else String.◌++◌ a (String.◌++◌ " | " b)

-- The text that Matrix shows, for a state and the text of an activity.
abbrev pub text_of : DiscordPresenceState → String → String
text_of DiscordPresenceState.online text = text
text_of DiscordPresenceState.dnd text = beside "Do not disturb" text
text_of DiscordPresenceState.idle text = text
text_of DiscordPresenceState.offline text = text

module _ (casing : Casing) where
  open casing use {to_uppercase, to_lowercase}

  abbrev pub capitalised : String → String
  capitalised String.[] = ""
  capitalised (String.◌∷◌ c rest) = String.◌++◌ (to_uppercase c) (to_lowercase rest)

  -- The kind of the first activity as a word, its name, and its address if there is one.
  abbrev pub headline : DiscordActivity → String
  headline a =
      if is_empty a.kind then a.name else String.◌++◌ (capitalised a.kind) (String.◌++◌ " " a.name)

  abbrev pub shown_activity : List DiscordActivity → String
  shown_activity [] = ""
  shown_activity (a ∷ _) = elim a.url [
    | none ↦ headline a
    | some url ↦ String.◌++◌ (headline a) (String.◌++◌ " | " url)
  ]

  abbrev pub shown_text : DiscordPresence → String
  shown_text p = text_of p.state (shown_activity p.activities)

  headline_of :
      (kind name : String)
      → titled casing kind name
        ≡ (if is_empty kind then name else String.◌++◌ (capitalised kind) (String.◌++◌ " " name))
  unfolding is_empty
  headline_of String.[] name = refl
  headline_of (String.◌∷◌ c rest) name =
      sym (append_assoc (to_uppercase c) (to_lowercase rest) (String.◌++◌ " " name))

  with_url_of :
      (text : String) (url : Option String)
      → with_url casing text url
        ≡ elim url [ none ↦ text | some u ↦ String.◌++◌ text (String.◌++◌ " | " u) ]
  with_url_of text none = refl
  with_url_of text (some url) = refl

  shown_activity_lem : (l : List DiscordActivity) → activity_text casing l ≡ shown_activity l
  unfolding activity_text
  shown_activity_lem [] = refl
  shown_activity_lem (a ∷ _) =
      ap (λ t. with_url casing t a.url) (headline_of a.kind a.name) ∙ with_url_of (headline a) a.url

  beside_lem :
      (text : String) (b : Bool)
      → (if b then "Do not disturb" else String.◌++◌ "Do not disturb | " text)
        ≡ (if b then "Do not disturb" else String.◌++◌ "Do not disturb" (String.◌++◌ " | " text))
  beside_lem text true = refl
  beside_lem text false = append_assoc "Do not disturb" " | " text

  decided :
      (s : DiscordPresenceState) (text : String)
      → ((decide casing s text).presence ≡ shown_state s)
        × ((decide casing s text).status_message ≡ text_of s text)
  decided DiscordPresenceState.online text = (refl, refl)
  decided DiscordPresenceState.dnd text = (refl, beside_lem text (is_empty text))
  decided DiscordPresenceState.idle text = (refl, refl)
  decided DiscordPresenceState.offline text = (refl, refl)

  module _ (target : Target) where
    -- The calls for a presence: it is set, and if the homeserver forbids it, the user is registered.
    abbrev pub reported : DiscordPresence → List TargetCall
    reported p =
        set_presence p.user_id (shown_state p.state) (shown_text p)
        ∷ elim (target p.user_id (shown_state p.state) (shown_text p)) [
          | ok _ ↦ []
          | err e ↦
              (if contains e "M_FORBIDDEN"
                then ensure_user_registered p.user_id p.username ∷ []
                else [])
        ]

    after_error_lem :
        (p : DiscordPresence) (r : Result String (Unit {0}))
        → after_error p r ≡ elim r [
          | ok _ ↦ []
          | err e ↦
              (if contains e "M_FORBIDDEN"
                then ensure_user_registered p.user_id p.username ∷ []
                else [])
        ]
    after_error_lem p (ok _) = refl
    after_error_lem p (err e) = refl

    pub report_lem : (p : DiscordPresence) → report casing target p ≡ reported p
    unfolding report map_presence
    report_lem p =
        let d = decided p.state (activity_text casing p.activities) in
        let message = d.1 ∙ ap (text_of p.state) (shown_activity_lem p.activities) in
        rw (d.0, message)
          (ap (λ l. set_presence p.user_id (shown_state p.state) (shown_text p) ∷ l)
            (after_error_lem p (target p.user_id (shown_state p.state) (shown_text p))))

  pub should_drop-is_offline :
      (s : DiscordPresenceState) (text : String) → (decide casing s text).should_drop ≡ is_offline s
  should_drop-is_offline DiscordPresenceState.online text = refl
  should_drop-is_offline DiscordPresenceState.dnd text = refl
  should_drop-is_offline DiscordPresenceState.idle text = refl
  should_drop-is_offline DiscordPresenceState.offline text = refl

  module _ (target : Target) where
    bot-enqueue_user :
        (h : PresenceHandler) (p : DiscordPresence)
        → (enqueue_user h p).bot_discord_user_id ≡ h.bot_discord_user_id
    unfolding enqueue_user
    bot-enqueue_user h p = ground arith

    -- The end of a report overwrites what the queue holds for the user, also a newer presence that
    -- came in while the report was under way: unless the reported user is the bot or was offline,
    -- the queue holds the reported presence again.
    pub latest-finish :
        (h : PresenceHandler) (old new : DiscordPresence)
        → is_bot h.bot_discord_user_id old.user_id ≡ false
        → is_offline old.state ≡ false
        → latest old.user_id (finish casing target (enqueue_user h new) old).queue ≡ some old
    unfolding finish map_presence
    latest-finish h old new human on =
        rw (should_drop-is_offline old.state (activity_text casing old.activities), on)
          (rw (latest-enqueue_user, bot-enqueue_user, human, eq_refl) refl)
