-- ===== src/DiscordCommand/Requests.antt =====
-- When a message is ignored, and what a request carries.
use text.Mathlib.TextLemmas.{cons-ne-nil}
use matrix_bridge_discord.Text.Laws.{join-ne-nil}
use matrix_bridge_discord.Prelude.{
  List, [], ◌∷◌, String, Bool, true, false, ◌≡◌, ◌≢◌, ◌↔◌, refl, arith, is_some, Option-cases,
  Bool-cases, inl, inr, All, ap, ◌∙◌, sym, subst,
}
use matrix_bridge_discord.Text.{trim, join, IsWord, NoSpace, is_whitespace}
use matrix_bridge_discord.Command.{ParsedCommand, parse_prefixed_command}
use matrix_bridge_discord.Command.Laws.{
  is_some-parse_prefixed_command, parse_prefixed_command-join, trim-join, is_empty_of_ne-nil,
}
use matrix_bridge_discord.DiscordCommand.{
  ModerationAction, kick, ban, unban, DiscordCommandOutcome, ignored, reply, approve_requested,
  deny_requested, unbridge_requested, moderation_requested, bridge_requested, prefix, is_command,
  action_keyword, has_all_permissions, handle_bridge, handle_moderation, dispatch, handle_unbridge,
  bridge_of, moderation_of, handle,
}

prefix-NoSpace : NoSpace prefix
unfolding is_whitespace
prefix-NoSpace = (refl, (refl, (refl, (refl, (refl, (refl, (refl, tt)))))))

abbrev Answered : DiscordCommandOutcome → Type 0
Answered ignored = ⊥
Answered (reply _) = Unit
Answered approve_requested = Unit
Answered deny_requested = Unit
Answered unbridge_requested = Unit
Answered (bridge_requested _ _) = Unit
Answered (moderation_requested _ _) = Unit

bridge_of-Answered : (args : List String) → Answered (bridge_of args)
bridge_of-Answered [] = tt
bridge_of-Answered (g ∷ []) = tt
bridge_of-Answered (g ∷ c ∷ _) = tt

handle_bridge-Answered :
    (args granted : List String) (bridged : Bool) → Answered (handle_bridge args granted bridged)
unfolding handle_bridge
handle_bridge-Answered args granted bridged = ground (arith, bridge_of-Answered args)

handle_moderation-Answered :
    (args granted : List String) (needed : String) (action : ModerationAction)
    → Answered (handle_moderation args granted needed action)
unfolding handle_moderation
handle_moderation-Answered args granted needed action = ground arith

dispatch-Answered :
    (parsed : ParsedCommand) (bridged : Bool) (granted : List String)
    → Answered (dispatch parsed bridged granted)
unfolding dispatch handle_unbridge
dispatch-Answered parsed bridged granted = ground (
  arith,
  handle_bridge-Answered parsed.args granted bridged,
  handle_moderation-Answered parsed.args granted "KICK_MEMBERS" kick,
  handle_moderation-Answered parsed.args granted "BAN_MEMBERS" ban,
  handle_moderation-Answered parsed.args granted "BAN_MEMBERS" unban,
)

-- A message is ignored exactly when `is_command` does not hold of it, so the caller that asks
-- first and hands it over then gets an answer.
pub handle-eq-ignored_iff :
    (message : String) (bridged : Bool) (granted : List String)
    → (handle message bridged granted ≡ ignored) ↔ (is_command message ≡ false)
unfolding handle is_command
handle-eq-ignored_iff message bridged granted =
    let test = is_some-parse_prefixed_command prefix message prefix-NoSpace in
    elim (Option-cases (parse_prefixed_command prefix message)) [
      | inl e ↦ (λ _. sym test ∙ ap is_some e, λ _. rw e)
      | inr (parsed, e) ↦ (
        λ h. absurd (subst Answered (rw e at h) (dispatch-Answered parsed bridged granted)),
        λ h. cc (sym (ap is_some e) ∙ test ∙ h),
      )
    ]

-- What the channel's state must be for the request, and what the request names.
abbrev pub Fits : Bool → DiscordCommandOutcome → Type 0
Fits bridged unbridge_requested = bridged ≡ true
Fits bridged (bridge_requested _ _) = bridged ≡ false
Fits bridged (moderation_requested _ user) = user ≢ ""
Fits bridged ignored = Unit
Fits bridged (reply _) = Unit
Fits bridged approve_requested = Unit
Fits bridged deny_requested = Unit

bridge_of-Fits :
    (args : List String) (bridged : Bool) → bridged ≡ false → Fits bridged (bridge_of args)
bridge_of-Fits [] bridged h = tt
bridge_of-Fits (g ∷ []) bridged h = tt
bridge_of-Fits (g ∷ c ∷ _) bridged h = h

moderation_of-Fits :
    (user : String) (action : ModerationAction) (bridged : Bool)
    → Fits bridged (moderation_of user action)
moderation_of-Fits String.[] action bridged = tt
moderation_of-Fits (String.◌∷◌ c user) action bridged = cons-ne-nil c user

handle_bridge-Fits :
    (args granted : List String) (bridged : Bool)
    → Fits bridged (handle_bridge args granted bridged)
unfolding handle_bridge
handle_bridge-Fits args granted bridged = ground (arith, bridge_of-Fits args bridged)

handle_moderation-Fits :
    (args granted : List String) (needed : String) (action : ModerationAction) (bridged : Bool)
    → Fits bridged (handle_moderation args granted needed action)
unfolding handle_moderation
handle_moderation-Fits args granted needed action bridged =
    elim (Bool-cases (has_all_permissions granted (needed ∷ []))) [
      | inl e ↦ rw e (moderation_of-Fits (trim (join args " ")) action bridged)
      | inr e ↦ rw e tt
    ]

dispatch-Fits :
    (parsed : ParsedCommand) (bridged : Bool) (granted : List String)
    → Fits bridged (dispatch parsed bridged granted)
unfolding dispatch handle_unbridge
dispatch-Fits parsed bridged granted = ground (
  arith,
  handle_bridge-Fits parsed.args granted bridged,
  handle_moderation-Fits parsed.args granted "KICK_MEMBERS" kick bridged,
  handle_moderation-Fits parsed.args granted "BAN_MEMBERS" ban bridged,
  handle_moderation-Fits parsed.args granted "BAN_MEMBERS" unban bridged,
)

-- To unbridge is requested for a bridged channel only, to bridge for one that is not bridged, and
-- to moderate for a user that is named.
pub handle-Fits :
    (message : String) (bridged : Bool) (granted : List String)
    → Fits bridged (handle message bridged granted)
unfolding handle
handle-Fits message bridged granted = elim (Option-cases (parse_prefixed_command prefix message)) [
  | inl e ↦ rw e tt
  | inr (parsed, e) ↦ rw e (dispatch-Fits parsed bridged granted)
]

abbrev pub right_for : ModerationAction → String
right_for kick = "KICK_MEMBERS"
right_for ban = "BAN_MEMBERS"
right_for unban = "BAN_MEMBERS"

handle_moderation_granted :
    (w : String) (ws granted : List String) (needed : String) (action : ModerationAction)
    → IsWord w
    → All IsWord ws
    → has_all_permissions granted (needed ∷ []) ≡ true
    → handle_moderation (w ∷ ws) granted needed action
      ≡ moderation_requested action (join (w ∷ ws) " ")
unfolding handle_moderation
handle_moderation_granted w ws granted needed action h hs e =
    rw (e, trim-join w ws h hs, is_empty_of_ne-nil _ (join-ne-nil w ws h))

keyword-IsWord : (action : ModerationAction) → IsWord (action_keyword action)
unfolding action_keyword is_whitespace
keyword-IsWord kick = ((refl, (refl, (refl, (refl, tt)))), cons-ne-nil _ _)
keyword-IsWord ban = ((refl, (refl, (refl, tt))), cons-ne-nil _ _)
keyword-IsWord unban = ((refl, (refl, (refl, (refl, (refl, tt))))), cons-ne-nil _ _)

dispatch_moderation :
    (action : ModerationAction) (args granted : List String) (bridged : Bool)
    → dispatch (record { command = action_keyword action; args = args }) bridged granted
      ≡ handle_moderation args granted (right_for action) action
unfolding dispatch action_keyword
dispatch_moderation kick args granted bridged = refl
dispatch_moderation ban args granted bridged = refl
dispatch_moderation unban args granted bridged = refl

-- The sender who has the right for an action and writes `!matrix kick <name>` (or `ban`, `unban`),
-- with words for the name, requests it of that name.
pub handle_moderation_command :
    (action : ModerationAction) (w : String) (ws granted : List String) (bridged : Bool)
    → IsWord w
    → All IsWord ws
    → has_all_permissions granted (right_for action ∷ []) ≡ true
    → handle (join (prefix ∷ action_keyword action ∷ w ∷ ws) " ") bridged granted
      ≡ moderation_requested action (join (w ∷ ws) " ")
unfolding handle
handle_moderation_command action w ws granted bridged h hs right =
    rw
      (
        parse_prefixed_command-join prefix (action_keyword action) (w ∷ ws)
            (prefix-NoSpace, cons-ne-nil _ _) (keyword-IsWord action) (h, hs),
        dispatch_moderation action (w ∷ ws) granted bridged,
      )
      (handle_moderation_granted w ws granted (right_for action) action h hs right)
