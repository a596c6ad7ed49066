-- ===== src/DiscordCommand/Authority.antt =====
-- No command does more than the sender's permissions allow.
use mathlib.Core.Logic.Or
use mathlib.Core.List.{Mem, mem-cons}
use matrix_bridge_discord.Prelude.{
  List, [], ◌∷◌, String, Bool, true, ◌==◌, ◌≡◌, refl, arith, Option-cases, Bool-cases, inl, inr,
  any, All, sym, eq_iff,
}
use matrix_bridge_discord.Text.{trim, join, is_empty}
use matrix_bridge_discord.Command.{ParsedCommand, parse_prefixed_command}
use matrix_bridge_discord.DiscordCommand.{
  ModerationAction, kick, ban, unban, DiscordCommandOutcome, ignored, reply, approve_requested,
  deny_requested, unbridge_requested, moderation_requested, bridge_requested, prefix,
  has_all_permissions, handle_bridge, handle_moderation, dispatch, handle_unbridge, bridge_of,
  moderation_of, handle,
}

-- What Discord's own client would want of someone who takes the action by hand.
abbrev pub needs : DiscordCommandOutcome → List String
needs ignored = []
needs (reply _) = []
needs approve_requested = "MANAGE_WEBHOOKS" ∷ []
needs deny_requested = "MANAGE_WEBHOOKS" ∷ []
needs unbridge_requested = "MANAGE_WEBHOOKS" ∷ "MANAGE_CHANNELS" ∷ []
needs (bridge_requested _ _) = "MANAGE_WEBHOOKS" ∷ "MANAGE_CHANNELS" ∷ []
needs (moderation_requested kick _) = "KICK_MEMBERS" ∷ []
needs (moderation_requested ban _) = "BAN_MEMBERS" ∷ []
needs (moderation_requested unban _) = "BAN_MEMBERS" ∷ []

-- Such an outcome comes only with the permissions for it.
abbrev IsAllowed : List String → DiscordCommandOutcome → Type 0
IsAllowed granted o = has_all_permissions granted (needs o) ≡ true

none_needed : (granted : List String) → has_all_permissions granted [] ≡ true
unfolding has_all_permissions
none_needed granted = refl

bridge_of-IsAllowed :
    (args granted : List String)
    → has_all_permissions granted ("MANAGE_WEBHOOKS" ∷ "MANAGE_CHANNELS" ∷ []) ≡ true
    → IsAllowed granted (bridge_of args)
bridge_of-IsAllowed [] granted h = none_needed granted
bridge_of-IsAllowed (g ∷ []) granted h = none_needed granted
bridge_of-IsAllowed (g ∷ c ∷ _) granted h = h

handle_bridge-IsAllowed :
    (args granted : List String) (bridged : Bool)
    → IsAllowed granted (handle_bridge args granted bridged)
unfolding handle_bridge
handle_bridge-IsAllowed args granted bridged =
    ground (arith, none_needed granted, bridge_of-IsAllowed args granted)

moderation_outcome :
    (args granted : List String) (needed : String) (action : ModerationAction)
    → ((u : String) → needs (moderation_requested action u) ≡ needed ∷ [])
    → has_all_permissions granted (needed ∷ []) ≡ true
    → IsAllowed granted (moderation_of (trim (join args " ")) action)
moderation_outcome args granted needed action h e =
    elim (Bool-cases (is_empty (trim (join args " ")))) [
      | inl none_named ↦ rw none_named (none_needed granted)
      | inr named ↦ rw (named, h) e
    ]

handle_moderation-IsAllowed :
    (args granted : List String) (needed : String) (action : ModerationAction)
    → ((u : String) → needs (moderation_requested action u) ≡ needed ∷ [])
    → IsAllowed granted (handle_moderation args granted needed action)
unfolding handle_moderation
handle_moderation-IsAllowed args granted needed action h =
    elim (Bool-cases (has_all_permissions granted (needed ∷ []))) [
      | inl e ↦ rw e (moderation_outcome args granted needed action h e)
      | inr e ↦ rw e (none_needed granted)
    ]

dispatch-IsAllowed :
    (parsed : ParsedCommand) (bridged : Bool) (granted : List String)
    → IsAllowed granted (dispatch parsed bridged granted)
unfolding dispatch handle_unbridge
dispatch-IsAllowed parsed bridged granted = ground (
  arith,
  none_needed granted,
  handle_bridge-IsAllowed parsed.args granted bridged,
  handle_moderation-IsAllowed parsed.args granted "KICK_MEMBERS" kick (λ _. refl),
  handle_moderation-IsAllowed parsed.args granted "BAN_MEMBERS" ban (λ _. refl),
  handle_moderation-IsAllowed parsed.args granted "BAN_MEMBERS" unban (λ _. refl),
)

Mem-of_any : (x : String) (l : List String) → any (λ p. p == x) l ≡ true → Mem x l
Mem-of_any x [] h = cc
Mem-of_any x (p ∷ l) h = elim (Bool-cases (p == x)) [
  | inl e ↦ mem-cons.1 (Or.inl (sym ((eq_iff p x).0 e)))
  | inr e ↦ mem-cons.1 (Or.inr (Mem-of_any x l (rw e at h)))
]

All-Mem :
    (granted required : List String)
    → has_all_permissions granted required ≡ true
    → All (λ perm. Mem perm granted) required
unfolding has_all_permissions
All-Mem granted [] h = tt
All-Mem granted (p ∷ required) h =
    (Mem-of_any p granted (ground arith), All-Mem granted required (ground arith))

-- Whatever the message, the sender holds every permission that the outcome needs: none for a reply,
-- those for webhooks and channels to bridge or unbridge, the one for the action to moderate.
pub handle-needs-Mem :
    (message : String) (bridged : Bool) (granted : List String)
    → All (λ perm. Mem perm granted) (needs (handle message bridged granted))
unfolding handle
handle-needs-Mem message bridged granted =
    elim (Option-cases (parse_prefixed_command prefix message)) [
      | inl e ↦ rw e tt
      | inr (parsed, e) ↦ rw e (All-Mem granted _ (dispatch-IsAllowed parsed bridged granted))
    ]
