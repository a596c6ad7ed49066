-- ===== src/MatrixMembers.antt =====
-- src/bridge.rs: what members, names and topics of a room on Matrix do on Discord.
pub mod Moderated
mod Tests
use Prim.Native.String
use mathlib.Core.Option
use matrix_bridge_discord.Prelude.{
  ℕ, List, [], ◌∷◌, String, Bool, true, false, not, Option, none, some, if◌then◌else◌, Result, ok,
  err, ℤ, ◌==◌, ◌&&◌, ◌||◌, ltb, unwrap_or,
}
use matrix_bridge_discord.Text.{is_empty, strip_prefix, contains}
use matrix_bridge_discord.BridgeLogic.{RoomMapping}
use matrix_bridge_discord.MessageFlow.{Json, MatrixEvent, get_str}
use matrix_bridge_discord.Rooms.{Options, get_room_mapping_cached}
use matrix_bridge_discord.Rooms.Store.{RoomStore}
use matrix_bridge_discord.Rooms.Tasks.{
  Call, join_room, get_user_profile, send_message, deny_channel_member_permissions,
  clear_channel_member_overwrite, Outside, World, Task, give, ◌>>=◌, ◌>>◌, attempt, perform,
}
use matrix_bridge_discord.FromMatrix.Profile.{is_namespaced_user}

-- `str::strip_suffix`
abbrev pub strip_suffix : String → String → Option String
strip_suffix String.[] suffix = if String.[] == suffix then some "" else none
strip_suffix (String.◌∷◌ c s) suffix =
    let rest = Option.map (λ t. String.◌∷◌ c t) (strip_suffix s suffix) in
    if String.◌∷◌ c s == suffix then some "" else rest

abbrev pub unless_odd : String → Option String
unless_odd id = if is_empty id || contains id ":" then none else some id

abbrev pub local_id : Option String → String → Option String
local_id none domain = none
local_id (some localpart) domain = elim (strip_suffix localpart (String.◌++◌ ":" domain)) [
  | none ↦ none
  | some id ↦ unless_odd id
]

unfoldable pub discord_user_id_from_mxid : String → String → Option String
discord_user_id_from_mxid domain mxid = local_id (strip_prefix "@_discord_" mxid) domain

abbrev pub moderation_notice : String → String → String → String → String
moderation_notice target membership sender reason = String.◌++◌ "Matrix moderation: `" (
    String.◌++◌ target (
      String.◌++◌ "` was " (
        String.◌++◌ (if membership == "ban" then "banned" else "kicked")
          (String.◌++◌ " by `" (String.◌++◌ sender (String.◌++◌ "`. Reason: " reason))))))

-- `bot` is the bridge's own user; `kick_for` counts milliseconds.
module _ {S : Type 0} (rooms : RoomStore S) (to_string : ℤ → String) (outside : Outside S)
    (options : Options) (bot : String) (kick_for : ℕ) (disable_room_topic_notifications : Bool)
    (json : Json) where
  abbrev pub try : Call → Task S (Unit {0})
  try c = do answer ← attempt c (λ log. outside.done log c); give tt

  -- The task that is spawned to take the denial back.
  abbrev pub restore_later : String → String → String → Task S (Unit {0})
  restore_later membership channel user =
      if membership == "leave" && ltb 0 kick_for
      then try (clear_channel_member_overwrite kick_for channel user)
      else give tt

  abbrev pub deny_and_tell :
      MatrixEvent json → json.Value → String → String → String → String → Task S (Unit {0})
  deny_and_tell event content membership target channel user = do
    try (deny_channel_member_permissions channel user)
    try (
        send_message channel (
          moderation_notice target membership event.sender
            (unwrap_or (get_str json content "reason") "No reason provided")))
    restore_later membership channel user

  abbrev pub deny_ghost :
      MatrixEvent json
      → json.Value
      → String
      → String
      → RoomMapping
      → Option String
      → Task S (Unit {0})
  deny_ghost event content membership target m none = give tt
  deny_ghost event content membership target m (some user) =
      deny_and_tell event content membership target m.discord_channel_id user

  abbrev pub moderate_in :
      MatrixEvent json → json.Value → String → String → Option RoomMapping → Task S (Unit {0})
  moderate_in event content membership target none = give tt
  moderate_in event content membership target (some m) =
      deny_ghost event content membership target m (discord_user_id_from_mxid options.domain target)

  -- A member has been removed by someone else.
  abbrev pub removed : MatrixEvent json → json.Value → String → Option String → Task S (Unit {0})
  removed event content membership none = give tt
  removed event content membership (some target) =
      if (membership == "leave" || membership == "ban") && not (event.sender == target)
      then get_room_mapping_cached rooms to_string outside options event.room_id
        >>= moderate_in event content membership target
      else give tt

  abbrev pub is_bot : Option String → Bool
  is_bot none = false
  is_bot (some state_key) = state_key == bot

  abbrev pub with_membership : MatrixEvent json → json.Value → Option String → Task S (Unit {0})
  with_membership event content none = give tt
  with_membership event content (some membership) =
      if membership == "invite" && is_bot event.state_key
      then try (join_room event.room_id)
      else if is_namespaced_user event.sender
      then give tt
      else removed event content membership event.state_key

  abbrev pub with_content : MatrixEvent json → Option json.Value → Task S (Unit {0})
  with_content event none = give tt
  with_content event (some content) =
      if json.is_object content
      then with_membership event content (get_str json content "membership")
      else give tt

  unfoldable pub handle_matrix_member : MatrixEvent json → Task S (Unit {0})
  handle_matrix_member event = with_content event event.content

  abbrev pub name_of : String → Result String (Option (String × Option String)) → String
  name_of sender (ok (some (name, _))) = name
  name_of sender (ok none) = sender
  name_of sender (err e) = sender

  abbrev pub announce : MatrixEvent json → String → String → Option RoomMapping → Task S (Unit {0})
  announce event what text none = give tt
  announce event what text (some m) = do
    profile ← attempt (get_user_profile event.sender) (λ log. outside.profile log event.sender)
    perform outside.done (
        send_message m.discord_channel_id (
          String.◌++◌ "**" (
            String.◌++◌ (name_of event.sender profile)
              (String.◌++◌ "** changed the room " (String.◌++◌ what (String.◌++◌ " to: " text))))))

  abbrev pub field_of : MatrixEvent json → String → String
  field_of event key = elim event.content [
    | none ↦ ""
    | some content ↦ unwrap_or (get_str json content key) ""
  ]

  abbrev pub announce_change : String → MatrixEvent json → Task S (Unit {0})
  announce_change what event = if disable_room_topic_notifications then give tt else do
    mapping ← get_room_mapping_cached rooms to_string outside options event.room_id
    announce event what (field_of event what) mapping

  unfoldable pub handle_matrix_room_name : MatrixEvent json → Task S (Unit {0})
  handle_matrix_room_name event = announce_change "name" event

  unfoldable pub handle_matrix_room_topic : MatrixEvent json → Task S (Unit {0})
  handle_matrix_room_topic event = announce_change "topic" event
