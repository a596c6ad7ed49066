-- ===== src/Moderation.antt =====
-- src/bridge.rs: the command handler's outcome on Discord is carried out. A moderation command
-- reaches every room of the guild.
pub mod Targets
pub mod Once
mod Tests
use Prim.Native.String
use matrix_bridge_discord.Prelude.{
  ℕ, suc, List, [], ◌∷◌, String, Bool, true, false, Option, none, some, if◌then◌else◌, Result, ok,
  err, ℤ, pos, ◌==◌, any, eqb,
}
use matrix_bridge_discord.DiscordCommand.{
  ModerationAction, kick, ban, unban, action_keyword, DiscordCommandOutcome, ignored, reply,
  approve_requested, deny_requested, unbridge_requested, moderation_requested, bridge_requested,
}
use matrix_bridge_discord.Provisioning.{ApprovalResponseStatus, applied, expired}
use matrix_bridge_discord.BridgeLogic.{RoomMapping}
use matrix_bridge_discord.Rooms
use matrix_bridge_discord.Rooms.{Options, request_bridge_discord_channel}
use matrix_bridge_discord.Rooms.Store.{RoomStore}
use matrix_bridge_discord.Rooms.Tasks.{
  Call, kick_user_from_room, ban_user_from_room, unban_user_from_room, send_notice, send_message,
  Outside, World, Task, give, ◌>>=◌, ◌>>◌, query, attempt, perform,
}

-- How many rooms have taken the action, and how many have not.
pub record Tally : Type 0 where
  pub success_count : ℕ
  pub failed_count : ℕ

abbrev pub action_word : ModerationAction → String
action_word kick = "Kicked"
action_word ban = "Banned"
action_word unban = "Unbanned"

-- The rooms of the rows that are not seen yet, each at its first row.
abbrev pub unseen_rooms : List String → List RoomMapping → List String
unseen_rooms seen [] = []
unseen_rooms seen (m ∷ l) =
    let others = unseen_rooms seen l in
    let later = unseen_rooms (m.matrix_room_id ∷ seen) l in
    if any (λ room. room == m.matrix_room_id) seen then others else m.matrix_room_id ∷ later

unfoldable pub target_rooms : RoomMapping → List RoomMapping → List String
target_rooms mapping [] = mapping.matrix_room_id ∷ []
target_rooms mapping (m ∷ l) = unseen_rooms [] (m ∷ l)

abbrev pub moderation_call : ModerationAction → String → String → String → Call
moderation_call kick user reason room = kick_user_from_room room user (some reason)
moderation_call ban user reason room = ban_user_from_room room user (some reason)
moderation_call unban user reason room = unban_user_from_room room user

abbrev pub reason_of : String → String → String
reason_of sender channel =
    String.◌++◌ "Discord moderation request by "
      (String.◌++◌ sender (String.◌++◌ " from channel " channel))

abbrev pub notice_of : ModerationAction → String → String → String
notice_of action user sender = String.◌++◌ "Discord moderation request: " (
    String.◌++◌ (action_keyword action)
      (String.◌++◌ " " (String.◌++◌ user (String.◌++◌ " (requested by " (String.◌++◌ sender ")")))))

-- The branches of a command are carried out for the channel and the sender of its message. The
-- provisioning handler is a part of the state.
module _ {S : Type 0} (rooms : RoomStore S)
    (mark_approval : S → String → Bool → ApprovalResponseStatus × S) (to_string : ℤ → String)
    (outside : Outside S) (options : Options) (channel sender : String) where
  abbrev pub say : String → Task S (Unit {0})
  say text = perform outside.done (send_message channel text)

  abbrev pub approval_text : Bool → ApprovalResponseStatus → String
  approval_text true applied = "Thanks for your response! The matrix bridge has been approved."
  approval_text false applied = "Thanks for your response! The matrix bridge has been declined."
  approval_text approved expired =
      "Thanks for your response, however it has arrived after the deadline - sorry!"

  abbrev pub mark : Bool → Task S ApprovalResponseStatus
  mark approved w =
      let (status, s) = mark_approval w.db channel approved in (ok status, record w { db = s })

  abbrev pub answer_request : Bool → Task S (Unit {0})
  answer_request approved = do status ← mark approved; say (approval_text approved status)

  module _ (action : ModerationAction) (matrix_user : String) where
    abbrev pub tally : String → Tally → Result String (Unit {0}) → Task S Tally
    tally room count (ok _) = do
      attempt (send_notice room (notice_of action matrix_user sender))
          (λ log. outside.done log (send_notice room (notice_of action matrix_user sender)))
      give (record count { success_count = suc count.success_count })
    tally room count (err e) = give (record count { failed_count = suc count.failed_count })

    abbrev pub moderate_room : Tally → String → Task S Tally
    moderate_room count room = do
      result ← attempt (moderation_call action matrix_user (reason_of sender channel) room) (λ log.
          outside.done log (moderation_call action matrix_user (reason_of sender channel) room))
      tally room count result

    abbrev pub moderate_rooms : Tally → List String → Task S Tally
    moderate_rooms count [] = give count
    moderate_rooms count (room ∷ rest) = do
      counted ← moderate_room count room
      moderate_rooms counted rest

    abbrev pub report : Tally → String
    report count = String.◌++◌ (action_word action) (
        String.◌++◌ " " (
          String.◌++◌ matrix_user (
            String.◌++◌ " in " (
              String.◌++◌ (to_string (pos count.success_count)) (
                if eqb count.failed_count 0
                then " bridged room(s)."
                else String.◌++◌ " room(s), failed in "
                    (String.◌++◌ (to_string (pos count.failed_count)) " room(s)."))))))

    unfoldable pub moderate : Option RoomMapping → Task S (Unit {0})
    moderate none = say "This channel is not bridged to a plumbed matrix room"
    moderate (some mapping) = do
      guild_rooms ← query (λ s. rooms.get_rooms_by_guild s mapping.discord_guild_id)
      count ←
          moderate_rooms (record { success_count = 0; failed_count = 0 })
            (target_rooms mapping guild_rooms)
      say (report count)

  unfoldable pub handle_discord_command_outcome :
      DiscordCommandOutcome → Option RoomMapping → Task S (Unit {0})
  handle_discord_command_outcome ignored room_mapping = give tt
  handle_discord_command_outcome (reply text) room_mapping = say text
  handle_discord_command_outcome approve_requested room_mapping = answer_request true
  handle_discord_command_outcome deny_requested room_mapping = answer_request false
  handle_discord_command_outcome (moderation_requested action matrix_user) room_mapping =
      moderate action matrix_user room_mapping
  handle_discord_command_outcome unbridge_requested room_mapping =
      Rooms.unbridge_requested rooms to_string outside options channel room_mapping
  handle_discord_command_outcome (bridge_requested guild_id channel_id) room_mapping = do
    text ← request_bridge_discord_channel rooms to_string outside options guild_id channel_id
    say text
