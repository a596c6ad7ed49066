-- ===== src/FromDiscord.antt =====
-- src/bridge.rs: a message from Discord is a command or is relayed.
pub mod Outcome
mod Tests
use matrix_bridge_discord.Prelude.{
  List, [], String, Bool, true, Option, none, some, if◌then◌else◌, is_some, ok, err, Result, ℤ,
}
use matrix_bridge_discord.DiscordCommand
use matrix_bridge_discord.Provisioning.{ApprovalResponseStatus}
use matrix_bridge_discord.BridgeLogic.{RoomMapping}
use matrix_bridge_discord.Rooms.{Options}
use matrix_bridge_discord.Rooms.Store.{RoomStore}
use matrix_bridge_discord.Rooms.Tasks.{Outside, World, Task, give, ◌>>=◌, query}
use matrix_bridge_discord.Messages.Store.{MessageStore}
use matrix_bridge_discord.Messages.{
  DiscordMessageContext, MessageOptions, send_to_matrix_message, relay_discord_message,
}
use matrix_bridge_discord.Moderation.{handle_discord_command_outcome}

module _ {S : Type 0} (rooms : RoomStore S) (messages : MessageStore S)
    (mark_approval : S → String → Bool → ApprovalResponseStatus × S) (to_string : ℤ → String)
    (format_for_matrix : String → String) (outside : Outside S) (options : Options)
    (message_options : MessageOptions) where
  abbrev pub relay_if_bridged : DiscordMessageContext → Option RoomMapping → Task S (Unit {0})
  relay_if_bridged ctx none = give tt
  relay_if_bridged ctx (some m) =
      relay_discord_message rooms messages outside format_for_matrix message_options ctx m

  abbrev pub carry_out : DiscordMessageContext → Option RoomMapping → Task S (Unit {0})
  carry_out ctx mapping =
      handle_discord_command_outcome rooms mark_approval to_string outside options ctx.channel_id
        ctx.sender_id (DiscordCommand.handle ctx.content (is_some mapping) ctx.permissions) mapping

  unfoldable pub handle_discord_message_with_context : DiscordMessageContext → Task S (Unit {0})
  handle_discord_message_with_context ctx = do
    mapping ← query (λ s. rooms.get_room_by_discord_channel s ctx.channel_id)
    if DiscordCommand.is_command ctx.content
        then carry_out ctx mapping
        else relay_if_bridged ctx mapping

  unfoldable pub handle_discord_message : String → String → String → Task S (Unit {0})
  handle_discord_message channel_id sender content = handle_discord_message_with_context (record {
    channel_id = channel_id;
    source_message_id = none;
    sender_id = sender;
    content = content;
    attachments = [];
    reply_to = none;
    edit_of = none;
    permissions = [];
  })

  unfoldable pub send_to_matrix : String → String → String → Task S (Unit {0})
  send_to_matrix room sender content = do
    event ←
        send_to_matrix_message rooms messages outside room sender
          (record { body = content; reply_to = none; edit_of = none; attachments = [] })
    give tt
