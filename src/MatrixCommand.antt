-- ===== src/MatrixCommand.antt =====
-- src/matrix/command_handler.rs: what a Matrix message that starts with `!discord` asks for. The
-- permission check is the caller's, and a parameter here.
pub mod Permission
pub mod Requests
mod Tests
use Prim.Native.String
use matrix_bridge_discord.Prelude.{
  List, [], ◌∷◌, String, Bool, true, false, not, Option, none, some, if◌then◌else◌, first, ◌==◌,
  ◌&&◌, ℤ, pos, Result, ok, err, unwrap_or,
}
use matrix_bridge_discord.Text.{trim_start, starts_with}
use matrix_bridge_discord.Command.{ParsedCommand, parse_prefixed_command, parse_guild_and_channel}

abbrev pub default_provisioning_power_level : ℤ
default_provisioning_power_level = pos 50

pub record MatrixCommandPermission : Type 0 where
  pub required_level : ℤ
  pub category : String
  pub subcategory : String
  pub self_service : Bool

pub data MatrixCommandOutcome : Type 0 where
  ignored : MatrixCommandOutcome
  reply : String → MatrixCommandOutcome
  bridge_requested : String → String → MatrixCommandOutcome
  unbridge_requested : MatrixCommandOutcome

pub record MatrixCommandHandler : Type 0 where
  pub prefix : String
  pub self_service_enabled : Bool
  pub provisioning_power_level : ℤ

abbrev pub new : Bool → Option ℤ → MatrixCommandHandler
new self_service_enabled provisioning_power_level = record {
  prefix = "!discord";
  self_service_enabled = self_service_enabled;
  provisioning_power_level = unwrap_or provisioning_power_level default_provisioning_power_level;
}

abbrev pub help_of : String → String
help_of c =
    if c == "bridge"
    then "`!discord bridge <guildId> <channelId>`: Bridges this room to a Discord channel\nUse `guild/channel` or `guild channel`."
    else if c == "unbridge"
    then "`!discord unbridge`: Unbridges a Discord channel from this room"
    else "**ERROR:** unknown command! Try `!discord help` to see all commands"

unfoldable pub render_help : Option String → String
render_help (some c) = help_of c
render_help none =
    "Available Commands:\n - `!discord bridge <guildId> <channelId>`: Bridges this room to a Discord channel\n - `!discord unbridge`: Unbridges a Discord channel from this room"

abbrev pub permission_of : MatrixCommandHandler → MatrixCommandPermission
permission_of h = record {
  required_level = h.provisioning_power_level;
  category = "events";
  subcategory = "m.room.power_levels";
  self_service = true;
}

-- `none` lets the command pass; otherwise the reply.
abbrev pub verdict : Result String Bool → Option String
verdict (ok true) = none
verdict (ok false) =
    some
      "**ERROR:** insufficient permissions to use this command! Try `!discord help` to see all available commands"
verdict (err e) = some (String.◌++◌ "**ERROR:** " e)

unfoldable pub is_command : MatrixCommandHandler → String → Bool
is_command h message = starts_with (trim_start message) h.prefix

abbrev pub bridge_of : Option (String × String) → MatrixCommandOutcome
bridge_of none = reply "Invalid syntax. For more information try `!discord help bridge`"
bridge_of (some (guild_id, channel_id)) = bridge_requested guild_id channel_id

-- An early return with the refusal, if there is one.
abbrev pub unless_refused : Option String → MatrixCommandOutcome → MatrixCommandOutcome
unless_refused (some text) outcome = reply text
unless_refused none outcome = outcome

module _ (h : MatrixCommandHandler)
    (permission_check : MatrixCommandPermission → Result String Bool) where
  unfoldable pub ensure_permission : Option String
  ensure_permission =
      if (permission_of h).self_service && not h.self_service_enabled
      then some "The owner of this bridge does not permit self-service bridging."
      else verdict (permission_check (permission_of h))

  -- The `match` on the command.
  unfoldable pub dispatch : ParsedCommand → Bool → MatrixCommandOutcome
  dispatch parsed room_is_bridged =
      if parsed.command == "help"
      then reply (render_help (first parsed.args))
      else if parsed.command == "bridge"
      then unless_refused ensure_permission (
          if room_is_bridged
          then reply "This room is already bridged to a Discord guild."
          else bridge_of (parse_guild_and_channel parsed.args))
      else if parsed.command == "unbridge"
      then unless_refused ensure_permission
          (if not room_is_bridged then reply "This room is not bridged." else unbridge_requested)
      else reply "**ERROR:** unknown command. Try `!discord help` to see all commands"

  abbrev pub outcome_of : Option ParsedCommand → Bool → MatrixCommandOutcome
  outcome_of none room_is_bridged = ignored
  outcome_of (some parsed) room_is_bridged = dispatch parsed room_is_bridged

  unfoldable pub handle : String → Bool → MatrixCommandOutcome
  handle message room_is_bridged =
      outcome_of (parse_prefixed_command h.prefix message) room_is_bridged
