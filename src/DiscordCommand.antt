-- ===== src/DiscordCommand.antt =====
-- src/discord/command_handler.rs: what a Discord message that starts with `!matrix` asks for, and
-- who may ask for it.
pub mod Authority
pub mod Requests
mod Tests
use mathlib.Core.Option
use matrix_bridge_discord.Prelude.{
  List, [], ◌∷◌, String, Bool, true, false, not, Option, none, some, if◌then◌else◌, first, any, all,
  ◌==◌,
}
use matrix_bridge_discord.Text.{is_empty, trim, trim_start, starts_with, join}
use matrix_bridge_discord.Command.{ParsedCommand, parse_prefixed_command}
use Prim.Native.String

pub data ModerationAction : Type 0 where
  kick ban unban : ModerationAction

pub data DiscordCommandOutcome : Type 0 where
  ignored : DiscordCommandOutcome
  reply : String → DiscordCommandOutcome
  approve_requested deny_requested unbridge_requested : DiscordCommandOutcome
  moderation_requested : ModerationAction → String → DiscordCommandOutcome
  bridge_requested : String → String → DiscordCommandOutcome

abbrev pub prefix : String
prefix = "!matrix"

-- A `HashSet<String>` is the list of its elements.
unfoldable pub has_all_permissions : List String → List String → Bool
has_all_permissions granted required = all (λ perm. any (λ p. p == perm) granted) required

abbrev pub permission_denied : DiscordCommandOutcome
permission_denied =
    reply
      "**ERROR:** insufficient permissions to use this command! Try `!matrix help` to see all available commands"

unfoldable pub action_keyword : ModerationAction → String
action_keyword kick = "kick"
action_keyword ban = "ban"
action_keyword unban = "unban"

abbrev pub help_of : String → String
help_of c =
    if c == "approve"
    then "`!matrix approve`: Approve a pending bridge request"
    else if c == "deny"
    then "`!matrix deny`: Deny a pending bridge request"
    else if c == "bridge"
    then "`!matrix bridge <guild_id> <channel_id>`: Bridge this channel to a Matrix room"
    else if c == "kick"
    then "`!matrix kick <name>`: Kicks a user on the Matrix side"
    else if c == "ban"
    then "`!matrix ban <name>`: Bans a user on the Matrix side"
    else if c == "unban"
    then "`!matrix unban <name>`: Unbans a user on the Matrix side"
    else if c == "unbridge"
    then "`!matrix unbridge`: Unbridge Matrix rooms from this channel"
    else "**ERROR:** unknown command! Try `!matrix help` to see all commands"

unfoldable pub render_help : Option String → String
render_help (some c) = help_of c
render_help none =
    "Available Commands:\n - `!matrix approve`: Approve a pending bridge request\n - `!matrix deny`: Deny a pending bridge request\n - `!matrix bridge <guild_id> <channel_id>`: Bridge this channel to a Matrix room\n - `!matrix kick <name>`: Kicks a user on the Matrix side\n - `!matrix ban <name>`: Bans a user on the Matrix side\n - `!matrix unban <name>`: Unbans a user on the Matrix side\n - `!matrix unbridge`: Unbridge Matrix rooms from this channel"

unfoldable pub is_command : String → Bool
is_command message = starts_with (trim_start message) prefix

-- The arguments of `bridge`, once the guards have passed.
abbrev pub bridge_of : List String → DiscordCommandOutcome
bridge_of (guild_id ∷ channel_id ∷ _) = bridge_requested guild_id channel_id
bridge_of _ = reply "**ERROR:** Invalid syntax. Usage: `!matrix bridge <guild_id> <channel_id>`"

unfoldable pub handle_bridge : List String → List String → Bool → DiscordCommandOutcome
handle_bridge args granted is_channel_bridged =
    if not (has_all_permissions granted ("MANAGE_WEBHOOKS" ∷ "MANAGE_CHANNELS" ∷ []))
    then permission_denied
    else if is_channel_bridged
    then reply "This channel is already bridged. Use `!matrix unbridge` to remove the bridge first."
    else bridge_of args

-- The target of a moderation command, once its guard has passed.
abbrev pub moderation_of : String → ModerationAction → DiscordCommandOutcome
moderation_of matrix_user action =
    if is_empty matrix_user
    then reply (
        String.◌++◌ "Invalid syntax. For more information try `!matrix help "
          (String.◌++◌ (action_keyword action) "`"))
    else moderation_requested action matrix_user

unfoldable pub handle_moderation :
    List String → List String → String → ModerationAction → DiscordCommandOutcome
handle_moderation args granted needed action =
    if not (has_all_permissions granted (needed ∷ []))
    then permission_denied
    else moderation_of (trim (join args " ")) action

-- `approve` and `deny` want one permission.
abbrev pub guarded : List String → DiscordCommandOutcome → DiscordCommandOutcome
guarded granted outcome =
    if not (has_all_permissions granted ("MANAGE_WEBHOOKS" ∷ []))
    then permission_denied
    else outcome

unfoldable pub handle_unbridge : List String → Bool → DiscordCommandOutcome
handle_unbridge granted is_channel_bridged =
    if not (has_all_permissions granted ("MANAGE_WEBHOOKS" ∷ "MANAGE_CHANNELS" ∷ []))
    then permission_denied
    else if not is_channel_bridged
    then reply "This channel is not bridged to a plumbed matrix room"
    else unbridge_requested

-- The `match` on the command.
unfoldable pub dispatch : ParsedCommand → Bool → List String → DiscordCommandOutcome
dispatch parsed is_channel_bridged granted =
    if parsed.command == "help"
    then reply (render_help (first parsed.args))
    else if parsed.command == "approve"
    then guarded granted approve_requested
    else if parsed.command == "deny"
    then guarded granted deny_requested
    else if parsed.command == "bridge"
    then handle_bridge parsed.args granted is_channel_bridged
    else if parsed.command == "unbridge"
    then handle_unbridge granted is_channel_bridged
    else if parsed.command == "kick"
    then handle_moderation parsed.args granted "KICK_MEMBERS" kick
    else if parsed.command == "ban"
    then handle_moderation parsed.args granted "BAN_MEMBERS" ban
    else if parsed.command == "unban"
    then handle_moderation parsed.args granted "BAN_MEMBERS" unban
    else reply "**ERROR:** unknown command. Try `!matrix help` to see all commands"

abbrev pub outcome_of : Option ParsedCommand → Bool → List String → DiscordCommandOutcome
outcome_of none is_channel_bridged granted = ignored
outcome_of (some parsed) is_channel_bridged granted = dispatch parsed is_channel_bridged granted

unfoldable pub handle : String → Bool → List String → DiscordCommandOutcome
handle message is_channel_bridged granted =
    outcome_of (parse_prefixed_command prefix message) is_channel_bridged granted
