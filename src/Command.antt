-- ===== src/Command.antt =====
-- src/parsers/command_parser.rs: commands behind a prefix, and the guild and channel of `bridge`.
pub mod Laws
pub mod Guild
mod Tests
use matrix_bridge_discord.Prelude.{
  List, [], ◌∷◌, String, Option, none, some, if◌then◌else◌, ◌>>=◌, unwrap_or, first, ◌||◌,
}
use matrix_bridge_discord.Text.{is_empty, trim, strip_prefix, split_whitespace, split_once}
use mathlib.Core.Option

pub record ParsedCommand : Type 0 where
  pub command : String
  pub args : List String

-- The words behind the prefix: the first is the command, `help` if there is none.
abbrev pub of_words : List String → ParsedCommand
of_words [] = record { command = "help"; args = [] }
of_words (command ∷ args) = record { command = command; args = args }

-- `remainder` is the trimmed text behind the prefix.
abbrev pub of_remainder : String → ParsedCommand
of_remainder remainder =
    if is_empty remainder
    then record { command = "help"; args = [] }
    else of_words (split_whitespace remainder)

unfoldable pub parse_prefixed_command : String → String → Option ParsedCommand
parse_prefixed_command prefix message =
    Option.map (λ rest. of_remainder (trim rest)) (strip_prefix prefix (trim message))

-- The guild, and the channel if the first argument names both.
abbrev pub guild_of : String → Option (String × String) → String × Option String
guild_of first_arg (some (guild, channel)) = (guild, some channel)
guild_of first_arg none = (first_arg, none)

abbrev pub split_guild : String → String × Option String
split_guild first_arg = guild_of first_arg (split_once "/" first_arg)

-- An explicit second argument goes before the part behind the slash.
abbrev pub choose_channel : List String → Option String → Option String
choose_channel (_ ∷ explicit ∷ _) remainder = some explicit
choose_channel _ remainder = remainder

abbrev pub check_nonempty : String → String → Option (String × String)
check_nonempty guild_id channel_id =
    if is_empty guild_id || is_empty channel_id then none else some (guild_id, channel_id)

unfoldable pub parse_guild_and_channel : List String → Option (String × String)
parse_guild_and_channel args = do
  first_arg ← first args
  channel_id ← choose_channel args (split_guild first_arg).1
  check_nonempty (split_guild first_arg).0 channel_id
