-- ===== src/Command/Tests.antt =====
-- The parser of commands, run.
use matrix_bridge_discord.Prelude.{[], ◌∷◌, some, ◌≡◌, refl}
use text.Mathlib.TextLemmas.{cons-ne-nil}
use matrix_bridge_discord.Text.{join, IsWord, is_whitespace, split_once}
use matrix_bridge_discord.Command.{parse_prefixed_command, parse_guild_and_channel}
use matrix_bridge_discord.Command.Laws.{parse_prefixed_command-join}

a-IsWord : IsWord "!a"
unfolding is_whitespace
a-IsWord = ((refl, (refl, tt)), cons-ne-nil _ _)

b-IsWord : IsWord "b"
unfolding is_whitespace
b-IsWord = ((refl, tt), cons-ne-nil _ _)

parse_prefixed_command-join_example :
    parse_prefixed_command "!a" (join ("!a" ∷ "b" ∷ "b" ∷ []) " ")
    ≡ some (record { command = "b"; args = "b" ∷ [] })
parse_prefixed_command-join_example =
    parse_prefixed_command-join "!a" "b" ("b" ∷ []) a-IsWord b-IsWord (b-IsWord, tt)

slash_read : parse_guild_and_channel ("12/34" ∷ []) ≡ some ("12", "34")
unfolding parse_guild_and_channel split_once
slash_read = refl
