-- ===== src/FromMatrix/Profile.antt =====
-- How a Matrix user is shown on Discord: `get_user_profile`'s answer and the avatar's address.
use Prim.Native.String
use Prim.Native.String.{[], ◌∷◌}
use mathlib.Core.Option
use matrix_bridge_discord.Prelude.{
  ℕ, suc, String, Char, Bool, Option, none, some, if◌then◌else◌, Result, ok, err, ◌&&◌,
}
use matrix_bridge_discord.Text.{char_eq, is_empty, starts_with, strip_prefix}

-- matrix.rs
unfoldable pub is_namespaced_user : String → Bool
is_namespaced_user user_id = starts_with user_id "@_discord_"

abbrev pub size : String → ℕ
size [] = 0
size (c ∷ s) = suc (size s)

abbrev pub trim_end_matches : String → Char → String
trim_end_matches [] d = []
trim_end_matches (c ∷ s) d =
    let rest = trim_end_matches s d in if char_eq c d && is_empty rest then [] else c ∷ rest

-- The prefix is taken away at most so many times.
abbrev pub strip_times : ℕ → String → String → String
strip_times ℕ.zero s p = s
strip_times (ℕ.suc n) s p = elim (strip_prefix p s) [ none ↦ s | some rest ↦ strip_times n rest p ]

unfoldable pub trim_start_matches : String → String → String
trim_start_matches s p = strip_times (size s) s p

unfoldable pub avatar_for_discord : String → String → String
avatar_for_discord homeserver_url url =
    if starts_with url "mxc://"
    then String.◌++◌ (trim_end_matches homeserver_url "/")
        (String.◌++◌ "/_matrix/media/r0/download/" (trim_start_matches url "mxc://"))
    else url

pub record Shown : Type 0 where
  pub username : String
  pub avatar : Option String

-- `.unwrap_or(None).unwrap_or_else(|| (matrix_sender.to_string(), None))`
abbrev pub shown_as : String → String → Result String (Option (String × Option String)) → Shown
shown_as homeserver_url sender (err e) = record { username = sender; avatar = none }
shown_as homeserver_url sender (ok none) = record { username = sender; avatar = none }
shown_as homeserver_url sender (ok (some (name, avatar_url))) = record {
  username = name;
  avatar = Option.map (avatar_for_discord homeserver_url) avatar_url;
}
