-- ===== src/DiscordCommand/Tests.antt =====
-- Commands on Discord, run.
use matrix_bridge_discord.Prelude.{List, [], ◌∷◌, String, true, false, ◌≡◌, ◌↔◌, refl, All}
use mathlib.Core.List.{Mem}
use text.Mathlib.TextLemmas.{cons-ne-nil}
use matrix_bridge_discord.Text.{join, IsWord, is_whitespace}
use matrix_bridge_discord.DiscordCommand.{
  kick, ignored, moderation_requested, prefix, action_keyword, has_all_permissions, handle,
  is_command,
}
use matrix_bridge_discord.DiscordCommand.Authority.{needs, handle-needs-Mem}
use matrix_bridge_discord.DiscordCommand.Requests.{
  handle-eq-ignored_iff, Fits, handle-Fits, handle_moderation_command,
}

abbrev bridge_message : String
bridge_message = "!matrix bridge 12 34"

abbrev channel_rights : List String
channel_rights = "MANAGE_CHANNELS" ∷ "MANAGE_WEBHOOKS" ∷ []

handle-needs-Mem_example :
    All (λ perm. Mem perm channel_rights) (needs (handle bridge_message false channel_rights))
handle-needs-Mem_example = handle-needs-Mem bridge_message false channel_rights

handle-eq-ignored_iff_example :
    (handle bridge_message false [] ≡ ignored) ↔ (is_command bridge_message ≡ false)
handle-eq-ignored_iff_example = handle-eq-ignored_iff bridge_message false []

handle-Fits_example : Fits false (handle bridge_message false channel_rights)
handle-Fits_example = handle-Fits bridge_message false channel_rights

bob-IsWord : IsWord "bob"
unfolding is_whitespace
bob-IsWord = ((refl, (refl, (refl, tt))), cons-ne-nil _ _)

kick_right : has_all_permissions ("KICK_MEMBERS" ∷ []) ("KICK_MEMBERS" ∷ []) ≡ true
unfolding has_all_permissions
kick_right = refl

handle_moderation_command_example :
    handle (join (prefix ∷ action_keyword kick ∷ "bob" ∷ []) " ") true ("KICK_MEMBERS" ∷ [])
    ≡ moderation_requested kick (join ("bob" ∷ []) " ")
handle_moderation_command_example =
    handle_moderation_command kick "bob" [] ("KICK_MEMBERS" ∷ []) true bob-IsWord tt kick_right
