-- ===== src/MatrixCommand/Tests.antt =====
-- Commands on Matrix, run.
use matrix_bridge_discord.Prelude.{[], ◌∷◌, String, Bool, true, false, none, ◌≡◌, refl, Result, ok}
use text.Mathlib.TextLemmas.{cons-ne-nil}
use matrix_bridge_discord.Text.{join, IsWord, is_whitespace}
use matrix_bridge_discord.MatrixCommand.{
  MatrixCommandPermission, bridge_requested, MatrixCommandHandler, new, handle,
}
use matrix_bridge_discord.MatrixCommand.Permission.{Fits, handle-Permits}
use matrix_bridge_discord.MatrixCommand.Requests.{handle_bridge_command}

abbrev handler : MatrixCommandHandler
handler = new true none

abbrev granting : MatrixCommandPermission → Result String Bool
granting _ = ok true

handle-Permits_example :
    Fits handler granting true (handle handler granting "!discord unbridge" true)
handle-Permits_example = handle-Permits handler granting "!discord unbridge" true

twelve-IsWord : IsWord "12"
unfolding is_whitespace
twelve-IsWord = ((refl, (refl, tt)), cons-ne-nil _ _)

four-IsWord : IsWord "34"
unfolding is_whitespace
four-IsWord = ((refl, (refl, tt)), cons-ne-nil _ _)

handle_bridge_command_example :
    handle handler granting (join ("!discord" ∷ "bridge" ∷ "12" ∷ "34" ∷ []) " ") false
    ≡ bridge_requested "12" "34"
handle_bridge_command_example =
    handle_bridge_command none granting "12" "34" refl twelve-IsWord four-IsWord (refl, (refl, tt))
