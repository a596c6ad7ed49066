-- ===== src/MatrixCommand/Requests.antt =====
-- When a message is ignored, and when bridging is requested.
use text.Mathlib.TextLemmas.{cons-ne-nil}
use matrix_bridge_discord.Prelude.{
  List, [], ◌∷◌, String, Bool, true, false, Option, none, some, ◌≡◌, ◌↔◌, refl, sym, ap, ◌∙◌, subst,
  arith, Result, ok, ℤ, is_some, Option-cases, inl, inr,
}
use matrix_bridge_discord.Text.{join, IsWord, NoSpace, is_whitespace}
use matrix_bridge_discord.Command.{ParsedCommand, parse_prefixed_command, parse_guild_and_channel}
use matrix_bridge_discord.Command.Laws.{is_some-parse_prefixed_command, parse_prefixed_command-join}
use matrix_bridge_discord.Command.Guild.{Lacks, parse_guild_and_channel_two}
use matrix_bridge_discord.MatrixCommand.{
  MatrixCommandPermission, MatrixCommandOutcome, ignored, reply, bridge_requested,
  unbridge_requested, MatrixCommandHandler, new, permission_of, bridge_of, ensure_permission,
  dispatch, handle, is_command,
}

abbrev Answered : MatrixCommandOutcome → Type 0
Answered ignored = ⊥
Answered (reply _) = Unit
Answered (bridge_requested _ _) = Unit
Answered unbridge_requested = Unit

bridge_of-Answered : (found : Option (String × String)) → Answered (bridge_of found)
bridge_of-Answered none = tt
bridge_of-Answered (some (g, c)) = tt

module _ (h : MatrixCommandHandler)
    (permission_check : MatrixCommandPermission → Result String Bool) where
  dispatch-Answered :
      (parsed : ParsedCommand) (bridged : Bool)
      → Answered (dispatch h permission_check parsed bridged)
  unfolding dispatch
  dispatch-Answered parsed bridged =
      ground (arith, bridge_of-Answered (parse_guild_and_channel parsed.args))

  -- If the prefix has no white space, a message is ignored exactly when `is_command` fails on it.
  pub handle-eq-ignored_iff :
      (message : String) (bridged : Bool)
      → NoSpace h.prefix
      → (handle h permission_check message bridged ≡ ignored) ↔ (is_command h message ≡ false)
  unfolding handle is_command
  handle-eq-ignored_iff message bridged spaceless =
      let test = is_some-parse_prefixed_command h.prefix message spaceless in
      elim (Option-cases (parse_prefixed_command h.prefix message)) [
        | inl e ↦ (λ _. sym test ∙ ap is_some e, λ _. rw e)
        | inr (parsed, e) ↦ (
          λ k. absurd (subst Answered (rw e at k) (dispatch-Answered parsed bridged)),
          λ k. cc (sym (ap is_some e) ∙ test ∙ k),
        )
      ]

bridge-IsWord : IsWord "bridge"
unfolding is_whitespace
bridge-IsWord = ((refl, (refl, (refl, (refl, (refl, (refl, tt)))))), cons-ne-nil _ _)

pub prefix-IsWord : IsWord "!discord"
unfolding is_whitespace
prefix-IsWord =
    ((refl, (refl, (refl, (refl, (refl, (refl, (refl, (refl, tt)))))))), cons-ne-nil _ _)

dispatch_bridge :
    (level : Option ℤ) (permission_check : MatrixCommandPermission → Result String Bool)
    (args : List String)
    → permission_check (permission_of (new true level)) ≡ ok true
    → dispatch (new true level) permission_check (record { command = "bridge"; args = args }) false
      ≡ bridge_of (parse_guild_and_channel args)
unfolding dispatch ensure_permission
dispatch_bridge level permission_check args granted = rw granted

-- With self-service on and the permission granted, `!discord bridge <guild> <channel>` in a room
-- that is not bridged requests that guild and channel, if the guild holds no slash.
pub handle_bridge_command :
    (level : Option ℤ) (permission_check : MatrixCommandPermission → Result String Bool)
    (g c : String)
    → permission_check (permission_of (new true level)) ≡ ok true
    → IsWord g
    → IsWord c
    → Lacks "/" g
    → handle (new true level) permission_check (join ("!discord" ∷ "bridge" ∷ g ∷ c ∷ []) " ") false
      ≡ bridge_requested g c
unfolding handle
handle_bridge_command level permission_check g c granted hg hc slashless = rw (
  parse_prefixed_command-join "!discord" "bridge" (g ∷ c ∷ []) prefix-IsWord bridge-IsWord
      (hg, (hc, tt)),
  dispatch_bridge level permission_check (g ∷ c ∷ []) granted,
  parse_guild_and_channel_two g c [] slashless hg.1 hc.1,
)
