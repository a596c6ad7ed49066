-- ===== src/MatrixCommand/Permission.antt =====
-- What must hold before a room is bridged or unbridged.
use matrix_bridge_discord.Prelude.{
  List, String, Bool, true, false, not, Option, none, some, ◌≡◌, ◌≢◌, refl, arith, Result, ok,
  Option-cases, inl, inr, if◌then◌else◌,
}
use matrix_bridge_discord.Command.{ParsedCommand, parse_prefixed_command, parse_guild_and_channel}
use matrix_bridge_discord.Command.Guild.{parse_guild_and_channel-Names}
use matrix_bridge_discord.MatrixCommand.{
  MatrixCommandPermission, MatrixCommandOutcome, ignored, reply, bridge_requested,
  unbridge_requested, MatrixCommandHandler, permission_of, bridge_of, unless_refused,
  ensure_permission, dispatch, handle,
}

named :
    (args : List String) (g c : String)
    → parse_guild_and_channel args ≡ some (g, c)
    → (g ≢ "") × (c ≢ "")
named args g c e = let found = parse_guild_and_channel-Names args g c e in (found.0, found.1)

module _ (h : MatrixCommandHandler)
    (permission_check : MatrixCommandPermission → Result String Bool) where
  -- Self-service is on, and the caller's check grants the handler's permission.
  abbrev pub Permits : Type 0
  Permits = (h.self_service_enabled ≡ true) × (permission_check (permission_of h) ≡ ok true)

  ensure_permission-Permits : ensure_permission h permission_check ≡ none → Permits
  unfolding ensure_permission
  ensure_permission-Permits e = ground arith

  -- What an outcome rests on.
  abbrev pub Fits : Bool → MatrixCommandOutcome → Type 0
  Fits bridged ignored = Unit
  Fits bridged (reply _) = Unit
  Fits bridged (bridge_requested g c) = Permits × (bridged ≡ false) × (g ≢ "") × (c ≢ "")
  Fits bridged unbridge_requested = Permits × (bridged ≡ true)

  bridge_of-Fits :
      (found : Option (String × String)) (bridged : Bool)
      → Permits
      → bridged ≡ false
      → ((g c : String) → found ≡ some (g, c) → (g ≢ "") × (c ≢ ""))
      → Fits bridged (bridge_of found)
  bridge_of-Fits none bridged p b h' = tt
  bridge_of-Fits (some (g, c)) bridged p b h' = (p, b, (h' g c refl).0, (h' g c refl).1)

  bridge_arm-Fits :
      (refusal : Option String) (found : Option (String × String)) (bridged : Bool)
      → (refusal ≡ none → Permits)
      → ((g c : String) → found ≡ some (g, c) → (g ≢ "") × (c ≢ ""))
      → Fits bridged (
          unless_refused refusal (
            if bridged
            then reply "This room is already bridged to a Discord guild."
            else bridge_of found))
  bridge_arm-Fits (some text) found bridged p n = tt
  bridge_arm-Fits none found true p n = tt
  bridge_arm-Fits none found false p n = bridge_of-Fits found false (p refl) refl n

  unbridge_arm-Fits :
      (refusal : Option String) (bridged : Bool)
      → (refusal ≡ none → Permits)
      → Fits bridged (
          unless_refused refusal
            (if not bridged then reply "This room is not bridged." else unbridge_requested))
  unbridge_arm-Fits (some text) bridged p = tt
  unbridge_arm-Fits none true p = (p refl, refl)
  unbridge_arm-Fits none false p = tt

  dispatch-Fits :
      (parsed : ParsedCommand) (bridged : Bool)
      → Fits bridged (dispatch h permission_check parsed bridged)
  unfolding dispatch
  dispatch-Fits parsed bridged = ground (
    arith,
    bridge_arm-Fits (ensure_permission h permission_check) (parse_guild_and_channel parsed.args)
        bridged ensure_permission-Permits (named parsed.args),
    unbridge_arm-Fits (ensure_permission h permission_check) bridged ensure_permission-Permits,
  )

  -- A room is bridged or unbridged only if self-service is on and the check grants the level; to
  -- bridge, the room is not bridged and guild and channel are named; to unbridge, it is bridged.
  pub handle-Permits :
      (message : String) (bridged : Bool) → Fits bridged (handle h permission_check message bridged)
  unfolding handle
  handle-Permits message bridged = elim (Option-cases (parse_prefixed_command h.prefix message)) [
    | inl e ↦ rw e tt
    | inr (parsed, e) ↦ rw e (dispatch-Fits parsed bridged)
  ]
