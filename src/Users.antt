-- ===== src/Users.antt =====
-- src/bridge.rs: what changes of users and members on Discord do. The store of users is an interface.
pub mod Store
pub mod Updates
pub mod Tests
use Prim.Native.String
use matrix_bridge_discord.Prelude.{
  ℕ, List, [], ◌∷◌, String, Bool, true, false, Option, none, some, if◌then◌else◌, Result, ok, err,
  ◌==◌, retain, is_nil, is_some,
}
use matrix_bridge_discord.BridgeLogic.{RoomMapping}
use matrix_bridge_discord.MatrixContent.{ghost_user_id}
use matrix_bridge_discord.Rooms.Store.{RoomStore, i64_max}
use matrix_bridge_discord.Rooms.Tasks.{
  Call, ensure_ghost_user_registered, invite_user_to_room, kick_user_from_room,
  set_ghost_room_roles, Outside, World, Task, give, ◌>>=◌, ◌>>◌, query, execute, attempt, perform,
  clock,
}
use matrix_bridge_discord.Users.Store.{UserMapping, UserStore}

module _ {S : Type 0} (rooms : RoomStore S) (users : UserStore S) (outside : Outside S) where
  -- A call whose failure is only logged.
  abbrev pub tolerate : Call → Task S (Unit {0})
  tolerate c = do answer ← attempt c (λ log. outside.done log c); give tt

  abbrev pub tolerate_each : (String → Call) → List RoomMapping → Task S (Unit {0})
  tolerate_each call_of [] = give tt
  tolerate_each call_of (m ∷ l) = do tolerate (call_of m.matrix_room_id); tolerate_each call_of l

  abbrev pub rename_user : String → Option String → Option UserMapping → Task S (Unit {0})
  rename_user username avatar none = give tt
  rename_user username avatar (some u) = do
    now ← clock
    execute (λ s.
        users.update_user_mapping s
          (record u { discord_username = username; discord_avatar = avatar; updated_at = now }))

  unfoldable pub handle_discord_user_update : String → String → Option String → Task S (Unit {0})
  handle_discord_user_update discord_user_id username avatar = do
    mapping ← query (λ s. users.get_user_by_discord_id s discord_user_id)
    rename_user username avatar mapping

  abbrev pub or_before : Option String → Option String → Option String
  or_before none before = before
  or_before (some avatar) before = some avatar

  abbrev pub update_member :
      String → String → Option String → List String → Option UserMapping → Task S (Unit {0})
  update_member guild_id user avatar roles none = give tt
  update_member guild_id user avatar roles (some u) = do
    now ← clock
    execute (λ s.
        users.update_user_mapping s
          (record u { discord_avatar = or_before avatar u.discord_avatar; updated_at = now }))
    guild_rooms ← query (λ s. rooms.get_rooms_by_guild s guild_id)
    tolerate_each (λ room. set_ghost_room_roles user room roles) guild_rooms

  unfoldable pub handle_discord_guild_member_update :
      String → String → Option String → List String → Task S (Unit {0})
  handle_discord_guild_member_update guild_id user avatar roles = do
    mapping ← query (λ s. users.get_user_by_discord_id s user)
    update_member guild_id user avatar roles mapping

  module _ (disable_join_leave_notifications : Bool) (domain : String) where
    abbrev pub unless_disabled : Call → Task S (Unit {0})
    unless_disabled c = if disable_join_leave_notifications then give tt else tolerate c

    abbrev pub add_to_rooms : String → List String → List RoomMapping → Task S (Unit {0})
    add_to_rooms user roles [] = give tt
    add_to_rooms user roles (m ∷ l) = do
      unless_disabled (invite_user_to_room m.matrix_room_id (ghost_user_id user domain))
      tolerate (set_ghost_room_roles user m.matrix_room_id roles)
      add_to_rooms user roles l

    abbrev pub add_member : String → String → List String → List RoomMapping → Task S (Unit {0})
    add_member user display_name roles guild_rooms = if is_nil guild_rooms then give tt else do
      perform outside.done (ensure_ghost_user_registered user (some display_name))
      add_to_rooms user roles guild_rooms

    abbrev pub of_guild : String → List RoomMapping → List RoomMapping
    of_guild guild_id l = retain (λ m. m.discord_guild_id == guild_id) l

    unfoldable pub handle_discord_guild_member_add :
        String → String → String → List String → Task S (Unit {0})
    handle_discord_guild_member_add guild_id user display_name roles = do
      mappings ← query (λ s. rooms.list_room_mappings s i64_max 0)
      add_member user display_name roles (of_guild guild_id mappings)

    abbrev pub remove_from_rooms : String → List RoomMapping → Task S (Unit {0})
    remove_from_rooms user [] = give tt
    remove_from_rooms user (m ∷ l) = do
      unless_disabled (
          kick_user_from_room m.matrix_room_id (ghost_user_id user domain)
            (some "Left Discord server"))
      remove_from_rooms user l

    unfoldable pub handle_discord_guild_member_remove : String → String → Task S (Unit {0})
    handle_discord_guild_member_remove guild_id user = do
      mappings ← query (λ s. rooms.list_room_mappings s i64_max 0)
      remove_from_rooms user (of_guild guild_id mappings)
