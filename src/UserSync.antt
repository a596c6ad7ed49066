-- ===== src/UserSync.antt =====
-- src/bridge/user_sync.rs: what an update of a user asks for, and how it is applied.
pub mod Application
mod Tests
use Prim.Native.String
use Prim.Native.String.{[], ◌∷◌}
use mathlib.Core.Option
use matrix_bridge_discord.Prelude.{
  ℕ, List, String, Char, code, Bool, true, false, not, Option, none, some, if◌then◌else◌, Result,
  ok, err, ◌==◌, ◌&&◌, ◌||◌, any, is_some, is_nil, leb, unwrap_or,
}
use matrix_bridge_discord.Prelude as Lists
use matrix_bridge_discord.Text.{char_eq}
use matrix_bridge_discord.BridgeLogic.{RoomMapping}
use matrix_bridge_discord.Formatting.{apply_pattern_string}
use matrix_bridge_discord.MatrixContent.{ghost_user_id}
use matrix_bridge_discord.Rooms.Store.{RoomStore, i64_max}
use matrix_bridge_discord.Rooms.Tasks.{
  Call, ensure_ghost_user_registered, set_ghost_displayname, set_ghost_avatar,
  set_ghost_room_displayname, set_ghost_room_avatar, set_ghost_room_roles, invite_user_to_room,
  kick_user_from_room, download, upload_media, Outside, MediaInfo, World, Task, give, ◌>>=◌, ◌>>◌,
  query, execute, attempt, perform, clock,
}
use matrix_bridge_discord.Users.Store.{UserMapping, UserStore}
use matrix_bridge_discord.Users.{tolerate, tolerate_each}

pub record UserState : Type 0 where
  pub id : String
  pub mx_user_id : String
  pub create_user : Bool
  pub displayname : Option String
  pub avatar_url : Option String
  pub remove_avatar : Bool
  pub roles : List String

abbrev pub is_allowed : Char → Bool
is_allowed c =
    (leb 97 (code c) && leb (code c) 122)
    || (leb 65 (code c) && leb (code c) 90)
    || (leb 48 (code c) && leb (code c) 57)
    || char_eq c "_"
    || char_eq c "-"
    || char_eq c "."
    || char_eq c "="
    || char_eq c "/"
    || char_eq c "+"

unfoldable pub sanitize_for_mxid : String → String
sanitize_for_mxid [] = []
sanitize_for_mxid (c ∷ s) = (if is_allowed c then c else "_") ∷ sanitize_for_mxid s

-- `if new != old { new } else { None }`
abbrev pub if_new : Option String → Option String → Option String
if_new none old = none
if_new (some new) none = some new
if_new (some new) (some old) = if new == old then none else some new

abbrev pub mxid_extra : Option String → Bool → String
mxid_extra username false = ""
mxid_extra username true = String.◌++◌ "_" (sanitize_for_mxid (unwrap_or username "unknown"))

abbrev pub initial_state : String → Option String → Option String → String → UserState
initial_state id displayname avatar domain = record {
  id = id;
  mx_user_id = ghost_user_id id domain;
  create_user = true;
  displayname = displayname;
  avatar_url = avatar;
  remove_avatar = false;
  roles = Lists.[];
}

abbrev pub changed_state : String → Option String → Option String → UserMapping → UserState
changed_state id displayname avatar existing = record {
  id = id;
  mx_user_id = existing.matrix_user_id;
  create_user = false;
  displayname = if_new displayname (some existing.discord_username);
  avatar_url = if_new avatar existing.discord_avatar;
  remove_avatar = not (is_some avatar) && is_some existing.discord_avatar;
  roles = Lists.[];
}

-- `order` is that in which a `HashMap` gives the rooms, guild by guild.
module _ {S : Type 0} (rooms : RoomStore S) (users : UserStore S) (outside : Outside S)
    (username_pattern domain : String) (order : List RoomMapping → List RoomMapping) where
  abbrev pub displayname_of : String → Option String → Option String
  displayname_of user username =
      Option.map
        (λ name. apply_pattern_string username_pattern (
          Lists.◌∷◌ ("id", user)
            (Lists.◌∷◌ ("tag", "0000") (Lists.◌∷◌ ("username", name) Lists.[]))))
        username

  abbrev pub state_of : String → Option String → Option String → Option UserMapping → UserState
  state_of id displayname avatar none = initial_state id displayname avatar domain
  state_of id displayname avatar (some existing) = changed_state id displayname avatar existing

  unfoldable pub get_user_update_state :
      String → Option String → Option String → Bool → Task S UserState
  get_user_update_state user username avatar is_webhook = do
    existing ←
        query
          (λ s. users.get_user_by_discord_id s (String.◌++◌ user (mxid_extra username is_webhook)))
    give (
        state_of (String.◌++◌ user (mxid_extra username is_webhook)) (displayname_of user username)
          avatar existing)

  abbrev pub user_mapping : UserState → ℕ → UserMapping
  user_mapping state now = record {
    id = 0;
    matrix_user_id = state.mx_user_id;
    discord_user_id = state.id;
    discord_username = unwrap_or state.displayname "";
    discord_discriminator = "0000";
    discord_avatar = state.avatar_url;
    created_at = now;
    updated_at = now;
  }

  abbrev pub save : UserState → Task S (Unit {0})
  save state = do
    now ← clock
    execute (λ s.
        if state.create_user
        then users.create_user_mapping s (user_mapping state now)
        else users.update_user_mapping s (user_mapping state now))

  abbrev pub when_some : Option String → (String → Call) → Task S (Unit {0})
  when_some none call_of = give tt
  when_some (some text) call_of = tolerate rooms users outside (call_of text)

  abbrev pub set_uploaded : String → Result String String → Task S (Unit {0})
  set_uploaded id (err e) = give tt
  set_uploaded id (ok mxc_url) = tolerate rooms users outside (set_ghost_avatar id mxc_url)

  abbrev pub upload_avatar : String → Result String MediaInfo → Task S (Unit {0})
  upload_avatar id (err e) = give tt
  upload_avatar id (ok media) = do
    uploaded ← attempt (upload_media media) (λ log. outside.uploaded log media)
    set_uploaded id uploaded

  abbrev pub set_avatar : String → Option String → Task S (Unit {0})
  set_avatar id none = give tt
  set_avatar id (some avatar_url) = do
    media ← attempt (download avatar_url) (λ log. outside.media log avatar_url)
    upload_avatar id media

  abbrev pub clear_avatar : String → Bool → Task S (Unit {0})
  clear_avatar id false = give tt
  clear_avatar id true = tolerate rooms users outside (set_ghost_avatar id "")

  abbrev pub show_profile : UserState → Task S (Unit {0})
  show_profile state = do
    perform outside.done (ensure_ghost_user_registered state.id state.displayname)
    when_some state.displayname (set_ghost_displayname state.id)
    set_avatar state.id state.avatar_url
    clear_avatar state.id state.remove_avatar

  unfoldable pub apply_state_to_profile : UserState → Task S (Unit {0})
  apply_state_to_profile state = do save state; show_profile state

  -- A failure ends the room, and is logged.
  abbrev pub perform_some : Option String → (String → Call) → Task S (Unit {0})
  perform_some none call_of = give tt
  perform_some (some text) call_of = perform outside.done (call_of text)

  abbrev pub apply_state_to_room : UserState → String → Task S (Unit {0})
  apply_state_to_room state room = do
    perform_some state.displayname (set_ghost_room_displayname state.id room)
    perform_some state.avatar_url (set_ghost_room_avatar state.id room)
    if is_nil state.roles
        then give tt
        else perform outside.done (set_ghost_room_roles state.id room state.roles)

  abbrev pub apply_to_each : UserState → List RoomMapping → Task S (Unit {0})
  apply_to_each state Lists.[] w = (ok tt, w)
  apply_to_each state (Lists.◌∷◌ m l) w =
      apply_to_each state l (apply_state_to_room state m.matrix_room_id w).1

  unfoldable pub update_state_for_guilds : UserState → Task S (Unit {0})
  update_state_for_guilds state = do
    mappings ← query (λ s. rooms.list_room_mappings s i64_max 0)
    apply_to_each state (order mappings)

  unfoldable pub on_user_update : String → Option String → Option String → Bool → Task S (Unit {0})
  on_user_update user username avatar is_webhook = do
    state ← get_user_update_state user username avatar is_webhook
    apply_state_to_profile state
    if is_some state.displayname || is_some state.avatar_url
        then update_state_for_guilds state
        else give tt

  unfoldable pub ensure_user_in_room : String → String → Task S (Unit {0})
  ensure_user_in_room user room = do
    perform outside.done (ensure_ghost_user_registered user none)
    perform outside.done (invite_user_to_room room (ghost_user_id user domain))

  unfoldable pub remove_user_from_room : String → String → Task S (Unit {0})
  remove_user_from_room user room =
      perform outside.done (kick_user_from_room room (ghost_user_id user domain) none)

  unfoldable pub sync_user_roles : String → String → List String → Task S (Unit {0})
  sync_user_roles user guild_id roles = do
    mappings ← query (λ s. rooms.get_rooms_by_guild s guild_id)
    tolerate_each rooms users outside (λ room. set_ghost_room_roles user room roles) mappings
