-- ===== src/Rooms/Handlers.antt =====
-- src/bridge.rs: what other events do to the mappings of rooms. A room that turns on encryption is
-- left, a channel's new name and topic are passed on, and a guild's rooms go when it does.
pub mod Unique
pub mod Guilds
use Prim.Native.String
use matrix_bridge_discord.Prelude.{
  ℕ, List, [], ◌∷◌, String, Bool, true, false, not, Option, none, some, if◌then◌else◌, Result, ok,
  err, ℤ, ◌==◌, retain, map,
}
use matrix_bridge_discord.HashMap.{string_eq}
use matrix_bridge_discord.BridgeLogic.{RoomMapping}
use matrix_bridge_discord.Rooms.Store.{RoomStore, i64_max}
use matrix_bridge_discord.Rooms.Tasks.{
  send_notice, leave_room, get_room_text, set_room_text, Outside, World, Task, give, ◌>>=◌, ◌>>◌,
  query, execute, call, perform, clock, cache_remove,
}
use matrix_bridge_discord.Rooms.{
  Options, get_room_mapping_cached, channel_name, handle_discord_channel_delete,
}

abbrev pub differs : Option String → String → Bool
differs none text = true
differs (some current) text = not (current == text)

module _ {S : Type 0} (store : RoomStore S) (to_string : ℤ → String) (outside : Outside S)
    (options : Options) where
  abbrev pub leave_encrypted : String → Option RoomMapping → Task S (Unit {0})
  leave_encrypted room none = give tt
  leave_encrypted room (some m) = do
    perform outside.done (
        send_notice room
          "You have turned on encryption in this room, so the service will not bridge any new messages.")
    perform outside.done (leave_room room)
    execute (λ s. store.delete_room_mapping s m.id)
    cache_remove room

  unfoldable pub handle_matrix_encryption : String → Task S (Unit {0})
  handle_matrix_encryption room = do
    mapping ← get_room_mapping_cached store to_string outside options room
    leave_encrypted room mapping

  abbrev pub store_name : RoomMapping → String → Task S (Unit {0})
  store_name m new_name = do
    now ← clock
    execute (λ s.
        store.update_room_mapping s
          (record m { discord_channel_name = new_name; updated_at = now }))

  abbrev pub rename : RoomMapping → String → String → Bool → Task S (Unit {0})
  rename m new_name formatted_name false = give tt
  rename m new_name formatted_name true = do
    perform outside.done (set_room_text m.matrix_room_id "m.room.name" formatted_name)
    store_name m new_name

  abbrev pub set_topic : RoomMapping → String → Bool → Task S (Unit {0})
  set_topic m topic false = give tt
  set_topic m topic true =
      perform outside.done (set_room_text m.matrix_room_id "m.room.topic" topic)

  abbrev pub update_topic : RoomMapping → Option String → Task S (Unit {0})
  update_topic m none = give tt
  update_topic m (some topic) = do
    current ←
        call (get_room_text m.matrix_room_id "m.room.topic")
          (λ log. outside.room_text log m.matrix_room_id "m.room.topic")
    set_topic m topic (differs current topic)

  abbrev pub update_channel : String → Option String → Option RoomMapping → Task S (Unit {0})
  update_channel new_name new_topic none = give tt
  update_channel new_name new_topic (some m) = do
    current ←
        call (get_room_text m.matrix_room_id "m.room.name")
          (λ log. outside.room_text log m.matrix_room_id "m.room.name")
    rename m new_name (channel_name store to_string outside options m.discord_guild_id new_name)
        (differs current (channel_name store to_string outside options m.discord_guild_id new_name))
    update_topic m new_topic

  unfoldable pub handle_discord_channel_update : String → String → Option String → Task S (Unit {0})
  handle_discord_channel_update channel_id new_name new_topic = do
    mapping ← query (λ s. store.get_room_by_discord_channel s channel_id)
    update_channel new_name new_topic mapping

  -- An error of one channel is only logged.
  abbrev pub delete_each : List String → Task S (Unit {0})
  delete_each [] w = (ok tt, w)
  delete_each (channel ∷ channels) w =
      delete_each channels
        (handle_discord_channel_delete store to_string outside options channel w).1

  abbrev pub channels_of : String → List RoomMapping → List String
  channels_of guild l =
      map (λ m. m.discord_channel_id) (retain (λ m. m.discord_guild_id == guild) l)

  unfoldable pub handle_discord_guild_delete : String → Task S (Unit {0})
  handle_discord_guild_delete guild_id = do
    mappings ← query (λ s. store.list_room_mappings s i64_max 0)
    delete_each (channels_of guild_id mappings)
