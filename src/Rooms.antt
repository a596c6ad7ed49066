-- ===== src/Rooms.antt =====
-- src/bridge.rs: rooms are bridged and unbridged. The store of mappings (db/stores/mod.rs) is an
-- interface with laws; Discord and the homeserver answer as they like, also by what was asked before.
pub mod Store
pub mod Tasks
pub mod Limit
pub mod Raced
pub mod Removal
pub mod Unbridging
pub mod Handlers
pub mod Tests
use Prim.Native.String
use matrix_bridge_discord.Prelude.{
  ℕ, List, [], ◌∷◌, ◌++◌, String, Bool, true, false, not, Option, none, some, if◌then◌else◌, Result,
  ok, err, ℤ, is_negative, count_ge, is_some,
}
use matrix_bridge_discord.HashMap.{string_eq}
use matrix_bridge_discord.TimedCache
use matrix_bridge_discord.TimedCache.{TimedCache}
use matrix_bridge_discord.BridgeLogic.{RoomMapping}
use matrix_bridge_discord.Provisioning.{
  ProvisioningError, timed_out, declined, delivery_failed, cancelled,
}
use matrix_bridge_discord.Formatting.{apply_pattern_string}
use matrix_bridge_discord.Rooms.Store.{RoomStore}
use matrix_bridge_discord.Rooms.Tasks.{
  Call, get_channel, send_notice, get_room_state_event, send_state_event, delete_room_alias,
  create_room, send_message, ask_bridge_permission, leave_room, Outside, DiscordChannel, World,
  Task, give, ◌>>=◌, ◌>>◌, query, execute, call, ask, clock, cache_insert, cache_remove, cache_get,
  meanwhile,
}

pub record DeleteOptions : Type 0 where
  pub name_prefix : Option String
  pub topic_prefix : Option String
  pub unset_room_alias : Bool

-- The options of the configuration that the operations read.
pub record Options : Type 0 where
  pub room_count : ℤ
  pub name_pattern : String
  pub delete_options : DeleteOptions
  pub room_alias_prefix : String
  pub domain : String

-- `to_string` writes a number in decimal.
module _ {S : Type 0} (store : RoomStore S) (to_string : ℤ → String) (outside : Outside S)
    (options : Options) where
  abbrev pub remember : Option RoomMapping → String → Task S (Option RoomMapping)
  remember none room = give none
  remember (some m) room = do cache_insert room m; give (some m)

  abbrev pub cached_or : String → Option RoomMapping → Task S (Option RoomMapping)
  cached_or room (some m) = give (some m)
  cached_or room none = do
    mapping ← query (λ s. store.get_room_by_matrix_room s room)
    remember mapping room

  unfoldable pub get_room_mapping_cached : String → Task S (Option RoomMapping)
  get_room_mapping_cached room = do cached ← cache_get room; cached_or room cached

  abbrev pub limit_message : String
  limit_message = String.◌++◌ "This bridge has reached its room limit of " (
      String.◌++◌ (to_string options.room_count)
        ". Unbridge another room to allow for new connections.")

  unfoldable pub check_room_limit : Task S (Option String)
  check_room_limit = if is_negative options.room_count then give none else do
    current_count ← query store.count_rooms
    give (if count_ge current_count options.room_count then some limit_message else none)

  -- An answer is given at once, or the task goes on.
  abbrev pub unless_answered : Option String → Task S String → Task S String
  unless_answered (some text) rest = give text
  unless_answered none rest = rest

  abbrev pub with_channel :
      String → Option DiscordChannel → (DiscordChannel → Task S String) → Task S String
  with_channel missing none k = give missing
  with_channel missing (some channel) k = k channel

  abbrev pub mapping_of : String → String → DiscordChannel → ℕ → RoomMapping
  mapping_of room guild_id channel now = record {
    id = 0;
    matrix_room_id = room;
    discord_channel_id = channel.id;
    discord_channel_name = channel.name;
    discord_guild_id = guild_id;
    created_at = now;
    updated_at = now;
  }

  abbrev pub channel_name : String → String → String
  channel_name guild name =
      apply_pattern_string options.name_pattern
        (("guild", guild) ∷ ("name", String.◌++◌ "#" name) ∷ [])

  abbrev pub save_channel : String → String → DiscordChannel → Task S String
  save_channel room guild_id channel = do
    now ← clock
    execute (λ s. store.create_room_mapping s (mapping_of room guild_id channel now))
    ask (send_state_event room "m.room.name" (channel_name channel.guild_id channel.name))
        (λ _. tt {0})
    give "I have bridged this room to your channel"

  -- The two questions before a room is bridged: is there room, and is the channel free?
  abbrev pub refusal : String → Option RoomMapping → Option String
  refusal text none = none
  refusal text (some m) = some text

  -- The questions that three operations begin with: is the channel free, and does it exist?
  abbrev pub when_free : String → String → String → (DiscordChannel → Task S String) → Task S String
  when_free taken missing channel_id k = do
    mapped ← query (λ s. store.get_room_by_discord_channel s channel_id)
    unless_answered (refusal taken mapped) (do
      found ← call (get_channel channel_id) (λ log. outside.channel log channel_id)
      with_channel missing found k)

  -- Other tasks may act while the store is asked after the limit, and while the channel is looked up.
  abbrev pub when_room_and_free : String → (DiscordChannel → Task S String) → Task S String
  when_room_and_free channel_id k = do
    limited ← check_room_limit
    unless_answered limited (do
      meanwhile outside.others
      when_free "This Discord channel is already bridged."
          "There was a problem bridging that channel - channel was not found." channel_id
          (λ channel. do meanwhile outside.others; k channel))

  unfoldable pub bridge_matrix_room : String → String → String → Task S String
  bridge_matrix_room room guild_id channel_id =
      when_room_and_free channel_id (save_channel room guild_id)

  abbrev pub permitted :
      String → String → String → Result ProvisioningError (Unit {0}) → Task S String
  permitted room guild_id channel_id (ok _) = bridge_matrix_room room guild_id channel_id
  permitted room guild_id channel_id (err timed_out) =
      give "Timed out waiting for a response from the Discord owners."
  permitted room guild_id channel_id (err declined) =
      give "The bridge has been declined by the Discord guild."
  permitted room guild_id channel_id (err delivery_failed) =
      give
        "Failed to send approval request to Discord. Ensure the bot can send messages in that channel."
  permitted room guild_id channel_id (err cancelled) =
      give "There was a problem bridging that channel - has the guild owner approved the bridge?"

  abbrev pub ask_and_bridge : String → String → String → String → DiscordChannel → Task S String
  ask_and_bridge room requestor guild_id channel_id channel = do
    call
        (send_notice room
          "I'm asking permission from the guild administrators to make this bridge.")
        (λ log. outside.done log (
          send_notice room
            "I'm asking permission from the guild administrators to make this bridge."))
    answer ←
        ask (ask_bridge_permission channel.id requestor) (λ log. outside.permission log channel.id)
    meanwhile outside.others
    permitted room guild_id channel_id answer

  unfoldable pub request_bridge_matrix_room : String → String → String → String → Task S String
  request_bridge_matrix_room room requestor guild_id channel_id =
      when_room_and_free channel_id (ask_and_bridge room requestor guild_id channel_id)

  abbrev pub renamed_to : String → String → String → Option String → Task S (Unit {0})
  renamed_to room kind before none = give tt
  renamed_to room kind before (some text) =
      ask (send_state_event room kind (String.◌++◌ before text)) (λ _. tt {0})

  -- A prefix is set before the name or the topic, if one is configured and there is a text.
  abbrev pub prefixed : String → String → Option String → Task S (Unit {0})
  prefixed room kind none = give tt
  prefixed room kind (some before) = do
    text ← ask (get_room_state_event room kind) (λ log. outside.state_text log room kind)
    renamed_to room kind before text

  abbrev pub unset_alias : Bool → String → Task S (Unit {0})
  unset_alias false channel = give tt
  unset_alias true channel =
      ask
        (delete_room_alias (
          String.◌++◌ "#" (
            String.◌++◌ (String.◌++◌ options.room_alias_prefix channel)
              (String.◌++◌ ":" options.domain))))
        (λ _. tt {0})

  -- The row goes first, then the entry of the cache.
  abbrev pub forget_mapping : ℕ → String → Task S (Unit {0})
  forget_mapping id room = do execute (λ s. store.delete_room_mapping s id); cache_remove room

  abbrev pub unbridge_mapping : String → Option RoomMapping → Task S String
  unbridge_mapping room none = give "This room is not bridged."
  unbridge_mapping room (some m) = do
    prefixed room "m.room.name" options.delete_options.name_prefix
    prefixed room "m.room.topic" options.delete_options.topic_prefix
    unset_alias options.delete_options.unset_room_alias m.discord_channel_id
    forget_mapping m.id m.matrix_room_id
    give "This room has been unbridged"

  unfoldable pub unbridge_matrix_room : String → Task S String
  unbridge_matrix_room room = do
    mapping ← get_room_mapping_cached room
    unbridge_mapping room mapping

  abbrev pub delete_channel : Option RoomMapping → Task S (Unit {0})
  delete_channel none = give tt
  delete_channel (some m) = do
    prefixed m.matrix_room_id "m.room.name" options.delete_options.name_prefix
    prefixed m.matrix_room_id "m.room.topic" options.delete_options.topic_prefix
    forget_mapping m.id m.matrix_room_id

  unfoldable pub handle_discord_channel_delete : String → Task S (Unit {0})
  handle_discord_channel_delete channel_id = do
    mapping ← query (λ s. store.get_room_by_discord_channel s channel_id)
    delete_channel mapping

  -- The branch `UnbridgeRequested` of `handle_discord_command_outcome`.
  unfoldable pub unbridge_requested : String → Option RoomMapping → Task S (Unit {0})
  unbridge_requested channel none =
      call (send_message channel "This channel is not bridged to a plumbed matrix room") (λ log.
        outside.done log
          (send_message channel "This channel is not bridged to a plumbed matrix room"))
  unbridge_requested channel (some m) = do
    forget_mapping m.id m.matrix_room_id
    call (send_message channel "This channel has been unbridged")
        (λ log. outside.done log (send_message channel "This channel has been unbridged"))

  abbrev pub save_new_room : String → DiscordChannel → Result String String → Task S String
  save_new_room guild_id channel (err e) = give "Failed to create Matrix room for the bridge."
  save_new_room guild_id channel (ok room) = do
    now ← clock
    execute (λ s. store.create_room_mapping s (mapping_of room guild_id channel now))
    give (String.◌++◌ "Successfully bridged to Matrix room: " room)

  abbrev pub new_room : String → DiscordChannel → Task S String
  new_room guild_id channel = do
    created ←
        ask (create_room channel.id (String.◌++◌ "[Discord] #" channel.name) channel.topic)
          (λ log. outside.new_room log channel.id)
    save_new_room guild_id channel created

  unfoldable pub request_bridge_discord_channel : String → String → Task S String
  request_bridge_discord_channel guild_id channel_id =
      when_free "That Discord channel is already bridged."
        "Could not find the specified Discord channel." channel_id (new_room guild_id)
