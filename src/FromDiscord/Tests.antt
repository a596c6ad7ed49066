-- ===== src/FromDiscord/Tests.antt =====
-- A message from Discord, run with a store of a list of rooms and one of links.
use matrix_bridge_discord.Prelude.{
  List, [], ◌∷◌, String, Bool, true, false, Option, none, some, ◌≡◌, refl, ok, Result, ◌⊎◌,
}
use matrix_bridge_discord.DiscordCommand
use matrix_bridge_discord.Text.{starts_with, strip_prefix, trim_start, is_whitespace}
use matrix_bridge_discord.Provisioning.{ApprovalResponseStatus, expired}
use matrix_bridge_discord.BridgeLogic.{RoomMapping}
use matrix_bridge_discord.Rooms.Store.{RoomStore, StoreLaws}
use matrix_bridge_discord.Rooms.Tasks.{Outside, World, After}
use matrix_bridge_discord.Rooms.Tests.{list_store, list_store-StoreLaws, one_room, one}
use matrix_bridge_discord.Messages.Store.{MessageStore, LinkLaws}
use matrix_bridge_discord.Messages.Relay.{SameLinks}
use matrix_bridge_discord.Messages.Tests.{
  Links, list_messages, list_link, list_messages-LinkLaws, bridged_room, answer_with_file,
  default_options, as_is,
}
use matrix_bridge_discord.FromDiscord.{handle_discord_message_with_context}
use matrix_bridge_discord.FromDiscord.Outcome.{
  Dropped, RelayedToRoom, handle_discord_message_with_context-Relayed,
}

abbrev pub Both : Type 0
Both = List RoomMapping × Links

abbrev put_rooms :
    Both → Result String (Unit {0}) × List RoomMapping → Result String (Unit {0}) × Both
put_rooms s (r, l) = (r, (l, s.1))

abbrev put_links : Both → Result String (Unit {0}) × Links → Result String (Unit {0}) × Both
put_links s (r, l) = (r, (s.0, l))

abbrev pub both_rooms : RoomStore Both
both_rooms = record {
  get_room_by_discord_channel = λ s. list_store.get_room_by_discord_channel s.0;
  get_room_by_matrix_room = λ s. list_store.get_room_by_matrix_room s.0;
  count_rooms = λ s. list_store.count_rooms s.0;
  list_room_mappings = λ s. list_store.list_room_mappings s.0;
  get_rooms_by_guild = λ s. list_store.get_rooms_by_guild s.0;
  update_room_mapping = λ s m. put_rooms s (list_store.update_room_mapping s.0 m);
  create_room_mapping = λ s m. put_rooms s (list_store.create_room_mapping s.0 m);
  delete_room_mapping = λ s id. put_rooms s (list_store.delete_room_mapping s.0 id);
}

abbrev pub both_messages : MessageStore Both
both_messages = record {
  get_by_discord_message_id = λ s. list_messages.get_by_discord_message_id s.1;
  get_by_matrix_event_id = λ s. list_messages.get_by_matrix_event_id s.1;
  upsert_message_mapping = λ s m. put_links s (list_messages.upsert_message_mapping s.1 m);
  delete_by_discord_message_id =
      λ s id. put_links s (list_messages.delete_by_discord_message_id s.1 id);
}

abbrev pub both_rows : Both → List RoomMapping
both_rows s = s.0

abbrev pub both_link : Both → String → Option (String × String)
both_link s = list_link s.1

pub both_rooms-StoreLaws : StoreLaws both_rooms both_rows
both_rooms-StoreLaws = record {
  by_channel = λ s. list_store-StoreLaws.by_channel s.0;
  by_room = λ s. list_store-StoreLaws.by_room s.0;
  count = λ s. list_store-StoreLaws.count s.0;
  listed = λ s. list_store-StoreLaws.listed s.0;
  created = λ s. list_store-StoreLaws.created s.0;
  not_created = λ s. list_store-StoreLaws.not_created s.0;
  deleted = λ s. list_store-StoreLaws.deleted s.0;
  not_deleted = λ s. list_store-StoreLaws.not_deleted s.0;
}

both_messages-LinkLaws : LinkLaws both_messages both_link
both_messages-LinkLaws = record {
  by_discord = λ s. list_messages-LinkLaws.by_discord s.1;
  upserted = λ s. list_messages-LinkLaws.upserted s.1;
  not_upserted = λ s. list_messages-LinkLaws.not_upserted s.1;
  deleted = λ s. list_messages-LinkLaws.deleted s.1;
  not_deleted = λ s. list_messages-LinkLaws.not_deleted s.1;
}

abbrev pub helpful : Outside Both
helpful = record {
  channel = λ log id. ok none;
  done = λ log c. ok tt;
  state_text = λ log room kind. none;
  new_room = λ log id. ok "!new";
  permission = λ log id. ok tt;
  others = λ w. w;
  sent = λ log c. ok "$2";
  room_text = λ log room kind. ok none;
  user = λ log id. ok none;
  profile = λ log id. ok (some ("Ann", some "mxc://example.org/a"));
  allowed = λ log user room. ok true;
  media = λ log url.
      ok (record { bytes = 1 ∷ 2 ∷ []; content_type = "image/png"; filename = "b.png"; size = 2 });
  uploaded = λ log m. ok "mxc://m";
}

abbrev pub both_bridged : World Both
both_bridged = record {
  db = (bridged_room ∷ [], []);
  room_cache = record { entries = []; ttl = 900 };
  now = 7;
  calls = [];
}

abbrev late : Both → String → Bool → ApprovalResponseStatus × Both
late s channel approved = (expired, s)

no_command : DiscordCommand.is_command answer_with_file.content ≡ false
unfolding DiscordCommand.is_command starts_with strip_prefix trim_start is_whitespace
no_command = refl

handle_discord_message_with_context-Relayed_example :
    After
      (λ _ w'.
        Dropped both_rows both_link helpful as_is answer_with_file both_bridged w'
        ⊎ RelayedToRoom both_rows both_link helpful as_is answer_with_file both_bridged w')
      (SameLinks both_link helpful both_bridged)
      (handle_discord_message_with_context both_rooms both_messages late one as_is helpful one_room
        default_options answer_with_file both_bridged)
handle_discord_message_with_context-Relayed_example =
    handle_discord_message_with_context-Relayed both_rooms both_rows both_rooms-StoreLaws
      both_messages both_link both_messages-LinkLaws late one as_is helpful one_room default_options
      answer_with_file both_bridged no_command
