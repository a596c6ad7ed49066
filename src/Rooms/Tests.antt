-- ===== src/Rooms/Tests.antt =====
-- Rooms, run with a store that is a list and outsiders that agree to everything.
use matrix_bridge_discord.Prelude.{
  List, [], ◌∷◌, ◌++◌, ◌<◌, String, true, not, none, some, ◌≡◌, refl, arith, ok, ℤ, pos, ◌==◌, find,
  retain, eqb, length, map, if◌then◌else◌, err,
}
use matrix_bridge_discord.BridgeLogic.{RoomMapping}
use matrix_bridge_discord.Rooms.Store.{RoomStore, StoreLaws}
use matrix_bridge_discord.Rooms.Tasks.{After, DiscordChannel, Outside, World}
use matrix_bridge_discord.Rooms.{
  unbridge_matrix_room, handle_discord_channel_delete, Options, request_bridge_matrix_room,
  bridge_matrix_room, request_bridge_discord_channel,
}
use matrix_bridge_discord.Rooms.Raced.{bridge_matrix_room_raced}
use matrix_bridge_discord.Rooms.Removal.{Kept, Deleted, handle_discord_channel_delete-Deleted}
use matrix_bridge_discord.Rooms.Unbridging.{Same, Unbridged, unbridge_matrix_room-Unbridged}
use matrix_bridge_discord.Rooms.Limit.{
  Within, request_bridge_matrix_room-Within, request_bridge_discord_channel_unlimited,
}
use matrix_bridge_discord.Rooms.Handlers.{handle_discord_guild_delete}
use matrix_bridge_discord.Rooms.Handlers.Unique.{Unique}
use matrix_bridge_discord.Rooms.Handlers.Guilds.{Reliable, handle_discord_guild_delete-rows}

abbrev pub list_store : RoomStore (List RoomMapping)
list_store = record {
  get_room_by_discord_channel = λ s c. ok (find (λ r. r.discord_channel_id == c) s);
  get_room_by_matrix_room = λ s c. ok (find (λ r. r.matrix_room_id == c) s);
  count_rooms = λ s. ok (length s);
  list_room_mappings = λ s limit offset. ok s;
  get_rooms_by_guild = λ s g. ok (retain (λ r. r.discord_guild_id == g) s);
  update_room_mapping = λ s m. (ok tt, map (λ r. if eqb r.id m.id then m else r) s);
  create_room_mapping = λ s m. (ok tt, s ++ record m { id = length s } ∷ []);
  delete_room_mapping = λ s id. (ok tt, retain (λ r. not (eqb r.id id)) s);
}

abbrev pub same_rows : List RoomMapping → List RoomMapping
same_rows s = s

pub list_store-StoreLaws : StoreLaws list_store same_rows
list_store-StoreLaws = record {
  by_channel = λ s c o h. ground arith;
  by_room = λ s c o h. ground arith;
  count = λ s n h. ground arith;
  listed = λ s l h p. ground arith;
  created = λ s m h. (length s, refl);
  not_created = λ s m e h. ground arith;
  deleted = λ s id h. refl;
  not_deleted = λ s id e h. ground arith;
}

abbrev general : DiscordChannel
general = record { id = "34"; name = "general"; guild_id = "12"; topic = none }

abbrev pub agreeable : Outside (List RoomMapping)
agreeable = record {
  channel = λ log id. ok (some general);
  done = λ log c. ok tt;
  state_text = λ log room kind. none;
  new_room = λ log id. ok "!new";
  permission = λ log id. ok tt;
  others = λ w. w;
  sent = λ log c. ok "$1";
  room_text = λ log room kind. ok none;
  user = λ log id. ok none;
  profile = λ log id. ok none;
  allowed = λ log user room. ok true;
  media = λ log url. err "gone";
  uploaded = λ log m. ok "mxc://m";
}

abbrev pub one_room : Options
one_room = record {
  room_count = pos 1;
  name_pattern = "[Discord] :guild :name";
  delete_options = record { name_prefix = none; topic_prefix = none; unset_room_alias = true };
  room_alias_prefix = "_discord_";
  domain = "example.org";
}

abbrev pub start : World (List RoomMapping)
start = record { db = []; room_cache = record { entries = []; ttl = 900 }; now = 7; calls = [] }

abbrev pub one : ℤ → String
one _ = "1"

-- Others unbridge everything meanwhile.
abbrev clearing : Outside (List RoomMapping)
clearing = record agreeable { others = λ w. record w { db = [] } }

request_bridge_matrix_room-Within_example :
    Within same_rows 1
      (request_bridge_matrix_room list_store one clearing one_room "!r" "@a" "12" "34" start).1
request_bridge_matrix_room-Within_example =
    request_bridge_matrix_room-Within list_store same_rows list_store-StoreLaws one clearing
      one_room 1 refl (λ w. omega arith) "!r" "@a" "12" "34" start (omega arith)

abbrev elsewhere : RoomMapping
elsewhere = record {
  id = 0;
  matrix_room_id = "!q";
  discord_channel_id = "99";
  discord_channel_name = "other";
  discord_guild_id = "12";
  created_at = 0;
  updated_at = 0;
}

-- Others bridge another room meanwhile.
abbrev filling : Outside (List RoomMapping)
filling = record agreeable { others = λ w. record w { db = elsewhere ∷ [] } }

bridge_matrix_room_raced_example :
    1 < length (bridge_matrix_room list_store one filling one_room "!r" "12" "34" start).1.db
bridge_matrix_room_raced_example =
    bridge_matrix_room_raced list_store same_rows list_store-StoreLaws one filling one_room 1 "!r"
      "12" "34" start general refl refl (omega arith) refl (λ log. refl) (omega arith) refl

request_bridge_discord_channel_unlimited_example :
    length (request_bridge_discord_channel list_store one agreeable one_room "12" "34" start).1.db
    ≡ 1
request_bridge_discord_channel_unlimited_example =
    request_bridge_discord_channel_unlimited list_store same_rows list_store-StoreLaws one agreeable
      one_room "12" "34" start general "!new" refl (λ log. refl) (λ log. refl) refl

abbrev bridged : World (List RoomMapping)
bridged = record start {
  db =
      record {
        id = 3;
        matrix_room_id = "!r";
        discord_channel_id = "34";
        discord_channel_name = "general";
        discord_guild_id = "12";
        created_at = 0;
        updated_at = 0;
      }
      ∷ [];
}

handle_discord_channel_delete-Deleted_example :
    After
      (λ _. Deleted list_store same_rows list_store-StoreLaws one agreeable one_room bridged "34")
      (Kept same_rows bridged)
      (handle_discord_channel_delete list_store one agreeable one_room "34" bridged)
handle_discord_channel_delete-Deleted_example =
    handle_discord_channel_delete-Deleted list_store same_rows list_store-StoreLaws one agreeable
      one_room bridged "34"

unbridge_matrix_room-Unbridged_example :
    After
      (λ _. Unbridged same_rows bridged "!r")
      (Same same_rows bridged)
      (unbridge_matrix_room list_store one agreeable one_room "!r" bridged)
unbridge_matrix_room-Unbridged_example =
    unbridge_matrix_room-Unbridged list_store same_rows list_store-StoreLaws one agreeable one_room
      bridged "!r"

list_store-Reliable : Reliable list_store
list_store-Reliable = record {
  finds = λ s c. (find (λ r. r.discord_channel_id == c) s, refl);
  deletes = λ s id. refl;
}

abbrev pub two_guilds : World (List RoomMapping)
two_guilds = record start {
  db =
      record {
        id = 3;
        matrix_room_id = "!r";
        discord_channel_id = "34";
        discord_channel_name = "general";
        discord_guild_id = "12";
        created_at = 0;
        updated_at = 0;
      }
      ∷ record {
        id = 4;
        matrix_room_id = "!s";
        discord_channel_id = "35";
        discord_channel_name = "talk";
        discord_guild_id = "13";
        created_at = 0;
        updated_at = 0;
      }
      ∷ [];
}

two_guilds-Unique : Unique two_guilds.db
two_guilds-Unique = (((refl, refl), tt), (tt, tt))

handle_discord_guild_delete-rows_example :
    (handle_discord_guild_delete list_store one agreeable one_room "12" two_guilds).1.db
    ≡ retain (λ r. not (r.discord_guild_id == "12")) two_guilds.db
handle_discord_guild_delete-rows_example =
    handle_discord_guild_delete-rows list_store same_rows list_store-StoreLaws list_store-Reliable
      one agreeable one_room "12" two_guilds two_guilds.db refl two_guilds-Unique
