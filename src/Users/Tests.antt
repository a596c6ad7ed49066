-- ===== src/Users/Tests.antt =====
-- Users, run with a store that is a list of them.
use matrix_bridge_discord.Prelude.{
  List, [], ◌∷◌, ◌++◌, true, none, some, ◌≡◌, refl, arith, ok, err, ◌==◌, find, eqb, map,
  if◌then◌else◌,
}
use matrix_bridge_discord.Rooms.Store.{RoomStore}
use matrix_bridge_discord.Rooms.Tasks.{After, Outside, World}
use matrix_bridge_discord.Users.Store.{UserMapping, UserStore, UserLaws, changed}
use matrix_bridge_discord.Users.{handle_discord_user_update}
use matrix_bridge_discord.Users.Updates.{Unique, renamed, handle_discord_user_update-rows}

abbrev pub People : Type 0
People = List UserMapping

abbrev pub one_room_store : RoomStore People
one_room_store = record {
  get_room_by_discord_channel = λ s c. ok none;
  get_room_by_matrix_room = λ s c. ok none;
  count_rooms = λ s. ok 1;
  list_room_mappings = λ s limit offset. ok (
      record {
        id = 3;
        matrix_room_id = "!r";
        discord_channel_id = "34";
        discord_channel_name = "general";
        discord_guild_id = "12";
        created_at = 0;
        updated_at = 0;
      }
      ∷ []);
  get_rooms_by_guild = λ s g. ok [];
  update_room_mapping = λ s m. (ok tt, s);
  create_room_mapping = λ s m. (ok tt, s);
  delete_room_mapping = λ s id. (ok tt, s);
}

abbrev pub list_users : UserStore People
list_users = record {
  get_user_by_discord_id = λ s id. ok (find (λ u. u.discord_user_id == id) s);
  create_user_mapping = λ s m. (ok tt, s ++ m ∷ []);
  update_user_mapping = λ s m. (ok tt, map (λ u. if eqb u.id m.id then changed m u else u) s);
}

abbrev pub as_listed : People → List UserMapping
as_listed s = s

pub list_users-UserLaws : UserLaws list_users as_listed
list_users-UserLaws = record {
  by_discord_id = λ s id o h. ground arith;
  updated = λ s m h. refl;
  not_updated = λ s m e h. ground arith;
}

abbrev pub friendly : Outside People
friendly = record {
  channel = λ log id. ok none;
  done = λ log c. ok tt;
  state_text = λ log room kind. none;
  new_room = λ log id. ok "!new";
  permission = λ log id. ok tt;
  others = λ w. w;
  sent = λ log c. ok "$2";
  room_text = λ log room kind. ok none;
  user = λ log id. ok none;
  profile = λ log id. ok none;
  allowed = λ log user room. ok true;
  media = λ log url. err "gone";
  uploaded = λ log m. ok "mxc://m";
}

abbrev pub ann : UserMapping
ann = record {
  id = 1;
  matrix_user_id = "@_discord_5:example.org";
  discord_user_id = "5";
  discord_username = "ann";
  discord_discriminator = "0000";
  discord_avatar = none;
  created_at = 0;
  updated_at = 0;
}

abbrev pub two_people : World People
two_people = record {
  db = ann ∷ record ann { id = 2; discord_user_id = "6"; discord_username = "bob" } ∷ [];
  room_cache = record { entries = []; ttl = 900 };
  now = 7;
  calls = [];
}

two_people-Unique : Unique two_people.db
two_people-Unique = (((refl, refl), tt), (tt, tt))

handle_discord_user_update-rows_example :
    After
      (λ _ w'. w'.db ≡ map (renamed "5" "anna" (some "https://a") 7) two_people.db)
      (λ w'. w'.db ≡ two_people.db)
      (handle_discord_user_update one_room_store list_users friendly "5" "anna"
        (some "https://a")
        two_people)
handle_discord_user_update-rows_example =
    handle_discord_user_update-rows one_room_store list_users as_listed list_users-UserLaws friendly
      "5" "anna" (some "https://a") two_people two_people-Unique
