-- ===== src/Messages/Tests.antt =====
-- Messages, run with a store that is a list of links and outsiders that answer everything.
use matrix_bridge_discord.Prelude.{
  List, [], ◌∷◌, String, true, false, not, Option, none, some, ◌≡◌, refl, sym, arith, ok, err, ◌==◌,
  eq_iff, find, retain, if◌then◌else◌, Bool-cases, inl, inr, ◌⊎◌,
}
use matrix_bridge_discord.BridgeLogic.{RoomMapping, MessageMapping}
use matrix_bridge_discord.Rooms.Store.{RoomStore}
use matrix_bridge_discord.Rooms.Tasks.{After, Outside, World}
use matrix_bridge_discord.Messages.Store.{MessageStore, LinkLaws}
use matrix_bridge_discord.Messages.{
  DiscordMessageContext, MessageOptions, relay_discord_message, handle_discord_message_delete,
}
use matrix_bridge_discord.Messages.Relay.{
  SameLinks, outbound_of, Relayed, relay_discord_message-Relayed,
}
use matrix_bridge_discord.Messages.Deletion.{
  Unlinked, Redacted, handle_discord_message_delete-Redacted,
}

abbrev pub Links : Type 0
Links = List MessageMapping

abbrev pub no_rooms : RoomStore Links
no_rooms = record {
  get_room_by_discord_channel = λ s c. ok none;
  get_room_by_matrix_room = λ s c. ok none;
  count_rooms = λ s. ok 0;
  list_room_mappings = λ s limit offset. ok [];
  get_rooms_by_guild = λ s g. ok [];
  update_room_mapping = λ s m. (ok tt, s);
  create_room_mapping = λ s m. (ok tt, s);
  delete_room_mapping = λ s id. (ok tt, s);
}

abbrev pub list_messages : MessageStore Links
list_messages = record {
  get_by_discord_message_id = λ s id. ok (find (λ m. m.discord_message_id == id) s);
  get_by_matrix_event_id = λ s id. ok (find (λ m. m.matrix_event_id == id) s);
  upsert_message_mapping = λ s m. (ok tt, m ∷ s);
  delete_by_discord_message_id = λ s id. (ok tt, retain (λ m. not (m.discord_message_id == id)) s);
}

abbrev pub list_link : Links → String → Option (String × String)
list_link [] id = none
list_link (m ∷ s) id =
    if m.discord_message_id == id
    then some (m.matrix_room_id, m.matrix_event_id)
    else list_link s id

find-list_link :
    (id : String) (s : Links)
    → elim (find (λ m. m.discord_message_id == id) s) [
      | none ↦ none
      | some m ↦ some (m.matrix_room_id, m.matrix_event_id)
    ]
      ≡ list_link s id
find-list_link id [] = refl
find-list_link id (m ∷ s) = elim (Bool-cases (m.discord_message_id == id)) [
  | inl e ↦ rw e refl
  | inr e ↦ rw e (find-list_link id s)
]

retain-list_link :
    (gone id : String) (s : Links)
    → list_link (retain (λ m. not (m.discord_message_id == gone)) s) id
      ≡ (if gone == id then none else list_link s id)
retain-list_link gone id [] = ground arith
retain-list_link gone id (m ∷ s) =
    let later = retain-list_link gone id s in
    ground (
      arith,
      eq_iff m.discord_message_id gone,
      eq_iff m.discord_message_id id,
      eq_iff gone id,
      later,
    )

pub list_messages-LinkLaws : LinkLaws list_messages list_link
list_messages-LinkLaws = record {
  by_discord = λ s id o h.
      let same : find (λ m. m.discord_message_id == id) s ≡ o = ground arith in
      rw (sym same) (find-list_link id s);
  upserted = λ s m h id. refl;
  not_upserted = λ s m e h. ground arith;
  deleted = λ s gone h id. retain-list_link gone id s;
  not_deleted = λ s gone e h. ground arith;
}

abbrev pub obliging : Outside Links
obliging = record {
  channel = λ log id. ok none;
  done = λ log c. ok tt;
  state_text = λ log room kind. none;
  new_room = λ log id. ok "!new";
  permission = λ log id. ok tt;
  others = λ w. w;
  sent = λ log c. ok "$2";
  room_text = λ log room kind. ok none;
  user =
      λ log id. ok (some record { id = id; username = "ann"; discriminator = "1"; avatar = none });
  profile = λ log id. ok none;
  allowed = λ log user room. ok true;
  media = λ log url. err "gone";
  uploaded = λ log m. ok "mxc://m";
}

abbrev pub linked : World Links
linked = record {
  db =
      record {
        id = 1;
        discord_message_id = "77";
        matrix_room_id = "!r";
        matrix_event_id = "$1";
        created_at = 0;
        updated_at = 0;
      }
      ∷ [];
  room_cache = record { entries = []; ttl = 900 };
  now = 7;
  calls = [];
}

abbrev pub default_options : MessageOptions
default_options = record { username_pattern = ":username"; disable_typing_notifications = false }

abbrev pub bridged_room : RoomMapping
bridged_room = record {
  id = 3;
  matrix_room_id = "!r";
  discord_channel_id = "34";
  discord_channel_name = "general";
  discord_guild_id = "12";
  created_at = 0;
  updated_at = 0;
}

abbrev pub answer_with_file : DiscordMessageContext
answer_with_file = record {
  channel_id = "34";
  source_message_id = some "78";
  sender_id = "5";
  content = "hi";
  attachments = "https://a/b.png" ∷ [];
  reply_to = some "77";
  edit_of = none;
  permissions = [];
}

abbrev pub as_is : String → String
as_is text = text

relay_discord_message-Relayed_example :
    After
      (λ _.
        Relayed list_link obliging linked
          (outbound_of list_link obliging linked as_is answer_with_file)
          (some "78")
          "!r"
          "5")
      (SameLinks list_link obliging linked)
      (relay_discord_message no_rooms list_messages obliging as_is default_options answer_with_file
        bridged_room linked)
relay_discord_message-Relayed_example =
    relay_discord_message-Relayed no_rooms list_messages list_link list_messages-LinkLaws obliging
      linked as_is default_options answer_with_file bridged_room

handle_discord_message_delete-Redacted_example :
    After
      (λ _ w'. Unlinked list_link "77" linked w' ⊎ Redacted list_link "77" linked w')
      (SameLinks list_link obliging linked)
      (handle_discord_message_delete no_rooms list_messages obliging as_is default_options "77"
        linked)
handle_discord_message_delete-Redacted_example =
    handle_discord_message_delete-Redacted no_rooms list_messages list_link list_messages-LinkLaws
      obliging as_is default_options "77" linked
