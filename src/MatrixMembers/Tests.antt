-- ===== src/MatrixMembers/Tests.antt =====
-- A ghost is kicked from a bridged room.
use matrix_bridge_discord.Prelude.{false, some, none, ◌≡◌}
use matrix_bridge_discord.MessageFlow.{MatrixEvent}
use matrix_bridge_discord.MessageFlow.Tests.{text, object, no_fields, field, small_json}
use matrix_bridge_discord.Rooms.Tasks.{After}
use matrix_bridge_discord.Rooms.Tests.{
  list_store, same_rows, list_store-StoreLaws, agreeable, one_room, one, two_guilds,
}
use matrix_bridge_discord.MatrixMembers.{handle_matrix_member}
use matrix_bridge_discord.MatrixMembers.Moderated.{Outcome, handle_matrix_member-Outcome}

abbrev kick_event : MatrixEvent small_json
kick_event = record {
  event_id = some "$4";
  event_type = "m.room.member";
  room_id = "!r";
  sender = "@a:example.org";
  state_key = some "@_discord_5:example.org";
  content = some (object (field "membership" (text "leave") no_fields));
  timestamp = none;
}

handle_matrix_member-Outcome_example :
    After
      (λ _ w'.
        Outcome same_rows "example.org" "@_discord_bot:example.org" 5000 small_json kick_event
          two_guilds w')
      (λ w'. w'.calls ≡ two_guilds.calls)
      (handle_matrix_member list_store one agreeable one_room "@_discord_bot:example.org" 5000 false
        small_json kick_event two_guilds)
handle_matrix_member-Outcome_example =
    handle_matrix_member-Outcome list_store same_rows list_store-StoreLaws one agreeable one_room
      "@_discord_bot:example.org" 5000 false small_json kick_event two_guilds
