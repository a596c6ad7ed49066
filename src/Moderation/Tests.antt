-- ===== src/Moderation/Tests.antt =====
-- A moderation command, run where the homeserver agrees.
use matrix_bridge_discord.Prelude.{List, [], ◌∷◌, String, Bool, ◌≡◌, refl, some}
use matrix_bridge_discord.DiscordCommand.{ban}
use matrix_bridge_discord.Provisioning.{ApprovalResponseStatus, expired}
use matrix_bridge_discord.BridgeLogic.{RoomMapping}
use matrix_bridge_discord.Rooms.Tasks.{After}
use matrix_bridge_discord.Rooms.Tests.{list_store, agreeable, one_room, one, two_guilds}
use matrix_bridge_discord.Moderation.{target_rooms, moderate}
use matrix_bridge_discord.Moderation.Targets.{Distinct, has, in_rows}
use matrix_bridge_discord.Moderation.Once.{Moderated, moderate-once}

abbrev too_late : List RoomMapping → String → Bool → ApprovalResponseStatus × List RoomMapping
too_late s channel approved = (expired, s)

abbrev talk : RoomMapping
talk = record {
  id = 4;
  matrix_room_id = "!s";
  discord_channel_id = "35";
  discord_channel_name = "talk";
  discord_guild_id = "13";
  created_at = 0;
  updated_at = 0;
}

abbrev listed : List RoomMapping
listed = talk ∷ []

moderate-once_example :
    After
      (λ _ w'.
        Moderated list_store too_late one agreeable one_room "35" "5" ban "@bob:example.org"
          (target_rooms talk listed)
          two_guilds
          w')
      (λ w'.
        Moderated list_store too_late one agreeable one_room "35" "5" ban "@bob:example.org"
          (target_rooms talk listed)
          two_guilds
          w')
      (moderate list_store too_late one agreeable one_room "35" "5" ban "@bob:example.org"
        (some talk)
        two_guilds)
    × Distinct (target_rooms talk listed)
    × ((room : String) → has (target_rooms talk listed) room ≡ in_rows listed room)
moderate-once_example =
    moderate-once list_store too_late one agreeable one_room "35" "5" ban "@bob:example.org" talk
      listed two_guilds refl
