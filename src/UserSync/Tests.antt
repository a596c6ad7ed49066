-- ===== src/UserSync/Tests.antt =====
-- An update of a user, run.
use matrix_bridge_discord.Prelude.{List, false, none, some, ◌≡◌, refl}
use matrix_bridge_discord.BridgeLogic.{RoomMapping}
use matrix_bridge_discord.Rooms.Tasks.{After}
use matrix_bridge_discord.Users.Tests.{
  one_room_store, list_users, as_listed, list_users-UserLaws, friendly, ann, two_people,
}
use matrix_bridge_discord.UserSync.{on_user_update}
use matrix_bridge_discord.UserSync.Application.{on_user_update-rows}

abbrev by_row : List RoomMapping → List RoomMapping
by_row l = l

on_user_update-rows_example :
    After
      (λ _ w'. w'.db ≡ two_people.db)
      (λ w'. w'.db ≡ two_people.db)
      (on_user_update one_room_store list_users friendly ":username" "example.org" by_row "5"
        (some "anna")
        none
        false
        two_people)
on_user_update-rows_example =
    on_user_update-rows one_room_store list_users friendly ":username" "example.org" by_row
      as_listed list_users-UserLaws "5" (some "anna") none false two_people ann refl
      (refl, (refl, tt))
