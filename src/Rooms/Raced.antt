-- ===== src/Rooms/Raced.antt =====
-- The check of the limit of rooms, and what may come between it and the insertion.
use matrix_bridge_discord.Prelude.{
  ℕ, ◌≤◌, ◌<◌, List, [], ◌∷◌, ◌++◌, String, false, none, some, ◌≡◌, arith, ok, ℤ, pos, count_ge,
  length, length-append,
}
use matrix_bridge_discord.BridgeLogic.{RoomMapping}
use matrix_bridge_discord.Rooms.Store.{RoomStore, StoreLaws}
use matrix_bridge_discord.Rooms.Tasks.{Call, get_channel, Outside, DiscordChannel, World}
use matrix_bridge_discord.Rooms.{Options, check_room_limit, mapping_of, bridge_matrix_room}

module _ {S : Type 0} (store : RoomStore S) (rows : S → List RoomMapping)
    (laws : StoreLaws store rows) (to_string : ℤ → String) (outside : Outside S)
    (options : Options) where
  -- The world when the free channel has been looked up: others may have acted twice since the limit
  -- was checked.
  abbrev pub looked_up : String → World S → World S
  looked_up channel_id w = outside.others (record (outside.others w) {
    calls = (outside.others w).calls ++ get_channel channel_id ∷ [];
  })

  -- The check of the limit and the insertion are not one step: if there was room when the limit was
  -- checked, and other tasks have filled the bridge by the time that the free channel has been looked
  -- up, the room is bridged all the same, and the bridge is over its limit.
  pub bridge_matrix_room_raced :
      (limit : ℕ) (room guild_id channel_id : String) (w : World S) (c : DiscordChannel)
      → options.room_count ≡ pos limit
      → store.count_rooms w.db ≡ ok (length (rows w.db))
      → length (rows w.db) < limit
      → store.get_room_by_discord_channel (outside.others w).db channel_id ≡ ok none
      → ((log : List Call) → outside.channel log channel_id ≡ ok (some c))
      → limit ≤ length (rows (looked_up channel_id w).db)
      → (store.create_room_mapping (looked_up channel_id w).db (
          mapping_of store to_string outside options room guild_id c
            (looked_up channel_id w).now)).0
        ≡ ok tt
      → limit
        < length (
            rows
              (bridge_matrix_room store to_string outside options room guild_id channel_id w).1.db)
  unfolding bridge_matrix_room check_room_limit
  bridge_matrix_room_raced limit room guild_id channel_id w c limited counted room_left free known
        full stored =
      let w2 = looked_up channel_id w in
      let m = mapping_of store to_string outside options room guild_id c w2.now in
      let (id, same) = laws.created w2.db m stored in
      let below : count_ge (length (rows w.db)) (pos limit) ≡ false = ground arith in
      rw (limited, counted, below, free, known, stored)
        (rw same (omega (arith, length-append (rows w2.db) (record m { id = id } ∷ []))))
