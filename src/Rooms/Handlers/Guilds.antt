-- ===== src/Rooms/Handlers/Guilds.antt =====
-- A guild that is deleted takes its rooms with it, and no others.
use matrix_bridge_discord.Prelude.{
  ℕ, List, [], ◌∷◌, String, Bool, not, Option, none, some, ◌≡◌, refl, sym, ap, ◌∙◌, subst, arith,
  ok, ℤ, ◌==◌, ◌&&◌, ◌||◌, eq_iff, retain, any, All-every, All-imp, inl, inr,
}
use matrix_bridge_discord.BridgeLogic.{RoomMapping}
use matrix_bridge_discord.Rooms.Store.{RoomStore, StoreLaws, i64_max}
use matrix_bridge_discord.Rooms.Tasks.{Outside, World, After-ok}
use matrix_bridge_discord.Rooms.{
  Options, handle_discord_channel_delete, prefixed, renamed_to, delete_channel,
}
use matrix_bridge_discord.Rooms.Removal.{handle_discord_channel_delete-Deleted}
use matrix_bridge_discord.Rooms.Handlers.{delete_each, channels_of, handle_discord_guild_delete}
use matrix_bridge_discord.Rooms.Handlers.Unique.{
  Unique, retain-Unique, off_channel, find-none, find-retain, retain_congr, retain-retain,
  guild_channels, any-channels_of, retain-All,
}

-- The store never fails to find a channel or to delete a row.
pub record Reliable {S : Type 0} (store : RoomStore S) : Type 0 where
  pub finds :
      (s : S) (channel : String)
      → (o : Option RoomMapping) × (store.get_room_by_discord_channel s channel ≡ ok o)
  pub deletes : (s : S) (id : ℕ) → (store.delete_room_mapping s id).0 ≡ ok tt

off_first :
    (channel : String) (r : RoomMapping) (b : Bool)
    → (off_channel channel r && not b) ≡ not ((channel == r.discord_channel_id) || b)
off_first channel r b =
    ground (arith, eq_iff channel r.discord_channel_id, eq_iff r.discord_channel_id channel)

module _ {S : Type 0} (store : RoomStore S) (rows : S → List RoomMapping)
    (laws : StoreLaws store rows) (reliable : Reliable store) (to_string : ℤ → String)
    (outside : Outside S) (options : Options) where
  renamed_to-ok :
      (room kind before : String) (text : Option String) (w : World S)
      → (renamed_to store to_string outside options room kind before text w).0 ≡ ok tt
  renamed_to-ok room kind before none w = refl
  renamed_to-ok room kind before (some text) w = refl

  prefixed-ok :
      (room kind : String) (before : Option String) (w : World S)
      → (prefixed store to_string outside options room kind before w).0 ≡ ok tt
  prefixed-ok room kind none w = refl
  prefixed-ok room kind (some before) w =
      renamed_to-ok room kind before (outside.state_text w.calls room kind) _

  delete_channel-ok :
      (found : Option RoomMapping) (w : World S)
      → (delete_channel store to_string outside options found w).0 ≡ ok tt
  delete_channel-ok none w = refl
  delete_channel-ok (some m) w = rw (prefixed-ok, prefixed-ok, reliable.deletes) refl

  handle_discord_channel_delete-ok :
      (channel : String) (w : World S)
      → (handle_discord_channel_delete store to_string outside options channel w).0 ≡ ok tt
  unfolding handle_discord_channel_delete
  handle_discord_channel_delete-ok channel w =
      let (o, e) = reliable.finds w.db channel in rw e (delete_channel-ok o w)

  -- One channel's deletion takes away the rows of the channel.
  deleted_rows :
      (channel : String) (w : World S)
      → Unique (rows w.db)
      → rows (handle_discord_channel_delete store to_string outside options channel w).1.db
        ≡ retain (off_channel channel) (rows w.db)
  deleted_rows channel w u =
      elim (After-ok _ _ _ tt
        (handle_discord_channel_delete-Deleted store rows laws to_string outside options w channel)
        (handle_discord_channel_delete-ok channel w)) [
          | inl (absent, kept) ↦ kept.same_rows ∙ sym (find-none channel (rows w.db) absent)
          | inr (m, found, gone) ↦ gone.removed ∙ find-retain channel (rows w.db) m u found
        ]

  each_rows :
      (channels : List String) (w : World S)
      → Unique (rows w.db)
      → rows (delete_each store to_string outside options channels w).1.db
        ≡ retain (λ r. not (any (λ c. c == r.discord_channel_id) channels)) (rows w.db)
  each_rows [] w u = sym (retain-All _ (rows w.db) (All-every _ (rows w.db) (λ r. refl)))
  each_rows (channel ∷ channels) w u =
      let first = deleted_rows channel w u in
      let later = (handle_discord_channel_delete store to_string outside options channel w).1 in
      each_rows channels later
        (subst Unique (sym first) (retain-Unique (off_channel channel) (rows w.db) u))
      ∙ ap (retain (λ r. not (any (λ c. c == r.discord_channel_id) channels))) first
      ∙ retain-retain _ (off_channel channel) (rows w.db)
      ∙ retain_congr _ _ (rows w.db) (
          All-every _ (rows w.db)
            (λ r. off_first channel r (any (λ c. c == r.discord_channel_id) channels)))

  -- When a guild is deleted, its rooms are no longer bridged, and all others are, if the store does
  -- not fail: what is left are the rows of the other guilds, in their order.
  pub handle_discord_guild_delete-rows :
      (guild : String) (w : World S) (l : List RoomMapping)
      → store.list_room_mappings w.db i64_max 0 ≡ ok l
      → Unique (rows w.db)
      → rows (handle_discord_guild_delete store to_string outside options guild w).1.db
        ≡ retain (λ r. not (r.discord_guild_id == guild)) (rows w.db)
  unfolding handle_discord_guild_delete
  handle_discord_guild_delete-rows guild w l listed u = rw listed (
      each_rows (channels_of store to_string outside options guild l) w u
      ∙ retain_congr _ _ (rows w.db) (
          All-imp _ _ (rows w.db)
            (λ r e. ap not (
              any-channels_of store to_string outside options guild r.discord_channel_id l
              ∙ laws.listed w.db l listed _
              ∙ e))
            (guild_channels guild (rows w.db) u)))
