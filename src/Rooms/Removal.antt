-- ===== src/Rooms/Removal.antt =====
-- What is left of a room whose channel is deleted.
use matrix_bridge_discord.Prelude.{
  ℕ, List, String, not, Option, none, some, ◌≡◌, ◌⊎◌, inl, inr, refl, sym, ap, ◌∙◌, ℤ, ◌==◌,
  eq_refl, find, retain, eqb,
}
use matrix_bridge_discord.HashMap.{string_eq}
use matrix_bridge_discord.TimedCache
use matrix_bridge_discord.TimedCache.Lookup.{get-remove_if}
use matrix_bridge_discord.BridgeLogic.{RoomMapping}
use matrix_bridge_discord.Rooms.Store.{RoomStore, StoreLaws}
use matrix_bridge_discord.Rooms.Tasks.{
  Outside, World, After, follow-After, After-either, After-cases, After-weaken,
}
use matrix_bridge_discord.Rooms.{
  Options, prefixed, renamed_to, forget_mapping, delete_channel, handle_discord_channel_delete,
}

-- Neither the rows nor the cache have changed.
pub record Kept {S : Type 0} (rows : S → List RoomMapping) (w w' : World S) : Type 0 where
  pub same_rows : rows w'.db ≡ rows w.db
  pub same_cache : w'.room_cache ≡ w.room_cache

-- The row is gone and no other, and the cache has nothing for its room.
pub record Gone {S : Type 0} (rows : S → List RoomMapping) (w w' : World S) (m : RoomMapping)
    : Type 0 where
  pub removed : rows w'.db ≡ retain (λ r. not (eqb r.id m.id)) (rows w.db)
  pub uncached : (now : ℕ) → TimedCache.get w'.room_cache m.matrix_room_id now ≡ none

module _ {S : Type 0} (store : RoomStore S) (rows : S → List RoomMapping)
    (laws : StoreLaws store rows) (to_string : ℤ → String) (outside : Outside S) (options : Options)
    (w : World S) where
  renamed_to-Kept :
      (room kind before : String) (text : Option String) (w' : World S)
      → Kept rows w w'
      → After
          (λ _. Kept rows w)
          (Kept rows w)
          (renamed_to store to_string outside options room kind before text w')
  renamed_to-Kept room kind before none w' k = k
  renamed_to-Kept room kind before (some text) w' k = record {
    same_rows = k.same_rows;
    same_cache = k.same_cache;
  }

  pub prefixed-Kept :
      (room kind : String) (before : Option String) (w' : World S)
      → Kept rows w w'
      → After
          (λ _. Kept rows w)
          (Kept rows w)
          (prefixed store to_string outside options room kind before w')
  prefixed-Kept room kind none w' k = k
  prefixed-Kept room kind (some before) w' k =
      renamed_to-Kept room kind before (outside.state_text w'.calls room kind) _
        (record { same_rows = k.same_rows; same_cache = k.same_cache })

  pub forget_mapping-Gone :
      (m : RoomMapping) (w' : World S)
      → Kept rows w w'
      → After
          (λ _ w''. Gone rows w w'' m)
          (Kept rows w)
          (forget_mapping store to_string outside options m.id m.matrix_room_id w')
  forget_mapping-Gone m w' k =
      let s = store.delete_room_mapping w'.db m.id in
      follow-After
        (λ _ w''.
          (rows w''.db ≡ retain (λ r. not (eqb r.id m.id)) (rows w.db))
          × (w''.room_cache ≡ w.room_cache))
        (λ _ w''. Gone rows w w'' m) (Kept rows w) s.0 (record w' { db = s.1 }) _
        (After-cases _ (Kept rows w) s.0 (record w' { db = s.1 })
          (λ _ e. (
            laws.deleted w'.db m.id e ∙ ap (retain (λ r. not (eqb r.id m.id))) k.same_rows,
            k.same_cache,
          ))
          (λ text e. record {
            same_rows = laws.not_deleted w'.db m.id text e ∙ k.same_rows;
            same_cache = k.same_cache;
          }))
        (λ _ w'' h. record {
          removed = h.0;
          uncached = λ now.
              get-remove_if w''.room_cache m.matrix_room_id m.matrix_room_id now ∙ rw eq_refl refl;
        })

  -- What becomes of the bridge when the channel is deleted.
  abbrev pub Deleted : String → World S → Type 0
  Deleted channel w' =
      ((find (λ r. r.discord_channel_id == channel) (rows w.db) ≡ none) × Kept rows w w')
      ⊎ ((m : RoomMapping) × (find (λ r. r.discord_channel_id == channel) (rows w.db) ≡ some m)
          × Gone rows w w' m)

  delete_channel-Deleted :
      (channel : String) (found : Option RoomMapping)
      → found ≡ find (λ r. r.discord_channel_id == channel) (rows w.db)
      → After
          (λ _. Deleted channel)
          (Kept rows w)
          (delete_channel store to_string outside options found w)
  delete_channel-Deleted channel none e =
      inl (sym e, record { same_rows = refl; same_cache = refl })
  delete_channel-Deleted channel (some m) e =
      let name =
        prefixed store to_string outside options m.matrix_room_id "m.room.name"
          options.delete_options.name_prefix w in
      follow-After (λ _. Kept rows w) (λ _. Deleted channel) (Kept rows w) name.0 name.1 _
        (prefixed-Kept m.matrix_room_id "m.room.name" options.delete_options.name_prefix w
          (record { same_rows = refl; same_cache = refl }))
        (λ _ w1 k1.
          let topic =
            prefixed store to_string outside options m.matrix_room_id "m.room.topic"
              options.delete_options.topic_prefix w1 in
          follow-After (λ _. Kept rows w) (λ _. Deleted channel) (Kept rows w) topic.0 topic.1 _
            (prefixed-Kept m.matrix_room_id "m.room.topic" options.delete_options.topic_prefix w1
              k1)
            (λ _ w2 k2.
              After-weaken (λ _ w3. Gone rows w w3 m) (Kept rows w) (λ _. Deleted channel) _
                (forget_mapping-Gone m w2 k2) (λ _ w3 g. inr (m, sym e, g))))

  -- When a channel is deleted on Discord, then either it was not bridged and nothing changes, or its
  -- row goes, and no other, and with it the cached mapping of its room; and if the task fails, the
  -- rows and the cache are as before.
  pub handle_discord_channel_delete-Deleted :
      (channel : String)
      → After
          (λ _. Deleted channel)
          (Kept rows w)
          (handle_discord_channel_delete store to_string outside options channel w)
  unfolding handle_discord_channel_delete
  handle_discord_channel_delete-Deleted channel =
      follow-After
        (λ found w'. (found ≡ find (λ r. r.discord_channel_id == channel) (rows w.db)) × (w' ≡ w))
        (λ _. Deleted channel) (Kept rows w) (store.get_room_by_discord_channel w.db channel) w _
        (After-either _ _ (store.get_room_by_discord_channel w.db channel) w
          (record { same_rows = refl; same_cache = refl })
          (λ found e. (laws.by_channel w.db channel found e, refl)))
        (λ found w' h. rw h.1 (delete_channel-Deleted channel found h.0))
