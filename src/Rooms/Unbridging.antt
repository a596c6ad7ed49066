-- ===== src/Rooms/Unbridging.antt =====
-- What is left of a room that is unbridged from Matrix.
use matrix_bridge_discord.Prelude.{
  ℕ, List, String, Bool, true, false, not, Option, none, some, ◌≡◌, ◌⊎◌, inl, inr, refl, sym, ap,
  ◌∙◌, ℤ, ◌==◌, find, retain, eqb,
}
use matrix_bridge_discord.HashMap.{string_eq}
use matrix_bridge_discord.TimedCache
use matrix_bridge_discord.BridgeLogic.{RoomMapping}
use matrix_bridge_discord.Rooms.Store.{RoomStore, StoreLaws}
use matrix_bridge_discord.Rooms.Tasks.{
  Outside, World, After, follow-After, After-either, After-both,
}
use matrix_bridge_discord.Rooms.{
  Options, prefixed, unset_alias, forget_mapping, remember, cached_or, get_room_mapping_cached,
  unbridge_mapping, unbridge_matrix_room,
}
use matrix_bridge_discord.Rooms.Removal.{Kept, Gone, prefixed-Kept, forget_mapping-Gone}

module _ {S : Type 0} (rows : S → List RoomMapping) (w : World S) where
  -- The mapping that a lookup gives is in the cache or in the rows; it gives none only if the rows
  -- have none.
  abbrev pub Found : String → Option RoomMapping → Type 0
  Found room none = find (λ r. r.matrix_room_id == room) (rows w.db) ≡ none
  Found room (some m) =
      (TimedCache.get w.room_cache room w.now ≡ some m)
      ⊎ (find (λ r. r.matrix_room_id == room) (rows w.db) ≡ some m)

  -- The rows are as before, whatever the cache holds.
  abbrev pub Same : World S → Type 0
  Same w' = rows w'.db ≡ rows w.db

  -- Nothing was bridged and no row has gone, or the row of what was found has, and its room is not in
  -- the cache.
  abbrev pub Unbridged : String → World S → Type 0
  Unbridged room w' =
      ((find (λ r. r.matrix_room_id == room) (rows w.db) ≡ none) × Same w')
      ⊎ ((m : RoomMapping) × Found room (some m)
          × (rows w'.db ≡ retain (λ r. not (eqb r.id m.id)) (rows w.db))
          × ((now : ℕ) → TimedCache.get w'.room_cache m.matrix_room_id now ≡ none))

module _ {S : Type 0} (store : RoomStore S) (rows : S → List RoomMapping)
    (laws : StoreLaws store rows) (to_string : ℤ → String) (outside : Outside S) (options : Options)
    (w : World S) where
  abbrev Looked : String → Option RoomMapping → World S → Type 0
  Looked room found w' = Found rows w room found × Same rows w w'

  remember-Looked :
      (room : String) (found : Option RoomMapping) (w' : World S)
      → found ≡ find (λ r. r.matrix_room_id == room) (rows w.db)
      → Same rows w w'
      → After (Looked room) (Same rows w) (remember store to_string outside options found room w')
  remember-Looked room none w' e s = (sym e, s)
  remember-Looked room (some m) w' e s = (inr (sym e), s)

  cached_or-Looked :
      (room : String) (cached : Option RoomMapping)
      → TimedCache.get w.room_cache room w.now ≡ cached
      → After (Looked room) (Same rows w) (cached_or store to_string outside options room cached w)
  cached_or-Looked room (some m) e = (inl e, refl)
  cached_or-Looked room none e =
      follow-After
        (λ found w'. (found ≡ find (λ r. r.matrix_room_id == room) (rows w.db)) × Same rows w w')
        (Looked room) (Same rows w) (store.get_room_by_matrix_room w.db room) w _
        (After-either _ (Same rows w) (store.get_room_by_matrix_room w.db room) w refl
          (λ found h. (laws.by_room w.db room found h, refl)))
        (λ found w' h. remember-Looked room found w' h.0 h.1)

  -- A cached lookup changes no row, and gives what the cache or the rows have.
  pub get_room_mapping_cached-Looked :
      (room : String)
      → After
          (Looked room)
          (Same rows w)
          (get_room_mapping_cached store to_string outside options room w)
  unfolding get_room_mapping_cached
  get_room_mapping_cached-Looked room =
      cached_or-Looked room (TimedCache.get w.room_cache room w.now) refl

  unset_alias-Kept :
      (b : Bool) (channel : String) (v w' : World S)
      → Kept rows v w'
      → After
          (λ _. Kept rows v)
          (Kept rows v)
          (unset_alias store to_string outside options b channel w')
  unset_alias-Kept true channel v w' k = record {
    same_rows = k.same_rows;
    same_cache = k.same_cache;
  }
  unset_alias-Kept false channel v w' k = k

  unbridge_mapping-Gone :
      (room : String) (m : RoomMapping) (v : World S)
      → After
          (λ _ w'. Gone rows v w' m)
          (Kept rows v)
          (unbridge_mapping store to_string outside options room (some m) v)
  unbridge_mapping-Gone room m v =
      let gone : String → World S → Type 0 = λ _ w'. Gone rows v w' m in
      let named = options.delete_options.name_prefix in
      let topical = options.delete_options.topic_prefix in
      let name = prefixed store to_string outside options room "m.room.name" named v in
      follow-After (λ _. Kept rows v) gone (Kept rows v) name.0 name.1 _
        (prefixed-Kept store rows laws to_string outside options v room "m.room.name" named v
          (record { same_rows = refl; same_cache = refl }))
        (λ _ w1 k1.
          let topic = prefixed store to_string outside options room "m.room.topic" topical w1 in
          follow-After (λ _. Kept rows v) gone (Kept rows v) topic.0 topic.1 _
            (prefixed-Kept store rows laws to_string outside options v room "m.room.topic" topical
              w1 k1)
            (λ _ w2 k2.
              let alias =
                unset_alias store to_string outside options options.delete_options.unset_room_alias
                  m.discord_channel_id w2 in
              follow-After (λ _. Kept rows v) gone (Kept rows v) alias.0 alias.1 _
                (unset_alias-Kept options.delete_options.unset_room_alias m.discord_channel_id v w2
                  k2)
                (λ _ w3 k3.
                  let end =
                    forget_mapping store to_string outside options m.id m.matrix_room_id w3 in
                  follow-After (λ _ w'. Gone rows v w' m) gone (Kept rows v) end.0 end.1 _
                    (forget_mapping-Gone store rows laws to_string outside options v m w3 k3)
                    (λ _ w4 g. g))))

  unbridge_mapping-Unbridged :
      (room : String) (found : Option RoomMapping) (v : World S)
      → Looked room found v
      → After
          (λ _. Unbridged rows w room)
          (Same rows w)
          (unbridge_mapping store to_string outside options room found v)
  unbridge_mapping-Unbridged room none v h = inl h
  unbridge_mapping-Unbridged room (some m) v h =
      After-both (λ _ w'. Gone rows v w' m) (Kept rows v) (λ _. Unbridged rows w room) (Same rows w)
        _ (unbridge_mapping-Gone room m v)
        (λ _ w' g. inr (m, h.0, g.removed ∙ ap (retain (λ r. not (eqb r.id m.id))) h.1, g.uncached))
        (λ w' k. k.same_rows ∙ h.1)

  -- To unbridge a room from Matrix either finds no mapping, and then no row is changed, or takes away
  -- the row of the mapping that the cache or the rows have for the room, and no other, and leaves
  -- nothing for the mapping's room in the cache; and if the task fails, the rows are as before.
  pub unbridge_matrix_room-Unbridged :
      (room : String)
      → After
          (λ _. Unbridged rows w room)
          (Same rows w)
          (unbridge_matrix_room store to_string outside options room w)
  unfolding unbridge_matrix_room
  unbridge_matrix_room-Unbridged room =
      let look = get_room_mapping_cached store to_string outside options room w in
      follow-After (Looked room) (λ _. Unbridged rows w room) (Same rows w) look.0 look.1 _
        (get_room_mapping_cached-Looked room)
        (λ found v h. unbridge_mapping-Unbridged room found v h)
