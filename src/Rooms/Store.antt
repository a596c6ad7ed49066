-- ===== src/Rooms/Store.antt =====
-- The interface of src/db/stores/mod.rs that the operations on rooms use, and what they rely on.
use matrix_bridge_discord.Prelude.{
  ℕ, List, [], ◌∷◌, ◌++◌, String, Bool, not, Option, ◌≡◌, Result, ok, err, ◌==◌, find, retain, eqb,
  length, any,
}
use matrix_bridge_discord.BridgeLogic.{RoomMapping}

pub record RoomStore (S : Type 0) : Type 0 where
  pub get_room_by_discord_channel : S → String → Result String (Option RoomMapping)
  pub get_room_by_matrix_room : S → String → Result String (Option RoomMapping)
  pub count_rooms : S → Result String ℕ
  -- `limit` and `offset`.
  pub list_room_mappings : S → ℕ → ℕ → Result String (List RoomMapping)
  pub get_rooms_by_guild : S → String → Result String (List RoomMapping)
  pub update_room_mapping : S → RoomMapping → Result String (Unit {0}) × S
  pub create_room_mapping : S → RoomMapping → Result String (Unit {0}) × S
  pub delete_room_mapping : S → ℕ → Result String (Unit {0}) × S

abbrev pub i64_max : ℕ
i64_max = 9_223_372_036_854_775_807

-- A query that succeeds answers by the rows; a row is added at the end with a number of its own,
-- and a deletion takes the rows with the number. What fails changes nothing.
pub record StoreLaws {S : Type 0} (store : RoomStore S) (rows : S → List RoomMapping) : Type 0 where
  pub by_channel :
      (s : S) (channel : String) (o : Option RoomMapping)
      → store.get_room_by_discord_channel s channel ≡ ok o
      → o ≡ find (λ r. r.discord_channel_id == channel) (rows s)
  pub by_room :
      (s : S) (room : String) (o : Option RoomMapping)
      → store.get_room_by_matrix_room s room ≡ ok o
      → o ≡ find (λ r. r.matrix_room_id == room) (rows s)
  pub count : (s : S) (n : ℕ) → store.count_rooms s ≡ ok n → n ≡ length (rows s)
  -- As many rows as the limit allows, from the offset on, in some order: all of them for `i64::MAX`.
  pub listed :
      (s : S) (l : List RoomMapping)
      → store.list_room_mappings s i64_max 0 ≡ ok l
      → (p : RoomMapping → Bool) → any p l ≡ any p (rows s)
  pub created :
      (s : S) (m : RoomMapping)
      → (store.create_room_mapping s m).0 ≡ ok tt
      → (id : ℕ) × (rows (store.create_room_mapping s m).1 ≡ rows s ++ record m { id = id } ∷ [])
  pub not_created :
      (s : S) (m : RoomMapping) (e : String)
      → (store.create_room_mapping s m).0 ≡ err e
      → rows (store.create_room_mapping s m).1 ≡ rows s
  pub deleted :
      (s : S) (id : ℕ)
      → (store.delete_room_mapping s id).0 ≡ ok tt
      → rows (store.delete_room_mapping s id).1 ≡ retain (λ r. not (eqb r.id id)) (rows s)
  pub not_deleted :
      (s : S) (id : ℕ) (e : String)
      → (store.delete_room_mapping s id).0 ≡ err e
      → rows (store.delete_room_mapping s id).1 ≡ rows s
