-- ===== src/Messages/Store.antt =====
-- The interface of src/db/stores/mod.rs for the links of messages, and what the bridge relies on.
use matrix_bridge_discord.Prelude.{
  String, Option, none, some, ◌≡◌, Result, ok, err, ◌==◌, if◌then◌else◌,
}
use matrix_bridge_discord.BridgeLogic.{MessageMapping}

pub record MessageStore (S : Type 0) : Type 0 where
  pub get_by_discord_message_id : S → String → Result String (Option MessageMapping)
  pub get_by_matrix_event_id : S → String → Result String (Option MessageMapping)
  pub upsert_message_mapping : S → MessageMapping → Result String (Unit {0}) × S
  pub delete_by_discord_message_id : S → String → Result String (Unit {0}) × S

-- A message on Discord has one link at most: a successful query gives it, an upsert sets it, though
-- with a number and a time of the table's own, a deletion takes it away; what fails
-- changes no link.
pub record LinkLaws {S : Type 0} (store : MessageStore S)
    (link : S → String → Option (String × String)) : Type 0 where
  pub by_discord :
      (s : S) (id : String) (o : Option MessageMapping)
      → store.get_by_discord_message_id s id ≡ ok o
      → elim o [ none ↦ none | some m ↦ some (m.matrix_room_id, m.matrix_event_id) ] ≡ link s id
  pub upserted :
      (s : S) (m : MessageMapping)
      → (store.upsert_message_mapping s m).0 ≡ ok tt
      → (id : String)
      → link (store.upsert_message_mapping s m).1 id ≡ (
          if m.discord_message_id == id
          then some (m.matrix_room_id, m.matrix_event_id)
          else link s id)
  pub not_upserted :
      (s : S) (m : MessageMapping) (e : String)
      → (store.upsert_message_mapping s m).0 ≡ err e
      → (id : String) → link (store.upsert_message_mapping s m).1 id ≡ link s id
  pub deleted :
      (s : S) (gone : String)
      → (store.delete_by_discord_message_id s gone).0 ≡ ok tt
      → (id : String)
      → link (store.delete_by_discord_message_id s gone).1 id
        ≡ (if gone == id then none else link s id)
  pub not_deleted :
      (s : S) (gone e : String)
      → (store.delete_by_discord_message_id s gone).0 ≡ err e
      → (id : String) → link (store.delete_by_discord_message_id s gone).1 id ≡ link s id
