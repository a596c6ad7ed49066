-- ===== src/Users/Store.antt =====
-- The interface of src/db/stores/mod.rs for users, and what the bridge relies on.
use matrix_bridge_discord.Prelude.{
  ℕ, List, String, Option, ◌≡◌, Result, ok, err, ◌==◌, find, eqb, map, if◌then◌else◌,
}

-- db/models.rs
pub record UserMapping : Type 0 where
  pub id : ℕ
  pub matrix_user_id : String
  pub discord_user_id : String
  pub discord_username : String
  pub discord_discriminator : String
  pub discord_avatar : Option String
  pub created_at : ℕ
  pub updated_at : ℕ

pub record UserStore (S : Type 0) : Type 0 where
  pub get_user_by_discord_id : S → String → Result String (Option UserMapping)
  pub create_user_mapping : S → UserMapping → Result String (Unit {0}) × S
  pub update_user_mapping : S → UserMapping → Result String (Unit {0}) × S

-- The columns that an update writes: the name, the discriminator, the avatar and the time.
abbrev pub changed : UserMapping → UserMapping → UserMapping
changed m u = record u {
  discord_username = m.discord_username;
  discord_discriminator = m.discord_discriminator;
  discord_avatar = m.discord_avatar;
  updated_at = m.updated_at;
}

-- A query that succeeds answers by the rows; an update changes the rows with the number. What fails
-- changes nothing.
pub record UserLaws {S : Type 0} (store : UserStore S) (users : S → List UserMapping) : Type 0 where
  pub by_discord_id :
      (s : S) (id : String) (o : Option UserMapping)
      → store.get_user_by_discord_id s id ≡ ok o
      → o ≡ find (λ u. u.discord_user_id == id) (users s)
  pub updated :
      (s : S) (m : UserMapping)
      → (store.update_user_mapping s m).0 ≡ ok tt
      → users (store.update_user_mapping s m).1
        ≡ map (λ u. if eqb u.id m.id then changed m u else u) (users s)
  pub not_updated :
      (s : S) (m : UserMapping) (e : String)
      → (store.update_user_mapping s m).0 ≡ err e
      → users (store.update_user_mapping s m).1 ≡ users s
