-- ===== src/Users/Updates.antt =====
-- What an update of a user leaves in the store.
use matrix_bridge_discord.Prelude.{
  ℕ, List, [], ◌∷◌, String, true, false, Option, none, some, ◌≡◌, inl, inr, refl, sym, ◌∙◌, subst,
  arith, if◌then◌else◌, ◌==◌, eq_iff, eqb, eqb_iff, find, map, All, Bool-cases,
}
use matrix_bridge_discord.Rooms.Store.{RoomStore}
use matrix_bridge_discord.Rooms.Tasks.{
  Outside, World, After, follow-After, After-either, After-cases,
}
use matrix_bridge_discord.Users.Store.{UserMapping, UserStore, UserLaws, changed}
use matrix_bridge_discord.Users.{rename_user, handle_discord_user_update}

-- No two users have the number or the Discord identifier in common.
abbrev pub Apart : UserMapping → UserMapping → Type 0
Apart u v = (eqb v.id u.id ≡ false) × ((v.discord_user_id == u.discord_user_id) ≡ false)

abbrev pub Unique : List UserMapping → Type 0
Unique [] = Unit
Unique (u ∷ l) = All (Apart u) l × Unique l

module _ (user username : String) (avatar : Option String) (now : ℕ) where
  abbrev pub renamed : UserMapping → UserMapping
  renamed u =
      if u.discord_user_id == user
      then record u { discord_username = username; discord_avatar = avatar; updated_at = now }
      else u

  abbrev write : UserMapping → UserMapping
  write u = record u { discord_username = username; discord_avatar = avatar; updated_at = now }

  others_kept :
      (u : UserMapping) (l : List UserMapping)
      → u.discord_user_id ≡ user
      → All (Apart u) l
      → map (λ v. if eqb v.id u.id then changed (write u) v else v) l ≡ map renamed l
  others_kept u [] e h = refl
  others_kept u (v ∷ l) e (h, hs) =
      let other : (v.discord_user_id == user) ≡ false =
        subst (λ d. (v.discord_user_id == d) ≡ false) e h.1 in
      rw (h.0, other, others_kept u l e hs) refl

  first_renamed :
      (u : UserMapping) (l : List UserMapping)
      → u.discord_user_id ≡ user
      → All (Apart u) l
      → map (λ v. if eqb v.id u.id then changed (write u) v else v) (u ∷ l) ≡ map renamed (u ∷ l)
  first_renamed u l e h =
      let same : eqb u.id u.id ≡ true = (eqb_iff u.id u.id).1 refl in
      let here : (u.discord_user_id == user) ≡ true = (eq_iff u.discord_user_id user).1 e in
      rw (same, here, others_kept u l e h) refl

  find-Apart :
      (v u : UserMapping) (l : List UserMapping)
      → All (Apart v) l
      → find (λ x. x.discord_user_id == user) l ≡ some u
      → eqb v.id u.id ≡ false
  find-Apart v u [] h e = ground arith
  find-Apart v u (x ∷ l) (h, hs) e = elim (Bool-cases (x.discord_user_id == user)) [
    | inl here ↦
        let same : x ≡ u = let k = rw here at e in ground (arith, k) in
        let other : eqb u.id v.id ≡ false = subst (λ y. eqb y.id v.id ≡ false) same h.0 in
        ground (arith, other)
    | inr later ↦ find-Apart v u l hs (let k = rw later at e in k)
  ]

  -- The row of the user is the one with the number of the row that is found.
  by_number :
      (l : List UserMapping) (u : UserMapping)
      → Unique l
      → find (λ v. v.discord_user_id == user) l ≡ some u
      → map (λ v. if eqb v.id u.id then changed (write u) v else v) l ≡ map renamed l
  by_number [] u h e = refl
  by_number (v ∷ l) u (h, hs) e = elim (Bool-cases (v.discord_user_id == user)) [
    | inl here ↦
        let same : v ≡ u = let k = rw here at e in ground (arith, k) in
        subst
          (λ x.
            map (λ y. if eqb y.id x.id then changed (write x) y else y) (v ∷ l)
            ≡ map renamed (v ∷ l))
          same (first_renamed v l (ground (arith, eq_iff v.discord_user_id user)) h)
    | inr later ↦
        let k : find (λ x. x.discord_user_id == user) l ≡ some u = rw later at e in
        rw (find-Apart v u l h k, later, by_number l u hs k) refl
  ]

  none-renamed :
      (l : List UserMapping) → find (λ v. v.discord_user_id == user) l ≡ none → map renamed l ≡ l
  none-renamed [] e = refl
  none-renamed (v ∷ l) e = elim (Bool-cases (v.discord_user_id == user)) [
    | inl here ↦ let k = rw here at e in ground (arith, k)
    | inr later ↦
        let k : find (λ x. x.discord_user_id == user) l ≡ none = rw later at e in
        rw (later, none-renamed l k) refl
  ]

module _ {S : Type 0} (rooms : RoomStore S) (store : UserStore S) (users : S → List UserMapping)
    (laws : UserLaws store users) (outside : Outside S) where
  rename_user-rows :
      (user username : String) (avatar : Option String) (w : World S) (o : Option UserMapping)
      → Unique (users w.db)
      → find (λ v. v.discord_user_id == user) (users w.db) ≡ o
      → After
          (λ _ w'. users w'.db ≡ map (renamed user username avatar w.now) (users w.db))
          (λ w'. users w'.db ≡ users w.db)
          (rename_user rooms store outside username avatar o w)
  rename_user-rows user username avatar w none unique e =
      sym (none-renamed user username avatar w.now (users w.db) e)
  rename_user-rows user username avatar w (some u) unique e =
      let m : UserMapping = record u {
        discord_username = username;
        discord_avatar = avatar;
        updated_at = w.now;
      } in
      After-cases (λ _ w'. users w'.db ≡ map (renamed user username avatar w.now) (users w.db))
        (λ w'. users w'.db ≡ users w.db) (store.update_user_mapping w.db m).0 _
        (λ _ done.
          laws.updated w.db m done ∙ by_number user username avatar w.now (users w.db) u unique e)
        (λ text failed. laws.not_updated w.db m text failed)

  -- An update of a Discord user sets the name and the avatar of this user, whatever they were, and
  -- changes no other row of the store, nor any if the user has none or the update fails. No two rows
  -- may have their number or their Discord identifier in common.
  pub handle_discord_user_update-rows :
      (user username : String) (avatar : Option String) (w : World S)
      → Unique (users w.db)
      → After
          (λ _ w'. users w'.db ≡ map (renamed user username avatar w.now) (users w.db))
          (λ w'. users w'.db ≡ users w.db)
          (handle_discord_user_update rooms store outside user username avatar w)
  unfolding handle_discord_user_update
  handle_discord_user_update-rows user username avatar w unique =
      let found = store.get_user_by_discord_id w.db user in
      let Asked : Option UserMapping → World S → Type 0 =
        λ o w'. (find (λ v. v.discord_user_id == user) (users w.db) ≡ o) × (w' ≡ w) in
      follow-After Asked
        (λ _ w'. users w'.db ≡ map (renamed user username avatar w.now) (users w.db))
        (λ w'. users w'.db ≡ users w.db) found w _
        (After-either Asked (λ w'. users w'.db ≡ users w.db) found w refl
          (λ o e. (sym (laws.by_discord_id w.db user o e), refl)))
        (λ o w1 h. rw h.1 (rename_user-rows user username avatar w o unique h.0))
