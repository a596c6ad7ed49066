-- ===== src/UserSync/Application.antt =====
-- What the synchronisation of a user that has a row leaves in the store.
use Prim.Native.String
use matrix_bridge_discord.Prelude.{
  List, [], ◌∷◌, String, Bool, true, false, Option, none, some, ◌≡◌, refl, ap, ◌∙◌, if◌then◌else◌,
  Result, ok, err, ◌==◌, ◌||◌, eqb, find, map, All, is_nil, is_some, inl, inr,
}
use matrix_bridge_discord.BridgeLogic.{RoomMapping}
use matrix_bridge_discord.Rooms.Store.{RoomStore, i64_max}
use matrix_bridge_discord.Rooms.Tasks.{
  Call, ensure_ghost_user_registered, set_ghost_displayname, set_ghost_room_displayname,
  set_ghost_room_avatar, set_ghost_room_roles, Outside, MediaInfo, World, Task, give, perform,
  After, follow-After, After-either, After-cases, After-both, Result-cases, ◌>>=◌,
}
use matrix_bridge_discord.Users.Store.{UserMapping, UserStore, UserLaws, changed}
use matrix_bridge_discord.UserSync.{
  UserState, changed_state, mxid_extra, displayname_of, get_user_update_state, user_mapping, save,
  when_some, set_uploaded, upload_avatar, set_avatar, clear_avatar, show_profile,
  apply_state_to_profile, perform_some, apply_state_to_room, apply_to_each, update_state_for_guilds,
  on_user_update,
}

-- A task that leaves the store as it finds it, whether it ends or fails.
abbrev pub Keeps : {S A : Type 0} → Task S A → Type 0
Keeps t = (w : World _) → After (λ _ w'. w'.db ≡ w.db) (λ w'. w'.db ≡ w.db) (t w)

module _ {S A B : Type 0} where
  pub bind-Keeps :
      (t : Task S A) (k : A → Task S B) → Keeps t → ((a : A) → Keeps (k a)) → Keeps (t >>= k)
  bind-Keeps t k first later w =
      follow-After (λ _ w'. w'.db ≡ w.db) (λ _ w'. w'.db ≡ w.db) (λ w'. w'.db ≡ w.db) (t w).0
        (t w).1 k (first w)
        (λ a w1 h.
          After-both (λ _ w'. w'.db ≡ w1.db) (λ w'. w'.db ≡ w1.db) (λ _ w'. w'.db ≡ w.db)
            (λ w'. w'.db ≡ w.db) (k a w1) (later a w1) (λ _ _ e. e ∙ h) (λ _ e. e ∙ h))

module _ {S : Type 0} (rooms : RoomStore S) (store : UserStore S) (outside : Outside S)
    (username_pattern domain : String) (order : List RoomMapping → List RoomMapping) where
  perform-Keeps : (c : Call) → Keeps {S = S} (perform outside.done c)
  perform-Keeps c w = After-either _ _ (outside.done w.calls c) _ refl (λ _ _. refl)

  when_some-Keeps :
      (o : Option String) (call_of : String → Call)
      → Keeps (when_some rooms store outside username_pattern domain order o call_of)
  when_some-Keeps none call_of w = refl
  when_some-Keeps (some text) call_of w = refl

  set_uploaded-Keeps :
      (id : String) (uploaded : Result String String)
      → Keeps (set_uploaded rooms store outside username_pattern domain order id uploaded)
  set_uploaded-Keeps id (err e) w = refl
  set_uploaded-Keeps id (ok url) w = refl

  upload_avatar-Keeps :
      (id : String) (media : Result String MediaInfo)
      → Keeps (upload_avatar rooms store outside username_pattern domain order id media)
  upload_avatar-Keeps id (err e) w = refl
  upload_avatar-Keeps id (ok media) w = set_uploaded-Keeps id (outside.uploaded w.calls media) _

  set_avatar-Keeps :
      (id : String) (o : Option String)
      → Keeps (set_avatar rooms store outside username_pattern domain order id o)
  set_avatar-Keeps id none w = refl
  set_avatar-Keeps id (some url) w = upload_avatar-Keeps id (outside.media w.calls url) _

  clear_avatar-Keeps :
      (id : String) (b : Bool)
      → Keeps (clear_avatar rooms store outside username_pattern domain order id b)
  clear_avatar-Keeps id false w = refl
  clear_avatar-Keeps id true w = refl

  show_profile-Keeps :
      (state : UserState)
      → Keeps (show_profile rooms store outside username_pattern domain order state)
  show_profile-Keeps state =
      bind-Keeps _ _ (perform-Keeps (ensure_ghost_user_registered state.id state.displayname)) (λ _.
        bind-Keeps _ _ (when_some-Keeps state.displayname (set_ghost_displayname state.id)) (λ _.
          bind-Keeps _ _ (set_avatar-Keeps state.id state.avatar_url)
            (λ _. clear_avatar-Keeps state.id state.remove_avatar)))

  perform_some-Keeps :
      (o : Option String) (call_of : String → Call)
      → Keeps (perform_some rooms store outside username_pattern domain order o call_of)
  perform_some-Keeps none call_of w = refl
  perform_some-Keeps (some text) call_of w = perform-Keeps (call_of text) w

  roles-Keeps :
      (state : UserState) (room : String) (b : Bool)
      → Keeps {S = S} (
          if b
          then give tt
          else perform outside.done (set_ghost_room_roles state.id room state.roles))
  roles-Keeps state room true w = refl
  roles-Keeps state room false w = perform-Keeps (set_ghost_room_roles state.id room state.roles) w

  apply_state_to_room-Keeps :
      (state : UserState) (room : String)
      → Keeps (apply_state_to_room rooms store outside username_pattern domain order state room)
  apply_state_to_room-Keeps state room =
      bind-Keeps _ _
        (perform_some-Keeps state.displayname (set_ghost_room_displayname state.id room))
        (λ _.
          bind-Keeps _ _ (perform_some-Keeps state.avatar_url (set_ghost_room_avatar state.id room))
            (λ _. roles-Keeps state room (is_nil state.roles)))

  either_way :
      {A : Type 0} (s : S) (x : Result String A × World S)
      → After (λ _ w'. w'.db ≡ s) (λ w'. w'.db ≡ s) x
      → x.1.db ≡ s
  either_way s (ok a, w) h = h
  either_way s (err e, w) h = h

  apply_to_each-Keeps :
      (state : UserState) (l : List RoomMapping)
      → Keeps (apply_to_each rooms store outside username_pattern domain order state l)
  apply_to_each-Keeps state [] w = refl
  apply_to_each-Keeps state (m ∷ l) w =
      let one =
        apply_state_to_room rooms store outside username_pattern domain order state m.matrix_room_id
          w in
      let same = either_way w.db one (apply_state_to_room-Keeps state m.matrix_room_id w) in
      After-both (λ _ w'. w'.db ≡ one.1.db) (λ w'. w'.db ≡ one.1.db) (λ _ w'. w'.db ≡ w.db)
        (λ w'. w'.db ≡ w.db) _ (apply_to_each-Keeps state l one.1) (λ _ _ e. e ∙ same)
        (λ _ e. e ∙ same)

  update_state_for_guilds-Keeps :
      (state : UserState)
      → Keeps (update_state_for_guilds rooms store outside username_pattern domain order state)
  unfolding update_state_for_guilds
  update_state_for_guilds-Keeps state =
      bind-Keeps _ _
        (λ w. After-either _ _ (rooms.list_room_mappings w.db i64_max 0) w refl (λ _ _. refl))
        (λ l. apply_to_each-Keeps state (order l))

  guilds_if-Keeps :
      (state : UserState) (b : Bool)
      → Keeps (
          if b
          then update_state_for_guilds rooms store outside username_pattern domain order state
          else give tt)
  guilds_if-Keeps state true w = update_state_for_guilds-Keeps state w
  guilds_if-Keeps state false w = refl

  module _ (users : S → List UserMapping) (laws : UserLaws store users) where
    no_number :
        (m : UserMapping) (l : List UserMapping)
        → All (λ u. eqb u.id m.id ≡ false) l
        → map (λ u. if eqb u.id m.id then changed m u else u) l ≡ l
    no_number m [] h = refl
    no_number m (u ∷ l) (h, hs) = rw (h, no_number m l hs) refl

    abbrev SameRows : World S → World S → Type 0
    SameRows w w' = users w'.db ≡ users w.db

    -- The update is that of a row with the number 0.
    save-rows :
        (state : UserState) (w : World S)
        → state.create_user ≡ false
        → All (λ u. eqb u.id 0 ≡ false) (users w.db)
        → After
            (λ _. SameRows w)
            (SameRows w)
            (save rooms store outside username_pattern domain order state w)
    save-rows state w known numbered =
        let m = user_mapping rooms store outside username_pattern domain order state w.now in
        rw known (
          After-cases (λ _. SameRows w) (SameRows w) (store.update_user_mapping w.db m).0 _
            (λ _ done. laws.updated w.db m done ∙ no_number m (users w.db) numbered)
            (λ text failed. laws.not_updated w.db m text failed))

    rows_kept :
        {A : Type 0} (w w1 : World S)
        → SameRows w w1
        → (x : Result String A × World S) → After (λ _ w'. w'.db ≡ w1.db) (λ w'. w'.db ≡ w1.db) x
        → After (λ _. SameRows w) (SameRows w) x
    rows_kept w w1 h (ok a, w') e = ap users e ∙ h
    rows_kept w w1 h (err text, w') e = ap users e ∙ h

    -- Whatever follows leaves the store alone.
    then-rows :
        (state : UserState) (w : World S) (t : Task S (Unit {0}))
        → Keeps t
        → state.create_user ≡ false
        → All (λ u. eqb u.id 0 ≡ false) (users w.db)
        → After
            (λ _. SameRows w)
            (SameRows w)
            ((apply_state_to_profile rooms store outside username_pattern domain order state
                >>= λ _. t)
              w)
    unfolding apply_state_to_profile
    then-rows state w t keeps known numbered =
        let saved = save rooms store outside username_pattern domain order state w in
        let shown = show_profile rooms store outside username_pattern domain order state in
        let both =
          apply_state_to_profile rooms store outside username_pattern domain order state w in
        let Same : World S → Type 0 = SameRows w in
        follow-After (λ _. Same) (λ _. Same) Same both.0 both.1 _
          (follow-After (λ _. Same) (λ _. Same) Same saved.0 saved.1 _
            (save-rows state w known numbered)
            (λ _ w1 h. rows_kept w w1 h (shown w1) (show_profile-Keeps state w1)))
          (λ _ w2 h. rows_kept w w2 h (t w2) (keeps w2))

    -- If no row has the number 0, an update of a user who has a row changes no row of the store,
    -- neither the name nor the avatar, whether it ends or fails.
    pub on_user_update-rows :
        (user : String) (username avatar : Option String) (is_webhook : Bool) (w : World S)
        (u : UserMapping)
        → find
            (λ v. v.discord_user_id == String.◌++◌ user (mxid_extra username is_webhook))
            (users w.db)
          ≡ some u
        → All (λ v. eqb v.id 0 ≡ false) (users w.db)
        → After
            (λ _ w'. users w'.db ≡ users w.db)
            (λ w'. users w'.db ≡ users w.db)
            (on_user_update rooms store outside username_pattern domain order user username avatar
              is_webhook w)
    unfolding on_user_update get_user_update_state
    on_user_update-rows user username avatar is_webhook w u known numbered =
        let id = String.◌++◌ user (mxid_extra username is_webhook) in
        let found = store.get_user_by_discord_id w.db id in
        elim (Result-cases found) [
          | inl (o, e) ↦
              let same : o ≡ some u = laws.by_discord_id w.db id o e ∙ known in
              let state =
                changed_state id
                  (displayname_of rooms store outside username_pattern domain order user username)
                  avatar u in
              rw (e, same)
                (then-rows state w _
                  (guilds_if-Keeps state (is_some state.displayname || is_some state.avatar_url))
                  refl numbered)
          | inr (text, e) ↦ rw e refl
        ]
