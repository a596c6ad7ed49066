-- ===== src/MatrixMembers/Moderated.antt =====
-- What an event of a member may do on Discord.
use matrix_bridge_discord.Prelude.{
  ℕ, List, [], ◌∷◌, ◌++◌, String, Bool, true, false, not, Option, none, some, ◌≡◌, ◌⊎◌, inl, inr,
  refl, sym, ap, arith, append_assoc, if◌then◌else◌, ℤ, ◌==◌, ◌&&◌, ◌||◌, eq_iff, find, ltb,
  unwrap_or, Bool-cases,
}
use matrix_bridge_discord.HashMap.{string_eq}
use matrix_bridge_discord.TimedCache
use matrix_bridge_discord.BridgeLogic.{RoomMapping}
use matrix_bridge_discord.MessageFlow.{Json, MatrixEvent, get_str}
use matrix_bridge_discord.Rooms.{Options, get_room_mapping_cached, cached_or, remember}
use matrix_bridge_discord.Rooms.Store.{RoomStore, StoreLaws}
use matrix_bridge_discord.Rooms.Unbridging.{Found}
use matrix_bridge_discord.Rooms.Tasks.{
  Call, join_room, send_message, deny_channel_member_permissions, clear_channel_member_overwrite,
  Outside, World, Task, After, follow-After, After-either, ◌>>=◌, ◌>>=◌,
}
use matrix_bridge_discord.FromMatrix.Profile.{is_namespaced_user}
use matrix_bridge_discord.MatrixMembers.{
  discord_user_id_from_mxid, moderation_notice, deny_and_tell, deny_ghost, moderate_in, removed,
  is_bot, with_membership, with_content, handle_matrix_member,
}

module _ {S : Type 0} (rows : S → List RoomMapping) (domain bot : String) (kick_for : ℕ)
    (json : Json) (event : MatrixEvent json) (w : World S) where
  abbrev pub restoration : String → String → String → List Call
  restoration membership channel user =
      if membership == "leave" && ltb 0 kick_for
      then clear_channel_member_overwrite kick_for channel user ∷ []
      else []

  -- A ghost of the bridge has been removed from a bridged room by a Matrix user: its Discord user is
  -- denied in the room's channel, the channel is told, and a kick is taken back in time.
  pub record Denied (w' : World S) : Type 0 where
    pub content : json.Value
    pub membership : String
    pub said : get_str json content "membership" ≡ some membership
    pub kind : (membership == "leave" || membership == "ban") ≡ true
    pub target : String
    pub of_target : event.state_key ≡ some target
    pub by_another : (event.sender == target) ≡ false
    pub by_no_ghost : is_namespaced_user event.sender ≡ false
    pub room : RoomMapping
    pub bridged : Found rows w event.room_id (some room)
    pub user : String
    pub ghost : discord_user_id_from_mxid domain target ≡ some user
    pub calls :
        w'.calls
        ≡ w.calls
          ++ deny_channel_member_permissions room.discord_channel_id user
            ∷ send_message room.discord_channel_id (
                moderation_notice target membership event.sender
                  (unwrap_or (get_str json content "reason") "No reason provided"))
            ∷ restoration membership room.discord_channel_id user

  -- The bridge's own user has been invited and joins.
  abbrev pub Joined : World S → Type 0
  Joined w' = (event.state_key ≡ some bot) × (w'.calls ≡ w.calls ++ join_room event.room_id ∷ [])

  abbrev pub Calm : World S → Type 0
  Calm w' = w'.calls ≡ w.calls

  abbrev pub Outcome : World S → Type 0
  Outcome w' = Calm w' ⊎ Joined w' ⊎ Denied w'

module _ {S : Type 0} (rooms : RoomStore S) (rows : S → List RoomMapping)
    (laws : StoreLaws rooms rows) (to_string : ℤ → String) (outside : Outside S) (options : Options)
    (bot : String) (kick_for : ℕ) (quiet : Bool) (json : Json) (event : MatrixEvent json)
    (w : World S) where
  abbrev Looked : Option RoomMapping → World S → Type 0
  Looked o w' = Found rows w event.room_id o × (w'.calls ≡ w.calls)

  remember-Looked :
      (o : Option RoomMapping) (w' : World S)
      → Found rows w event.room_id o
      → w'.calls ≡ w.calls
      → After Looked
          (λ w'. w'.calls ≡ w.calls)
          (remember rooms to_string outside options o event.room_id w')
  remember-Looked none w' e same = (e, same)
  remember-Looked (some m) w' e same = (e, same)

  found_row :
      (o : Option RoomMapping)
      → o ≡ find (λ r. r.matrix_room_id == event.room_id) (rows w.db)
      → Found rows w event.room_id o
  found_row none e = sym e
  found_row (some m) e = inr (sym e)

  cached_or-Looked :
      (o : Option RoomMapping)
      → TimedCache.get w.room_cache event.room_id w.now ≡ o
      → After Looked
          (λ w'. w'.calls ≡ w.calls)
          (cached_or rooms to_string outside options event.room_id o w)
  cached_or-Looked (some m) e = (inl e, refl)
  cached_or-Looked none e =
      let found = rooms.get_room_by_matrix_room w.db event.room_id in
      follow-After
        (λ o w'.
          (o ≡ find (λ r. r.matrix_room_id == event.room_id) (rows w.db)) × (w'.calls ≡ w.calls))
        Looked (λ w'. w'.calls ≡ w.calls) found w _
        (After-either _ (λ w'. w'.calls ≡ w.calls) found w refl
          (λ o h. (laws.by_room w.db event.room_id o h, refl)))
        (λ o w1 h. remember-Looked o w1 (found_row o h.0) h.1)

  lookup-Looked :
      After Looked
        (λ w'. w'.calls ≡ w.calls)
        (get_room_mapping_cached rooms to_string outside options event.room_id w)
  unfolding get_room_mapping_cached
  lookup-Looked = cached_or-Looked (TimedCache.get w.room_cache event.room_id w.now) refl

  abbrev Ends : World S → Type 0
  Ends = Outcome rows options.domain bot kick_for json event w

  abbrev End : Task S (Unit {0}) → World S → Type 0
  End t w' = After (λ _. Ends) (λ w''. w''.calls ≡ w.calls) (t w')

  module _ (content : json.Value) (membership target : String)
      (said : get_str json content "membership" ≡ some membership)
      (kind : (membership == "leave" || membership == "ban") ≡ true)
      (of_target : event.state_key ≡ some target) (by_another : (event.sender == target) ≡ false)
      (by_no_ghost : is_namespaced_user event.sender ≡ false) where
    deny_and_tell-Ends :
        (m : RoomMapping) (user : String) (w' : World S)
        → Found rows w event.room_id (some m)
        → discord_user_id_from_mxid options.domain target ≡ some user
        → w'.calls ≡ w.calls
        → End
            (deny_and_tell rooms to_string outside options bot kick_for quiet json event content
              membership target m.discord_channel_id user)
            w'
    deny_and_tell-Ends m user w' bridged ghost same =
        elim (Bool-cases (membership == "leave" && ltb 0 kick_for)) [
          | inl later ↦ rw later (
              inr (
                inr record {
                  content = content;
                  membership = membership;
                  said = said;
                  kind = kind;
                  target = target;
                  of_target = of_target;
                  by_another = by_another;
                  by_no_ghost = by_no_ghost;
                  room = m;
                  bridged = bridged;
                  user = user;
                  ghost = ghost;
                  calls = rw (later, same, append_assoc, append_assoc) refl;
                }))
          | inr never ↦ rw never (
              inr (
                inr record {
                  content = content;
                  membership = membership;
                  said = said;
                  kind = kind;
                  target = target;
                  of_target = of_target;
                  by_another = by_another;
                  by_no_ghost = by_no_ghost;
                  room = m;
                  bridged = bridged;
                  user = user;
                  ghost = ghost;
                  calls = rw (never, same, append_assoc) refl;
                }))
        ]

    deny_ghost-Ends :
        (m : RoomMapping) (o : Option String) (w' : World S)
        → Found rows w event.room_id (some m)
        → discord_user_id_from_mxid options.domain target ≡ o
        → w'.calls ≡ w.calls
        → End
            (deny_ghost rooms to_string outside options bot kick_for quiet json event content
              membership target m o)
            w'
    deny_ghost-Ends m none w' bridged ghost same = inl same
    deny_ghost-Ends m (some user) w' bridged ghost same =
        deny_and_tell-Ends m user w' bridged ghost same

    moderate_in-Ends :
        (o : Option RoomMapping) (w' : World S)
        → Looked o w'
        → End
            (moderate_in rooms to_string outside options bot kick_for quiet json event content
              membership target o)
            w'
    moderate_in-Ends none w' h = inl h.1
    moderate_in-Ends (some m) w' h =
        deny_ghost-Ends m (discord_user_id_from_mxid options.domain target) w' h.0 refl h.1

    looked_up-Ends :
        End
          (get_room_mapping_cached rooms to_string outside options event.room_id
            >>= moderate_in rooms to_string outside options bot kick_for quiet json event content
                membership target)
          w
    looked_up-Ends =
        let found = get_room_mapping_cached rooms to_string outside options event.room_id w in
        follow-After Looked (λ _. Ends) (λ w'. w'.calls ≡ w.calls) found.0 found.1 _ lookup-Looked
          (λ o w' h. moderate_in-Ends o w' h)

  removed-Ends :
      (content : json.Value) (membership : String) (o : Option String)
      → get_str json content "membership" ≡ some membership
      → event.state_key ≡ o
      → is_namespaced_user event.sender ≡ false
      → End
          (removed rooms to_string outside options bot kick_for quiet json event content membership
            o)
          w
  removed-Ends content membership none said of_target by_no_ghost = inl refl
  removed-Ends content membership (some target) said of_target by_no_ghost =
      elim (Bool-cases
        ((membership == "leave" || membership == "ban") && not (event.sender == target))) [
          | inl both ↦ rw both (
              looked_up-Ends content membership target said (ground arith) of_target (ground arith)
                by_no_ghost)
          | inr other ↦ rw other (inl refl)
        ]

  bot_key :
      (o : Option String)
      → is_bot rooms to_string outside options bot kick_for quiet json o ≡ true
      → o ≡ some bot
  bot_key none h = ground arith
  bot_key (some key) h = ap some (ground (arith, eq_iff key bot))

  with_membership-Ends :
      (content : json.Value) (o : Option String)
      → get_str json content "membership" ≡ o
      → End
          (with_membership rooms to_string outside options bot kick_for quiet json event content o)
          w
  with_membership-Ends content none said = inl refl
  with_membership-Ends content (some membership) said =
      elim (Bool-cases (
        membership == "invite"
        && is_bot rooms to_string outside options bot kick_for quiet json event.state_key)) [
          | inl invited ↦ rw invited (inr (inl (bot_key event.state_key (ground arith), refl)))
          | inr not_invited ↦ elim (Bool-cases (is_namespaced_user event.sender)) [
            | inl echo ↦ rw (not_invited, echo) (inl refl)
            | inr no_ghost ↦
                rw (not_invited, no_ghost)
                  (removed-Ends content membership event.state_key said refl no_ghost)
          ]
        ]

  with_content-Ends :
      (o : Option json.Value)
      → End (with_content rooms to_string outside options bot kick_for quiet json event o) w
  with_content-Ends none = inl refl
  with_content-Ends (some content) = elim (Bool-cases (json.is_object content)) [
    | inl is ↦ rw is (with_membership-Ends content (get_str json content "membership") refl)
    | inr is_not ↦ rw is_not (inl refl)
  ]

  -- An event of a member has one of three outcomes. Nothing is called; or the bridge's own user was
  -- the target and joins the room; or a ghost of the bridge was kicked or banned from a bridged room
  -- by another user, who is no ghost, and its Discord user is denied in the room's channel, which is
  -- told, and after a kick, not after a ban, the denial is taken back in the configured time, if
  -- there is one. An event whose room cannot be looked up calls nothing.
  pub handle_matrix_member-Outcome :
      After
        (λ _ w'. Outcome rows options.domain bot kick_for json event w w')
        (λ w'. w'.calls ≡ w.calls)
        (handle_matrix_member rooms to_string outside options bot kick_for quiet json event w)
  unfolding handle_matrix_member
  handle_matrix_member-Outcome = with_content-Ends event.content
