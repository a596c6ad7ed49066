-- ===== src/Rooms/Limit.antt =====
-- How many rooms may be bridged.
use matrix_bridge_discord.Prelude.{
  ℕ, suc, ◌≤◌, ◌<◌, List, [], ◌∷◌, String, Option, none, some, ◌≡◌, ap, arith, if◌then◌else◌,
  Result, ok, err, ℤ, pos, is_negative, count_ge, length, length-append, inl, inr,
}
use matrix_bridge_discord.BridgeLogic.{RoomMapping}
use matrix_bridge_discord.Provisioning.{
  ProvisioningError, timed_out, declined, delivery_failed, cancelled,
}
use matrix_bridge_discord.Rooms.Store.{RoomStore, StoreLaws}
use matrix_bridge_discord.Rooms.Tasks.{
  Call, Outside, DiscordChannel, World, Task, After, follow-After, After-either, Result-cases,
}
use matrix_bridge_discord.Rooms.{
  Options, check_room_limit, unless_answered, with_channel, mapping_of, save_channel, refusal,
  bridge_matrix_room, permitted, ask_and_bridge, when_free, when_room_and_free,
  request_bridge_matrix_room, request_bridge_discord_channel,
}

-- At most `limit` rooms are bridged.
abbrev pub Within : {S : Type 0} → (S → List RoomMapping) → ℕ → World S → Type 0
Within rows limit w = length (rows w.db) ≤ limit

module _ {S : Type 0} (store : RoomStore S) (rows : S → List RoomMapping)
    (laws : StoreLaws store rows) where
  created_count :
      (s : S) (m : RoomMapping) (limit : ℕ)
      → length (rows s) < limit
      → length (rows (store.create_room_mapping s m).1) ≤ limit
  created_count s m limit h = elim (Result-cases (store.create_room_mapping s m).0) [
    | inl (_, e) ↦
        let (id, same) = laws.created s m e in
        rw same (omega (arith, length-append (rows s) (record m { id = id } ∷ [])))
    | inr (text, e) ↦ rw (laws.not_created s m text e) (omega arith)
  ]

-- There is room for one more, unless the answer is given.
module _ {S : Type 0} (rows : S → List RoomMapping) (limit : ℕ) where
  -- Fewer rooms are bridged than may be.
  abbrev pub Room : World S → Type 0
  Room w = length (rows w.db) < limit

  abbrev pub Checked : Option String → World S → Type 0
  Checked none w = length (rows w.db) < limit
  Checked (some text) w = length (rows w.db) ≤ limit

  counted :
      (z : ℤ) (text : String) (w : World S) (n : ℕ)
      → z ≡ pos limit
      → n ≡ length (rows w.db)
      → length (rows w.db) ≤ limit
      → Checked (if count_ge n z then some text else none) w
  counted z text w n e h v = rw e (ground arith)

module _ {S : Type 0} (store : RoomStore S) (rows : S → List RoomMapping)
    (laws : StoreLaws store rows) (to_string : ℤ → String) (outside : Outside S) (options : Options)
    (limit : ℕ) (limited : options.room_count ≡ pos limit)
    (adds_none : (w : World S) → length (rows (outside.others w).db) ≤ length (rows w.db)) where
  check_room_limit-Checked :
      (w : World S)
      → Within rows limit w
      → After
          (Checked rows limit)
          (Within rows limit)
          (check_room_limit store to_string outside options w)
  unfolding check_room_limit
  check_room_limit-Checked w v = rw (ap is_negative limited) (
      follow-After (λ n w'. (n ≡ length (rows w'.db)) × Within rows limit w') (Checked rows limit)
        (Within rows limit) (store.count_rooms w.db) w _
        (After-either _ (Within rows limit) (store.count_rooms w.db) w v
          (λ n e. (laws.count w.db n e, v)))
        (λ n w' h. counted rows limit options.room_count _ w' n limited h.0 h.1))

  abbrev Done : String → World S → Type 0
  Done text w = Within rows limit w

  ended-Within :
      (x : Result String String × World S)
      → After Done (Within rows limit) x
      → Within rows limit x.1
  ended-Within (ok text, w) h = h
  ended-Within (err e, w) h = h

  save_channel-Within :
      (room guild_id : String) (channel : DiscordChannel) (w : World S)
      → Room rows limit w
      → After Done
          (Within rows limit)
          (save_channel store to_string outside options room guild_id channel w)
  save_channel-Within room guild_id channel w h =
      let m = mapping_of store to_string outside options room guild_id channel w.now in
      let within = created_count store rows laws w.db m limit h in
      follow-After (λ _. Within rows limit) Done (Within rows limit)
        (store.create_room_mapping w.db m).0
        (record w { db = (store.create_room_mapping w.db m).1 }) _
        (After-either _ _ (store.create_room_mapping w.db m).0 _ within (λ _ _. within))
        (λ _ w' k. k)

  with_channel-Within :
      (found : Option DiscordChannel) (k : DiscordChannel → Task S String) (missing : String)
      (w : World S)
      → Room rows limit w
      → ((c : DiscordChannel) → After Done (Within rows limit) (k c w))
      → After Done
          (Within rows limit)
          (with_channel store to_string outside options missing found k w)
  with_channel-Within none k missing w h next = omega arith
  with_channel-Within (some c) k missing w h next = next c

  unless_answered-Within :
      (text : Option String) (rest : Task S String) (w : World S)
      → Checked rows limit text w
      → (Room rows limit w → After Done (Within rows limit) (rest w))
      → After Done (Within rows limit) (unless_answered store to_string outside options text rest w)
  unless_answered-Within none rest w h next = next h
  unless_answered-Within (some text) rest w h next = h

  refusal-Checked :
      (text : String) (mapped : Option RoomMapping) (w : World S)
      → Room rows limit w
      → Checked rows limit (refusal store to_string outside options text mapped) w
  refusal-Checked text none w h = h
  refusal-Checked text (some m) w h = omega arith

  when_free-Within :
      (taken missing channel_id : String) (k : DiscordChannel → Task S String) (w : World S)
      → Room rows limit w
      → ((c : DiscordChannel) (w' : World S)
          → Room rows limit w'
          → After Done (Within rows limit) (k c w'))
      → After Done
          (Within rows limit)
          (when_free store to_string outside options taken missing channel_id k w)
  when_free-Within taken missing channel_id k w room next =
      follow-After (λ _. Room rows limit) Done (Within rows limit)
        (store.get_room_by_discord_channel w.db channel_id) w _
        (After-either _ _ (store.get_room_by_discord_channel w.db channel_id) w (omega arith)
          (λ _ _. room))
        (λ mapped w2 room2.
          unless_answered-Within (refusal store to_string outside options taken mapped) _ w2
            (refusal-Checked taken mapped w2 room2)
            (λ _.
              follow-After (λ _. Room rows limit) Done (Within rows limit)
                (outside.channel w2.calls channel_id) _ _
                (After-either _ _ (outside.channel w2.calls channel_id) _ (omega arith)
                  (λ _ _. room2))
                (λ found w3 room3.
                  with_channel-Within found k missing w3 room3 (λ c. next c w3 room3))))

  when_room_and_free-Within :
      (channel_id : String) (k : DiscordChannel → Task S String) (w : World S)
      → Within rows limit w
      → ((c : DiscordChannel) (w' : World S)
          → Room rows limit w'
          → After Done (Within rows limit) (k c w'))
      → After Done
          (Within rows limit)
          (when_room_and_free store to_string outside options channel_id k w)
  when_room_and_free-Within channel_id k w v next =
      let outcome = check_room_limit store to_string outside options w in
      follow-After (Checked rows limit) Done (Within rows limit) outcome.0 outcome.1 _
        (check_room_limit-Checked w v)
        (λ text w1 h1. unless_answered-Within text _ w1 h1 (λ room1.
          when_free-Within _ _ channel_id (λ c w'. k c (outside.others w')) (outside.others w1)
            (omega (arith, adds_none w1))
            (λ c w' room'. next c (outside.others w') (omega (arith, adds_none w')))))

  bridge_matrix_room-Within :
      (room guild_id channel_id : String) (w : World S)
      → Within rows limit w
      → After Done
          (Within rows limit)
          (bridge_matrix_room store to_string outside options room guild_id channel_id w)
  unfolding bridge_matrix_room
  bridge_matrix_room-Within room guild_id channel_id w v =
      when_room_and_free-Within channel_id _ w v (save_channel-Within room guild_id)

  permitted-Within :
      (room guild_id channel_id : String) (answer : Result ProvisioningError (Unit {0}))
      (w : World S)
      → Within rows limit w
      → After Done
          (Within rows limit)
          (permitted store to_string outside options room guild_id channel_id answer w)
  permitted-Within room guild_id channel_id (ok _) w v =
      bridge_matrix_room-Within room guild_id channel_id w v
  permitted-Within room guild_id channel_id (err timed_out) w v = v
  permitted-Within room guild_id channel_id (err declined) w v = v
  permitted-Within room guild_id channel_id (err delivery_failed) w v = v
  permitted-Within room guild_id channel_id (err cancelled) w v = v

  asked-Within :
      (room requestor guild_id channel_id : String) (c : DiscordChannel) (w : World S)
      → Within rows limit w
      → After Done
          (Within rows limit)
          (ask_and_bridge store to_string outside options room requestor guild_id channel_id c w)
  asked-Within room requestor guild_id channel_id c w v =
      follow-After (λ _. Within rows limit) Done (Within rows limit) (outside.done w.calls _) _ _
        (After-either _ _ (outside.done w.calls _) _ v (λ _ _. v))
        (λ _ w2 h.
          permitted-Within room guild_id channel_id (outside.permission w2.calls c.id)
            (outside.others _) (omega (arith, adds_none _)))

  -- With a limit of rooms, a request to bridge a room does not take the bridge over it, not when it
  -- succeeds, fails or is refused, if what other tasks do while this one waits leaves no more
  -- rows than it finds: while it waits for the permission, and between a check of the limit and what
  -- follows it.
  pub request_bridge_matrix_room-Within :
      (room requestor guild_id channel_id : String) (w : World S)
      → Within rows limit w
      → Within rows limit
          (request_bridge_matrix_room store to_string outside options room requestor guild_id
            channel_id w).1
  unfolding request_bridge_matrix_room
  request_bridge_matrix_room-Within room requestor guild_id channel_id w v = ended-Within _ (
      when_room_and_free-Within channel_id _ w v
        (λ c w' room'. asked-Within room requestor guild_id channel_id c w' (omega arith)))

module _ {S : Type 0} (store : RoomStore S) (rows : S → List RoomMapping)
    (laws : StoreLaws store rows) (to_string : ℤ → String) (outside : Outside S)
    (options : Options) where
  -- To bridge a channel from Discord ignores the limit: whatever it is and however many rooms are
  -- bridged, if the channel is free and known, the homeserver creates the room and the store takes
  -- the row, one more room is bridged.
  pub request_bridge_discord_channel_unlimited :
      (guild_id channel_id : String) (w : World S) (c : DiscordChannel) (room : String)
      → store.get_room_by_discord_channel w.db channel_id ≡ ok none
      → ((log : List Call) → outside.channel log channel_id ≡ ok (some c))
      → ((log : List Call) → outside.new_room log c.id ≡ ok room)
      → (store.create_room_mapping w.db
          (mapping_of store to_string outside options room guild_id c w.now)).0
        ≡ ok tt
      → length (
          rows
            (request_bridge_discord_channel store to_string outside options guild_id channel_id
              w).1.db)
        ≡ suc (length (rows w.db))
  unfolding request_bridge_discord_channel
  request_bridge_discord_channel_unlimited guild_id channel_id w c room free known made stored =
      let (id, same) = laws.created w.db _ stored in
      rw (free, known, made, stored)
        (rw same (
          omega (
            arith,
            length-append (rows w.db) (
                record (mapping_of store to_string outside options room guild_id c w.now) {
                  id = id;
                }
                ∷ []),
          )))
