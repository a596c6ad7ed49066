-- ===== src/Moderation/Once.antt =====
-- Every room of the guild is moderated once.
use matrix_bridge_discord.Prelude.{
  ℕ, suc, ◌+◌, List, [], ◌∷◌, ◌++◌, String, Bool, true, false, some, ◌≡◌, refl, sym, ap, ◌∙◌, arith,
  append-nil, append_assoc, if◌then◌else◌, Result, ok, err, ℤ, ◌==◌, map, retain, length, is_nil,
  Bool-cases, inl, inr, ◌⊎◌,
}
use matrix_bridge_discord.DiscordCommand.{ModerationAction, kick, ban, unban}
use matrix_bridge_discord.Provisioning.{ApprovalResponseStatus}
use matrix_bridge_discord.BridgeLogic.{RoomMapping}
use matrix_bridge_discord.Rooms.{Options}
use matrix_bridge_discord.Rooms.Store.{RoomStore}
use matrix_bridge_discord.Rooms.Tasks.{
  Call, kick_user_from_room, ban_user_from_room, unban_user_from_room, send_notice, send_message,
  Outside, World, After, follow-After, After-either, After-weaken, After-both,
}
use matrix_bridge_discord.Moderation.{
  Tally, target_rooms, moderation_call, reason_of, notice_of, tally, moderate_room, moderate_rooms,
  report, moderate,
}
use matrix_bridge_discord.Moderation.Targets.{
  has, Distinct, in_rows, target_rooms-Distinct, has-target_rooms,
}

abbrev pub is_moderation : Call → Bool
is_moderation (kick_user_from_room _ _ _) = true
is_moderation (ban_user_from_room _ _ _) = true
is_moderation (unban_user_from_room _ _) = true
is_moderation _ = false

retain-append : (p : Call → Bool) (l m : List Call) → retain p (l ++ m) ≡ retain p l ++ retain p m
retain-append p [] m = refl
retain-append p (c ∷ l) m =
    let rest = retain-append p l m in
    elim (Bool-cases (p c)) [ inl e ↦ rw (e, rest) refl | inr e ↦ rw (e, rest) refl ]

is_one :
    (action : ModerationAction) (user reason room : String)
    → is_moderation (moderation_call action user reason room) ≡ true
is_one kick user reason room = refl
is_one ban user reason room = refl
is_one unban user reason room = refl

-- What the calls of a round are: in each room in turn the action, and directly after it, if it was
-- accepted, the notice; and how many were accepted and how many failed.
module _ (done : List Call → Call → Result String (Unit {0}))
    (call_of notice_to : String → Call) where
  abbrev pub Carried : List String → List Call → List Call → ℕ → ℕ → Type 0
  Carried [] before after accepted failed = (after ≡ before) × (accepted ≡ 0) × (failed ≡ 0)
  Carried (room ∷ rest) before after accepted failed =
      ((n : ℕ) × (accepted ≡ suc n)
        × (done before (call_of room) ≡ ok tt)
        × Carried rest ((before ++ call_of room ∷ []) ++ notice_to room ∷ []) after n failed)
      ⊎ ((n : ℕ) × (failed ≡ suc n)
          × ((e : String) × (done before (call_of room) ≡ err e))
          × Carried rest (before ++ call_of room ∷ []) after accepted n)

  Carried-cons :
      (room : String) (rest : List String) (a b c : List Call) (n f n' f' : ℕ)
      → Carried (room ∷ []) a b n f
      → Carried rest b c n' f'
      → Carried (room ∷ rest) a c (n + n') (f + f')
  Carried-cons room rest a b c n f n' f' (inl (k, one, e, none_left)) h =
      let same : f + f' ≡ f' = omega (arith, none_left.2) in
      inl (n', omega (arith, one, none_left.1), e, rw (← none_left.0, same) h)
  Carried-cons room rest a b c n f n' f' (inr (k, one, e, none_left)) h =
      let same : n + n' ≡ n' = omega (arith, none_left.1) in
      inr (f', omega (arith, one, none_left.2), e, rw (← none_left.0, same) h)

module _ {S : Type 0} (outside : Outside S) (call_of notice_to : String → Call) (w : World S) where
  -- What has been done to these rooms: one call for each in turn, and a notice where it succeeded.
  pub record Round (rooms : List String) (before count : Tally) (w' : World S) : Type 0 where
    pub same_db : w'.db ≡ w.db
    pub calls_made :
        retain is_moderation w'.calls ≡ retain is_moderation w.calls ++ map call_of rooms
    pub accepted : ℕ
    pub failed : ℕ
    pub carried : Carried outside.done call_of notice_to rooms w.calls w'.calls accepted failed
    pub successes : count.success_count ≡ before.success_count + accepted
    pub failures : count.failed_count ≡ before.failed_count + failed
    pub total :
        count.success_count + count.failed_count
        ≡ before.success_count + before.failed_count + length rooms

  Round-nil : (before : Tally) → Round [] before before w
  Round-nil before = record {
    same_db = refl;
    calls_made = sym (append-nil (retain is_moderation w.calls));
    accepted = 0;
    failed = 0;
    carried = (refl, refl, refl);
    successes = omega arith;
    failures = omega arith;
    total = omega arith;
  }

module _ {S : Type 0} (rooms : RoomStore S)
    (mark_approval : S → String → Bool → ApprovalResponseStatus × S) (to_string : ℤ → String)
    (outside : Outside S) (options : Options) (channel sender : String) (action : ModerationAction)
    (user : String) where
  abbrev call_of : String → Call
  call_of room = moderation_call action user (reason_of sender channel) room

  abbrev notice_to : String → Call
  notice_to room = send_notice room (notice_of action user sender)

  Round-cons :
      (w w1 w2 : World S) (room : String) (rest : List String) (before counted count : Tally)
      → Round outside call_of notice_to w (room ∷ []) before counted w1
      → Round outside call_of notice_to w1 rest counted count w2
      → Round outside call_of notice_to w (room ∷ rest) before count w2
  Round-cons w w1 w2 room rest before counted count first later = record {
    same_db = later.same_db ∙ first.same_db;
    calls_made =
        later.calls_made
        ∙ ap (λ l. l ++ map call_of rest) first.calls_made
        ∙ append_assoc (retain is_moderation w.calls) (call_of room ∷ []) (map call_of rest);
    accepted = first.accepted + later.accepted;
    failed = first.failed + later.failed;
    carried =
        Carried-cons outside.done call_of notice_to room rest w.calls w1.calls w2.calls
          first.accepted first.failed later.accepted later.failed first.carried later.carried;
    successes = omega (arith, first.successes, later.successes);
    failures = omega (arith, first.failures, later.failures);
    total = omega (arith, first.total, later.total);
  }

  tally-Round :
      (count : Tally) (room : String) (w : World S) (result : Result String (Unit {0}))
      → outside.done w.calls (call_of room) ≡ result
      → After
          (λ count' w'. Round outside call_of notice_to w (room ∷ []) count count' w')
          (λ _. ⊥)
          (tally rooms mark_approval to_string outside options channel sender action user room count
            result
            (record w { calls = w.calls ++ call_of room ∷ [] }))
  tally-Round count room w (ok _) said =
      let one = is_one action user (reason_of sender channel) room in
      record {
        same_db = refl;
        calls_made = rw (retain-append, retain-append, one, append-nil) refl;
        accepted = 1;
        failed = 0;
        carried = inl (0, refl, said, (refl, refl, refl));
        successes = omega arith;
        failures = omega arith;
        total = omega arith;
      }
  tally-Round count room w (err e) said =
      let one = is_one action user (reason_of sender channel) room in
      record {
        same_db = refl;
        calls_made = rw (retain-append, one) refl;
        accepted = 0;
        failed = 1;
        carried = inr (0, refl, (e, said), (refl, refl, refl));
        successes = omega arith;
        failures = omega arith;
        total = omega arith;
      }

  moderate_rooms-Round :
      (targets : List String) (count : Tally) (w : World S)
      → After
          (λ count' w'. Round outside call_of notice_to w targets count count' w')
          (λ _. ⊥)
          (moderate_rooms rooms mark_approval to_string outside options channel sender action user
            count targets w)
  moderate_rooms-Round [] count w = Round-nil outside call_of notice_to w count
  moderate_rooms-Round (room ∷ rest) count w =
      let one =
        moderate_room rooms mark_approval to_string outside options channel sender action user count
          room w in
      follow-After (λ c w'. Round outside call_of notice_to w (room ∷ []) count c w')
        (λ c w'. Round outside call_of notice_to w (room ∷ rest) count c w') (λ _. ⊥) one.0 one.1 _
        (tally-Round count room w (outside.done w.calls (call_of room)) refl)
        (λ counted w1 first.
          After-weaken (λ c w'. Round outside call_of notice_to w1 rest counted c w') (λ _. ⊥)
            (λ c w'. Round outside call_of notice_to w (room ∷ rest) count c w')
            (moderate_rooms rooms mark_approval to_string outside options channel sender action user
              counted rest w1)
            (moderate_rooms-Round rest counted w1)
            (λ c w2 later. Round-cons w w1 w2 room rest count counted c first later))

  -- The calls of the rounds and then the reply with the numbers of those that were accepted and of
  -- those that failed.
  pub record Moderated (targets : List String) (w w' : World S) : Type 0 where
    pub count : Tally
    pub earlier : List Call
    pub calls_made :
        retain is_moderation w'.calls ≡ retain is_moderation w.calls ++ map call_of targets
    pub carried :
        Carried outside.done call_of notice_to targets w.calls earlier count.success_count
          count.failed_count
    pub total : count.success_count + count.failed_count ≡ length targets
    pub reported :
        w'.calls
        ≡ earlier
          ++ send_message channel (
              report rooms mark_approval to_string outside options channel sender action user count)
            ∷ []
    pub same_db : w'.db ≡ w.db

  abbrev none_yet : Tally
  none_yet = record { success_count = 0; failed_count = 0 }

  reported-Moderated :
      (targets : List String) (w w1 : World S) (count : Tally)
      → Round outside call_of notice_to w targets none_yet count w1
      → Moderated targets w (record w1 {
        calls =
            w1.calls
            ++ send_message channel (
                report rooms mark_approval to_string outside options channel sender action user
                  count)
              ∷ [];
      })
  reported-Moderated targets w w1 count round =
      let successes : count.success_count ≡ round.accepted = omega (arith, round.successes) in
      let failures : count.failed_count ≡ round.failed = omega (arith, round.failures) in
      record {
        count = count;
        earlier = w1.calls;
        calls_made = rw (retain-append, append-nil) round.calls_made;
        carried = rw (successes, failures) round.carried;
        total = omega (arith, round.total);
        reported = refl;
        same_db = round.same_db;
      }

  -- A moderation command in a bridged channel is carried out once in every room of the channel's
  -- guild, and in no other, if the guild's rooms can be listed: the rooms are distinct, those of the
  -- listed rows, or the channel's own if none is listed; they are taken in
  -- turn with one call of the action each, followed by a notice in the room exactly if the call was
  -- accepted, and last comes a reply with the number of calls that were accepted and the number of
  -- those that failed. The store is as before, whether or not the reply can be sent.
  pub moderate-once :
      (mapping : RoomMapping) (l : List RoomMapping) (w : World S)
      → rooms.get_rooms_by_guild w.db mapping.discord_guild_id ≡ ok l
      → After
          (λ _ w'. Moderated (target_rooms mapping l) w w')
          (λ w'. Moderated (target_rooms mapping l) w w')
          (moderate rooms mark_approval to_string outside options channel sender action user
            (some mapping)
            w)
        × Distinct (target_rooms mapping l)
        × ((room : String)
            → has (target_rooms mapping l) room
              ≡ (if is_nil l then mapping.matrix_room_id == room else in_rows l room))
  unfolding moderate
  moderate-once mapping l w listed =
      let targets = target_rooms mapping l in
      let all =
        moderate_rooms rooms mark_approval to_string outside options channel sender action user
          none_yet targets w in
      let M : World S → Type 0 = λ w'. Moderated targets w w' in
      (
        rw listed (
            follow-After (λ c w'. Round outside call_of notice_to w targets none_yet c w') (λ _. M)
              M all.0 all.1 _
              (After-both (λ c w'. Round outside call_of notice_to w targets none_yet c w') (λ _. ⊥)
                (λ c w'. Round outside call_of notice_to w targets none_yet c w') M all
                (moderate_rooms-Round targets none_yet w) (λ _ _ h. h) (λ _ h. elim h [ ]))
              (λ count w1 round.
                After-either (λ _. M) M (outside.done w1.calls _) _
                  (reported-Moderated targets w w1 count round)
                  (λ _ _. reported-Moderated targets w w1 count round))),
        target_rooms-Distinct mapping l,
        λ room. has-target_rooms room mapping l,
      )
