-- ===== src/Presence/Rounds.antt =====
-- Ticks report the queue in turn.
use matrix_bridge_discord.Prelude.{
  List, [], ◌∷◌, ◌++◌, String, not, Option, ◌≡◌, refl, ap, subst, ◌∙◌, arith, retain, length,
  Bool-cases, inl, inr, append_assoc, append-nil,
}
use matrix_bridge_discord.Presence.{
  DiscordPresence, PresenceHandler, TargetCall, enqueue_user, Casing, Target, finish, take,
  process_next, activity_text, map_presence, ticks,
}
use matrix_bridge_discord.Presence.Queue.{IsValid, without_of_Absent, finish-IsValid}
use matrix_bridge_discord.Presence.Status.{is_offline, should_drop-is_offline, reported, report_lem}

-- The presences that are reported again in the next round.
abbrev pub kept : List DiscordPresence → List DiscordPresence
kept = retain (λ p. not (is_offline p.state))

module _ (casing : Casing) (target : Target) where
  abbrev pub reports : List DiscordPresence → List TargetCall
  reports [] = []
  reports (p ∷ q) = reported casing target p ++ reports q

  finish_of_Absent :
      (bot : Option String) (p : DiscordPresence) (rest : List DiscordPresence)
      → IsValid (record { bot_discord_user_id = bot; queue = p ∷ rest })
      → finish casing target (record { bot_discord_user_id = bot; queue = rest }) p
        ≡ record { bot_discord_user_id = bot; queue = rest ++ kept (p ∷ []) }
  unfolding finish enqueue_user map_presence
  finish_of_Absent bot p rest v =
      rw (should_drop-is_offline casing p.state (activity_text casing p.activities))
        (ground (arith, without_of_Absent p.user_id rest v.distinct.0, append-nil rest, v.no_bot.0))

  next_IsValid :
      (bot : Option String) (p : DiscordPresence) (rest : List DiscordPresence)
      → IsValid (record { bot_discord_user_id = bot; queue = p ∷ rest })
      → IsValid (finish casing target (record { bot_discord_user_id = bot; queue = rest }) p)
  next_IsValid bot p rest v =
      finish-IsValid casing target (record { bot_discord_user_id = bot; queue = rest }) p
        (record { distinct = v.distinct.1; no_bot = v.no_bot.1 })

  -- A tick while nothing else happens.
  next_tick :
      (bot : Option String) (p : DiscordPresence) (rest : List DiscordPresence)
      → (process_next casing target
          (λ h. h)
          (record { bot_discord_user_id = bot; queue = p ∷ rest })).2
        ≡ finish casing target (record { bot_discord_user_id = bot; queue = rest }) p
  unfolding process_next take
  next_tick bot p rest = refl

  next_handler :
      (bot : Option String) (p : DiscordPresence) (xs ys : List DiscordPresence)
      → IsValid (record { bot_discord_user_id = bot; queue = p ∷ (xs ++ ys) })
      → (process_next casing target
          (λ h. h)
          (record { bot_discord_user_id = bot; queue = p ∷ (xs ++ ys) })).2
        ≡ record { bot_discord_user_id = bot; queue = xs ++ (ys ++ kept (p ∷ [])) }
  next_handler bot p xs ys v =
      next_tick bot p (xs ++ ys)
      ∙ finish_of_Absent bot p (xs ++ ys) v
      ∙ ap (λ q. record { bot_discord_user_id = bot; queue = q })
          (append_assoc xs ys (kept (p ∷ [])))

  calls_of_next :
      (bot : Option String) (p : DiscordPresence) (rest : List DiscordPresence)
      → (process_next casing target
          (λ h. h)
          (record { bot_discord_user_id = bot; queue = p ∷ rest })).1
        ≡ reported casing target p
  unfolding process_next take
  calls_of_next bot p rest = report_lem casing target p

  round_tail :
      (bot : Option String) (p : DiscordPresence) (xs ys : List DiscordPresence)
      → ◌≡◌ {A = List TargetCall × PresenceHandler}
          (
            reported casing target p ++ reports xs,
            record { bot_discord_user_id = bot; queue = ys ++ (kept (p ∷ []) ++ kept xs) },
          )
          (reports (p ∷ xs), record { bot_discord_user_id = bot; queue = ys ++ kept (p ∷ xs) })
  round_tail bot p xs ys = elim (Bool-cases (is_offline p.state)) [
    | inl e ↦ rw e refl
    | inr e ↦ rw e refl
  ]

  ticks_from :
      (bot : Option String) (xs ys : List DiscordPresence)
      → IsValid (record { bot_discord_user_id = bot; queue = xs ++ ys })
      → ticks casing target
          (λ h. h)
          (length xs)
          (record { bot_discord_user_id = bot; queue = xs ++ ys })
        ≡ (reports xs, record { bot_discord_user_id = bot; queue = ys ++ kept xs })
  unfolding ticks
  ticks_from bot [] ys v = rw append-nil
  ticks_from bot (p ∷ xs) ys v =
      let valid =
        subst IsValid (finish_of_Absent bot p (xs ++ ys) v) (next_IsValid bot p (xs ++ ys) v) in
      let valid' =
        subst (λ q. IsValid (record { bot_discord_user_id = bot; queue = q }))
          (append_assoc xs ys (kept (p ∷ []))) valid in
      rw
        (
          next_handler bot p xs ys v,
          calls_of_next bot p (xs ++ ys),
          ticks_from bot xs (ys ++ kept (p ∷ [])) valid',
          append_assoc,
        )
        (round_tail bot p xs ys)

  -- While no update comes in, as many ticks as a valid queue is long report each of its presences
  -- once, in their order, with the state and the text that Matrix is to show, and register a user
  -- whose presence the homeserver forbids; they leave those that are not offline, in their order.
  pub ticks_round :
      (h : PresenceHandler)
      → IsValid h
      → ticks casing target (λ h'. h') (length h.queue) h
        ≡ (reports h.queue, record h { queue = kept h.queue })
  ticks_round h v =
      rw (append-nil h.queue) at
        (ticks_from h.bot_discord_user_id h.queue [] (rw (append-nil h.queue) v))
