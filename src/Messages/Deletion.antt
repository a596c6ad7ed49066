-- ===== src/Messages/Deletion.antt =====
-- What becomes of a message on Matrix when the one on Discord is deleted.
use matrix_bridge_discord.Prelude.{
  [], ◌∷◌, ◌++◌, String, Option, none, some, ◌≡◌, subst, ◌⊎◌, inl, inr, refl, sym, ap, ◌∙◌, ok,
  if◌then◌else◌, ◌==◌,
}
use matrix_bridge_discord.BridgeLogic.{MessageMapping, discord_delete_redaction_request}
use matrix_bridge_discord.Rooms.Store.{RoomStore}
use matrix_bridge_discord.Rooms.Tasks.{
  Outside, redact_message, World, After, follow-After, After-cases, After-either, After-weaken,
}
use matrix_bridge_discord.Messages.Store.{MessageStore, LinkLaws}
use matrix_bridge_discord.Messages.Relay.{SameLinks}
use matrix_bridge_discord.Messages.{MessageOptions, redact, handle_discord_message_delete}

module _ {S : Type 0} (link : S → String → Option (String × String)) (id : String)
    (w : World S) where
  -- The one event that the message is linked to has been redacted, and the link is gone.
  pub record Redacted (w' : World S) : Type 0 where
    pub room : String
    pub event : String
    pub was : link w.db id ≡ some (room, event)
    pub redaction : w'.calls ≡ w.calls ++ redact_message room event "Deleted on Discord" ∷ []
    pub unlinked :
        (other : String) → link w'.db other ≡ (if id == other then none else link w.db other)

  abbrev pub Unlinked : World S → Type 0
  Unlinked w' = (link w.db id ≡ none) × (w' ≡ w)

module _ {S : Type 0} (rooms : RoomStore S) (messages : MessageStore S)
    (link : S → String → Option (String × String)) (laws : LinkLaws messages link)
    (outside : Outside S) (format_for_matrix : String → String) (options : MessageOptions) where
  redact-Redacted :
      (id : String) (w : World S) (m : MessageMapping)
      → link w.db id ≡ some (m.matrix_room_id, m.matrix_event_id)
      → After
          (λ _. Redacted link id w)
          (SameLinks link outside w)
          (redact rooms messages outside format_for_matrix options id
            (discord_delete_redaction_request (some m))
            w)
  unfolding discord_delete_redaction_request
  redact-Redacted id w m was =
      let c = redact_message m.matrix_room_id m.matrix_event_id "Deleted on Discord" in
      follow-After (λ _ w'. (w'.db ≡ w.db) × (w'.calls ≡ w.calls ++ c ∷ []))
        (λ _. Redacted link id w) (SameLinks link outside w) (outside.done w.calls c) _ _
        (After-either (λ _ w'. (w'.db ≡ w.db) × (w'.calls ≡ w.calls ++ c ∷ []))
          (SameLinks link outside w) (outside.done w.calls c) _ (λ _. refl) (λ _ _. (refl, refl)))
        (λ _ w1 h.
          After-cases (λ _. Redacted link id w) (SameLinks link outside w)
            (messages.delete_by_discord_message_id w1.db id).0 _
            (λ _ e. record {
              room = m.matrix_room_id;
              event = m.matrix_event_id;
              was = was;
              redaction = h.1;
              unlinked = λ other.
                  laws.deleted w1.db id e other
                  ∙ ap (λ s. if id == other then none else link s other) h.0;
            })
            (λ text e other. laws.not_deleted w1.db id text e other ∙ ap (λ s. link s other) h.0))

  redact_if_linked :
      (id : String) (w : World S) (o : Option MessageMapping)
      → elim o [ none ↦ none | some m ↦ some (m.matrix_room_id, m.matrix_event_id) ] ≡ link w.db id
      → After
          (λ _ w'. Unlinked link id w w' ⊎ Redacted link id w w')
          (SameLinks link outside w)
          (redact rooms messages outside format_for_matrix options id
            (discord_delete_redaction_request o)
            w)
  unfolding discord_delete_redaction_request
  redact_if_linked id w none e = inl (sym e, refl)
  redact_if_linked id w (some m) e =
      let task =
        redact rooms messages outside format_for_matrix options id
          (discord_delete_redaction_request (some m)) w in
      After-weaken (λ _. Redacted link id w) (SameLinks link outside w)
        (λ _ w'. Unlinked link id w w' ⊎ Redacted link id w w') task
        (redact-Redacted id w m (sym e)) (λ _ _ h. inr h)

  -- A deletion on Discord does nothing if the message has no link. If it has one, the one call is
  -- the redaction of the linked event in its room, that link is gone and every other link stays. If
  -- the deletion fails, no link has changed.
  pub handle_discord_message_delete-Redacted :
      (id : String) (w : World S)
      → After
          (λ _ w'. Unlinked link id w w' ⊎ Redacted link id w w')
          (SameLinks link outside w)
          (handle_discord_message_delete rooms messages outside format_for_matrix options id w)
  unfolding handle_discord_message_delete
  handle_discord_message_delete-Redacted id w =
      let Done : Unit {0} → World S → Type 0 =
        λ _ w'. Unlinked link id w w' ⊎ Redacted link id w w' in
      let Asked : Option MessageMapping → World S → Type 0 =
        λ o w'. (messages.get_by_discord_message_id w.db id ≡ ok o) × (w' ≡ w) in
      let found = messages.get_by_discord_message_id w.db id in
      follow-After Asked Done (SameLinks link outside w) found w _
        (After-either Asked (SameLinks link outside w) found w (λ _. refl) (λ o e. (e, refl)))
        (λ o w1 h.
          subst
            (λ w2. After Done (SameLinks link outside w) (
              redact rooms messages outside format_for_matrix options id
                (discord_delete_redaction_request o) w2))
            (sym h.1) (redact_if_linked id w o (laws.by_discord w.db id o h.0)))
