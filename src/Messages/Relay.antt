-- ===== src/Messages/Relay.antt =====
-- What the bridge has sent of a message that it has relayed to Matrix, and what it remembers of it.
use matrix_bridge_discord.Prelude.{
  String, Option, none, some, ◌≡◌, refl, ap, ◌∙◌, if◌then◌else◌, ◌==◌,
}
use matrix_bridge_discord.MessageFlow.{OutboundMatrixMessage, discord_to_matrix}
use matrix_bridge_discord.BridgeLogic
use matrix_bridge_discord.BridgeLogic.{RoomMapping, MessageMapping, apply_message_relation_mappings}
use matrix_bridge_discord.Rooms.Store.{RoomStore}
use matrix_bridge_discord.Rooms.Tasks.{
  Outside, DiscordUser, World, After, follow-After, After-cases, After-either, After-both, call,
  get_user, ◌>>=◌,
}
use matrix_bridge_discord.Messages.Store.{MessageStore, LinkLaws}
use matrix_bridge_discord.Messages.{
  DiscordMessageContext, MessageOptions, register, linked_to, link_of, remember_link, send_to_room,
  relay_discord_message,
}
use matrix_bridge_discord.Messages.Sent.{Sent, Contents}
use matrix_bridge_discord.Messages.Sending.{SentAll, send_to_room-Sent}

module _ {S : Type 0} (link : S → String → Option (String × String)) (outside : Outside S)
    (w : World S) where
  abbrev pub SameLinks : World S → Type 0
  SameLinks w' = (id : String) → link w'.db id ≡ link w.db id

  -- The event that was sent for the message, and the link that is left.
  abbrev pub Linked : Option String → String → String → World S → Type 0
  Linked source room event w' =
      (id : String)
      → link w'.db id ≡ elim source [
        | none ↦ link w.db id
        | some s ↦ (if s == id then some (room, event) else link w.db id)
      ]

  -- The event to which the link of a message leads, or its own identifier if it has none.
  abbrev pub event_of : Option String → Option String
  event_of none = none
  event_of (some id) = elim (link w.db id) [ none ↦ some id | some (room, event) ↦ some event ]

  -- What a message becomes: its text as it is formatted for Matrix, its attachments, and the events
  -- of the messages that it answers and edits.
  abbrev pub outbound_of : (String → String) → DiscordMessageContext → OutboundMatrixMessage
  outbound_of format_for_matrix ctx = record {
    body = format_for_matrix ctx.content;
    reply_to = event_of ctx.reply_to;
    edit_of = event_of ctx.edit_of;
    attachments = ctx.attachments;
  }

  -- The message has been sent to the room as the sender, with all that it holds, and its link leads
  -- to the event that the last call got; every other link is as before.
  pub record Relayed (outbound : OutboundMatrixMessage) (source : Option String)
      (room sender : String) (w' : World S) : Type 0 where
    pub event : String
    pub sent_in : World S
    pub sent : Sent outside room sender w event sent_in
    pub contents : Contents outside room sender outbound sent_in.calls
    pub same_calls : w'.calls ≡ sent_in.calls
    pub linked : Linked source room event w'

module _ {S : Type 0} (rooms : RoomStore S) (messages : MessageStore S)
    (link : S → String → Option (String × String)) (laws : LinkLaws messages link)
    (outside : Outside S) (w : World S) where
  remember_link-Relayed :
      (outbound : OutboundMatrixMessage) (source : Option String) (room sender event : String)
      (w' : World S)
      → Sent outside room sender w event w'
      → Contents outside room sender outbound w'.calls
      → After
          (λ _. Relayed link outside w outbound source room sender)
          (SameLinks link outside w)
          (remember_link rooms messages outside source room event w')
  remember_link-Relayed outbound none room sender event w' sent contents = record {
    event = event;
    sent_in = w';
    sent = sent;
    contents = contents;
    same_calls = refl;
    linked = λ id. ap (λ s. link s id) sent.same_db;
  }
  remember_link-Relayed outbound (some source) room sender event w' sent contents =
      let m = link_of rooms messages outside source room event w'.now in
      After-cases (λ _. Relayed link outside w outbound (some source) room sender)
        (SameLinks link outside w) (messages.upsert_message_mapping w'.db m).0 _
        (λ _ e. record {
          event = event;
          sent_in = w';
          sent = sent;
          contents = contents;
          same_calls = refl;
          linked = λ id.
              laws.upserted w'.db m e id
              ∙ ap (λ s. if source == id then some (room, event) else link s id) sent.same_db;
        })
        (λ text e id. laws.not_upserted w'.db m text e id ∙ ap (λ s. link s id) sent.same_db)

  found_event :
      (id : String) (o : Option MessageMapping)
      → elim o [ none ↦ none | some m ↦ some (m.matrix_room_id, m.matrix_event_id) ] ≡ link w.db id
      → BridgeLogic.linked o (some id) ≡ event_of link outside w (some id)
  found_event id none e = rw (event_of, ← e) refl
  found_event id (some m) e = rw (event_of, ← e) refl

  -- A lookup reads the store only, and finds what the link says.
  linked_to-Same :
      (o : Option String) (w' : World S)
      → w'.db ≡ w.db
      → After
          (λ found (w'' : World S).
            (w''.db ≡ w.db) × (BridgeLogic.linked found o ≡ event_of link outside w o))
          (SameLinks link outside w)
          (linked_to rooms messages outside o w')
  linked_to-Same none w' same = (same, refl)
  linked_to-Same (some id) w' same =
      After-either
        (λ found (w'' : World S).
          (w''.db ≡ w.db)
          × (BridgeLogic.linked found (some id) ≡ event_of link outside w (some id)))
        (SameLinks link outside w) (messages.get_by_discord_message_id w'.db id) w'
        (λ i. ap (λ s. link s i) same)
        (λ found e. (
          same,
          found_event id found (laws.by_discord w'.db id found e ∙ ap (λ s. link s id) same),
        ))

  register-Same :
      (options : MessageOptions) (sender : String) (user : Option DiscordUser) (w' : World S)
      → w'.db ≡ w.db
      → After
          (λ _ (w'' : World S). w''.db ≡ w.db)
          (SameLinks link outside w)
          (register rooms messages outside options sender user w')
  register-Same options sender none w' same =
      After-either (λ _ (w'' : World S). w''.db ≡ w.db) (SameLinks link outside w)
        (outside.done w'.calls _) _ (λ i. ap (λ s. link s i) same) (λ _ _. same)
  register-Same options sender (some user) w' same =
      After-either (λ _ (w'' : World S). w''.db ≡ w.db) (SameLinks link outside w)
        (outside.done w'.calls _) _ (λ i. ap (λ s. link s i) same) (λ _ _. same)

  send_and_remember :
      (ctx : DiscordMessageContext) (m : RoomMapping) (outbound : OutboundMatrixMessage)
      (w' : World S)
      → w'.db ≡ w.db
      → After
          (λ _.
            Relayed link outside w outbound ctx.source_message_id m.matrix_room_id ctx.sender_id)
          (SameLinks link outside w)
          ((send_to_room rooms messages outside m ctx.sender_id outbound
              >>= remember_link rooms messages outside ctx.source_message_id m.matrix_room_id)
            w')
  send_and_remember ctx m outbound w' same =
      let sent = send_to_room rooms messages outside m ctx.sender_id outbound w' in
      let Room = SentAll rooms messages outside m.matrix_room_id ctx.sender_id w outbound in
      follow-After Room
        (λ _. Relayed link outside w outbound ctx.source_message_id m.matrix_room_id ctx.sender_id)
        (SameLinks link outside w) sent.0 sent.1 _
        (After-both Room (λ w''. w''.db ≡ w.db) Room (SameLinks link outside w) sent
          (send_to_room-Sent rooms messages outside m ctx.sender_id outbound w w' same) (λ _ _ h. h)
          (λ _ h id. ap (λ s. link s id) h))
        (λ event w'' h.
          remember_link-Relayed outbound ctx.source_message_id m.matrix_room_id ctx.sender_id event
            w'' h.0 h.1)

  -- A message of a bridged channel is relayed in full or fails. Relayed, its text, attachments,
  -- reply and edit have been sent to the channel's room as its sender, and if it has an identifier,
  -- its link leads to the event that the last call got, and every other link is as before. If it
  -- fails, no link has changed.
  pub relay_discord_message-Relayed :
      (format_for_matrix : String → String) (options : MessageOptions) (ctx : DiscordMessageContext)
      (m : RoomMapping)
      → After
          (λ _.
            Relayed link outside w
              (outbound_of link outside w format_for_matrix ctx)
              ctx.source_message_id
              m.matrix_room_id
              ctx.sender_id)
          (SameLinks link outside w)
          (relay_discord_message rooms messages outside format_for_matrix options ctx m w)
  unfolding relay_discord_message discord_to_matrix apply_message_relation_mappings
  relay_discord_message-Relayed format_for_matrix options ctx m =
      let Failed = SameLinks link outside w in
      let Done : Unit {0} → World S → Type 0 = λ _.
        Relayed link outside w (outbound_of link outside w format_for_matrix ctx)
          ctx.source_message_id m.matrix_room_id ctx.sender_id in
      let Found : Option String → Option MessageMapping → World S → Type 0 =
        λ o found w'. (w'.db ≡ w.db) × (BridgeLogic.linked found o ≡ event_of link outside w o) in
      let asked = call (get_user ctx.sender_id) (λ log. outside.user log ctx.sender_id) w in
      follow-After (λ _ w'. w'.db ≡ w.db) Done Failed asked.0 asked.1 _
        (After-either (λ _ w'. w'.db ≡ w.db) Failed asked.0 asked.1 (λ _. refl) (λ _ _. refl))
        (λ user w1 h1.
          let registered = register rooms messages outside options ctx.sender_id user w1 in
          follow-After (λ _ w'. w'.db ≡ w.db) Done Failed registered.0 registered.1 _
            (register-Same options ctx.sender_id user w1 h1)
            (λ _ w2 h2.
              let reply = linked_to rooms messages outside ctx.reply_to w2 in
              follow-After (Found ctx.reply_to) Done Failed reply.0 reply.1 _
                (linked_to-Same ctx.reply_to w2 h2)
                (λ reply_mapping w3 h3.
                  let edit = linked_to rooms messages outside ctx.edit_of w3 in
                  follow-After (Found ctx.edit_of) Done Failed edit.0 edit.1 _
                    (linked_to-Same ctx.edit_of w3 h3.0)
                    (λ edit_mapping w4 h4.
                      rw (← h3.1, ← h4.1)
                        (send_and_remember ctx m
                          (record {
                            body = format_for_matrix ctx.content;
                            reply_to = BridgeLogic.linked reply_mapping ctx.reply_to;
                            edit_of = BridgeLogic.linked edit_mapping ctx.edit_of;
                            attachments = ctx.attachments;
                          })
                          w4 h4.0)))))
