-- ===== src/FromDiscord/Outcome.antt =====
-- What becomes of a message from Discord that is no command.
use matrix_bridge_discord.Prelude.{
  List, String, Bool, false, Option, none, some, ◌≡◌, refl, sym, ℤ, ◌⊎◌, inl, inr, find, ◌==◌,
}
use matrix_bridge_discord.DiscordCommand.{is_command}
use matrix_bridge_discord.Provisioning.{ApprovalResponseStatus}
use matrix_bridge_discord.BridgeLogic.{RoomMapping}
use matrix_bridge_discord.Rooms.{Options}
use matrix_bridge_discord.Rooms.Store.{RoomStore, StoreLaws}
use matrix_bridge_discord.Rooms.Tasks.{
  Outside, World, After, follow-After, After-either, After-weaken,
}
use matrix_bridge_discord.Messages.Store.{MessageStore, LinkLaws}
use matrix_bridge_discord.Messages.{DiscordMessageContext, MessageOptions, relay_discord_message}
use matrix_bridge_discord.Messages.Relay.{
  SameLinks, outbound_of, Relayed, relay_discord_message-Relayed,
}
use matrix_bridge_discord.FromDiscord.{relay_if_bridged, handle_discord_message_with_context}

module _ {S : Type 0} (rows : S → List RoomMapping) (link : S → String → Option (String × String))
    (outside : Outside S) (format_for_matrix : String → String) (ctx : DiscordMessageContext)
    (w : World S) where
  abbrev pub room_of : Option RoomMapping
  room_of = find (λ r. r.discord_channel_id == ctx.channel_id) (rows w.db)

  abbrev pub Dropped : World S → Type 0
  Dropped w' = (room_of ≡ none) × (w' ≡ w)

  -- Sent to the Matrix room of the first row with the channel, with all that it holds.
  pub record RelayedToRoom (w' : World S) : Type 0 where
    pub room : RoomMapping
    pub bridged : room_of ≡ some room
    pub relayed :
        Relayed link outside w
          (outbound_of link outside w format_for_matrix ctx)
          ctx.source_message_id
          room.matrix_room_id
          ctx.sender_id
          w'

module _ {S : Type 0} (rooms : RoomStore S) (rows : S → List RoomMapping)
    (room_laws : StoreLaws rooms rows) (messages : MessageStore S)
    (link : S → String → Option (String × String)) (laws : LinkLaws messages link)
    (mark_approval : S → String → Bool → ApprovalResponseStatus × S) (to_string : ℤ → String)
    (format_for_matrix : String → String) (outside : Outside S) (options : Options)
    (message_options : MessageOptions) (ctx : DiscordMessageContext) (w : World S) where
  abbrev Done : World S → Type 0
  Done w' =
      Dropped rows link outside format_for_matrix ctx w w'
      ⊎ RelayedToRoom rows link outside format_for_matrix ctx w w'

  relay_if_bridged-Done :
      (o : Option RoomMapping)
      → room_of rows link outside format_for_matrix ctx w ≡ o
      → After
          (λ _. Done)
          (SameLinks link outside w)
          (relay_if_bridged rooms messages mark_approval to_string format_for_matrix outside options
            message_options ctx o w)
  relay_if_bridged-Done none e = inl (e, refl)
  relay_if_bridged-Done (some m) e =
      After-weaken
        (λ _.
          Relayed link outside w (outbound_of link outside w format_for_matrix ctx)
            ctx.source_message_id m.matrix_room_id ctx.sender_id)
        (SameLinks link outside w) (λ _. Done)
        (relay_discord_message rooms messages outside format_for_matrix message_options ctx m w)
        (relay_discord_message-Relayed rooms messages link laws outside w format_for_matrix
          message_options ctx m)
        (λ _ _ h. inr record { room = m; bridged = e; relayed = h })

  -- A message that is no command is dropped, and nothing changes, if its channel is not bridged. If
  -- the channel is bridged, the message is sent to the channel's room as its sender: its text as it
  -- is formatted for Matrix, without attachments as `render_body` gives it, in one message with what
  -- it answers and edits, where the events of their links stand for the identifiers that have one,
  -- and every attachment as a file that was uploaded or as a text with its address. Matrix has
  -- accepted all of it; only an empty text beside attachments is not sent. If the message has an
  -- identifier, its link leads to the event that the last call got, and every other link is as
  -- before. If this fails, no link has changed.
  pub handle_discord_message_with_context-Relayed :
      is_command ctx.content ≡ false
      → After
          (λ _ w'.
            Dropped rows link outside format_for_matrix ctx w w'
            ⊎ RelayedToRoom rows link outside format_for_matrix ctx w w')
          (SameLinks link outside w)
          (handle_discord_message_with_context rooms messages mark_approval to_string
            format_for_matrix outside options message_options ctx w)
  unfolding handle_discord_message_with_context
  handle_discord_message_with_context-Relayed plain =
      let found = rooms.get_room_by_discord_channel w.db ctx.channel_id in
      let Asked : Option RoomMapping → World S → Type 0 =
        λ o w'. (room_of rows link outside format_for_matrix ctx w ≡ o) × (w' ≡ w) in
      rw plain (
        follow-After Asked (λ _. Done) (SameLinks link outside w) found w _
          (After-either Asked (SameLinks link outside w) found w (λ _. refl)
            (λ o e. (sym (room_laws.by_channel w.db ctx.channel_id o e), refl)))
          (λ o w1 h. rw h.1 (relay_if_bridged-Done o h.0)))
