-- ===== src/Messages.antt =====
-- src/bridge.rs: what a message, its deletion and typing on Discord become on Matrix.
pub mod Store
pub mod Sent
pub mod Sending
pub mod Relay
pub mod Deletion
pub mod Tests
use Prim.Native.String
use matrix_bridge_discord.Prelude.{
  ℕ, List, [], ◌∷◌, ◌*◌, String, Bool, true, false, not, Option, none, some, if◌then◌else◌, Result,
  ok, err, ◌==◌, ltb, is_nil,
}
use matrix_bridge_discord.Text.{is_empty, starts_with}
use matrix_bridge_discord.Formatting.{apply_pattern_string}
use matrix_bridge_discord.BridgeLogic.{
  RoomMapping, MessageMapping, RedactionRequest, TypingRequest, apply_message_relation_mappings,
  discord_delete_redaction_request, build_discord_typing_request, should_forward_discord_typing,
}
use matrix_bridge_discord.MessageFlow.{
  OutboundMatrixMessage, DiscordInboundMessage, discord_to_matrix, render_body,
}
use matrix_bridge_discord.Rooms.Store.{RoomStore}
use matrix_bridge_discord.Rooms.Tasks.{
  Call, redact_message, ensure_ghost_user_registered, set_discord_user_typing, get_user, download,
  upload_media, send_message_with_metadata, send_media_message, Outside, DiscordUser, MediaInfo,
  World, Task, give, ◌>>=◌, ◌>>◌, query, execute, call, attempt, perform, clock,
}
use matrix_bridge_discord.Messages.Store.{MessageStore}

-- The context of a message on Discord: DiscordMessageContext.
pub record DiscordMessageContext : Type 0 where
  pub channel_id : String
  pub source_message_id : Option String
  pub sender_id : String
  pub content : String
  pub attachments : List String
  pub reply_to : Option String
  pub edit_of : Option String
  pub permissions : List String

pub record MessageOptions : Type 0 where
  pub username_pattern : String
  pub disable_typing_notifications : Bool

abbrev pub max_matrix_bytes : ℕ
max_matrix_bytes = 50 * 1024 * 1024

abbrev pub msgtype_of : String → String
msgtype_of content_type =
    if starts_with content_type "image/"
    then "m.image"
    else if starts_with content_type "video/"
    then "m.video"
    else if starts_with content_type "audio/"
    then "m.audio"
    else "m.file"

module _ {S : Type 0} (rooms : RoomStore S) (messages : MessageStore S) (outside : Outside S) where
  abbrev pub send : Call → Task S String
  send c = call c (λ log. outside.sent log c)

  unfoldable pub send_to_matrix_message : String → String → OutboundMatrixMessage → Task S String
  send_to_matrix_message room sender outbound = send (
      send_message_with_metadata room sender (render_body outbound) outbound.reply_to
        outbound.edit_of)

  -- An attachment as text, with what stands before its URL.
  abbrev pub send_url : String → String → String → String → Option String → Task S String
  send_url room sender label url reply_to = send (
      send_message_with_metadata room sender (String.◌++◌ label (String.◌++◌ ": " url)) reply_to
        none)

  abbrev pub send_uploaded :
      String → String → String → MediaInfo → Option String → Result String String → Task S String
  send_uploaded room sender url media reply_to (ok mxc_url) = send (
      send_media_message room sender (msgtype_of media.content_type) media.filename mxc_url
        reply_to)
  send_uploaded room sender url media reply_to (err e) =
      send_url room sender media.filename url reply_to

  abbrev pub upload_and_send : String → String → String → MediaInfo → Option String → Task S String
  upload_and_send room sender url media reply_to = do
    uploaded ← attempt (upload_media media) (λ log. outside.uploaded log media)
    send_uploaded room sender url media reply_to uploaded

  abbrev pub send_attachment_as :
      String → String → String → Option String → Result String MediaInfo → Task S String
  send_attachment_as room sender url reply_to (err e) =
      send_url room sender "Attachment" url reply_to
  send_attachment_as room sender url reply_to (ok media) =
      if ltb max_matrix_bytes media.size
      then send_url room sender media.filename url reply_to
      else upload_and_send room sender url media reply_to

  abbrev pub send_attachment : String → String → Option String → String → Task S String
  send_attachment room sender reply_to url = do
    media ← attempt (download url) (λ log. outside.media log url)
    send_attachment_as room sender url reply_to media

  -- The event that was sent last.
  abbrev pub send_attachments :
      String → String → Option String → Option String → List String → Task S (Option String)
  send_attachments room sender reply_to last [] = give last
  send_attachments room sender reply_to last (url ∷ urls) = do
    event ← send_attachment room sender reply_to url
    send_attachments room sender reply_to (some event) urls

  abbrev pub or_no_message : Option String → Task S String
  or_no_message none w = (err "no message was sent", w)
  or_no_message (some event) w = (ok event, w)

  abbrev pub send_body :
      String → String → OutboundMatrixMessage → Option String → Task S (Option String)
  send_body room sender outbound last = if is_empty outbound.body then give last else do
    event ←
        send
          (send_message_with_metadata room sender outbound.body outbound.reply_to outbound.edit_of)
    give (some event)

  unfoldable pub send_to_matrix_with_attachments :
      String → String → OutboundMatrixMessage → Task S String
  send_to_matrix_with_attachments room sender outbound = do
    attached ← send_attachments room sender outbound.reply_to none outbound.attachments
    last ← send_body room sender outbound attached
    or_no_message last

  -- The link of the message that another refers to, if there is one.
  abbrev pub linked_to : Option String → Task S (Option MessageMapping)
  linked_to none = give none
  linked_to (some id) = query (λ s. messages.get_by_discord_message_id s id)

  abbrev pub send_to_room : RoomMapping → String → OutboundMatrixMessage → Task S String
  send_to_room m sender outbound =
      if not (is_nil outbound.attachments)
      then send_to_matrix_with_attachments m.matrix_room_id sender outbound
      else send_to_matrix_message m.matrix_room_id sender outbound

  abbrev pub link_of : String → String → String → ℕ → MessageMapping
  link_of source room event now = record {
    id = 0;
    discord_message_id = source;
    matrix_room_id = room;
    matrix_event_id = event;
    created_at = now;
    updated_at = now;
  }

  abbrev pub remember_link : Option String → String → String → Task S (Unit {0})
  remember_link none room event = give tt
  remember_link (some source) room event = do
    now ← clock
    execute (λ s. messages.upsert_message_mapping s (link_of source room event now))

  abbrev pub register : MessageOptions → String → Option DiscordUser → Task S (Unit {0})
  register options sender none = perform outside.done (ensure_ghost_user_registered sender none)
  register options sender (some user) = perform outside.done (
      ensure_ghost_user_registered sender (
        some (
          apply_pattern_string options.username_pattern
            (("id", user.id) ∷ ("tag", user.discriminator) ∷ ("username", user.username) ∷ []))))

  module _ (format_for_matrix : String → String) (options : MessageOptions) where
    abbrev pub inbound_of : DiscordMessageContext → DiscordInboundMessage
    inbound_of ctx = record {
      channel_id = ctx.channel_id;
      sender_id = ctx.sender_id;
      content = ctx.content;
      attachments = ctx.attachments;
      reply_to = ctx.reply_to;
      edit_of = ctx.edit_of;
    }

    -- A message that is no command, in a channel that is bridged.
    unfoldable pub relay_discord_message : DiscordMessageContext → RoomMapping → Task S (Unit {0})
    relay_discord_message ctx m = do
      user ← call (get_user ctx.sender_id) (λ log. outside.user log ctx.sender_id)
      register options ctx.sender_id user
      reply_mapping ← linked_to (discord_to_matrix format_for_matrix (inbound_of ctx)).reply_to
      edit_mapping ← linked_to (discord_to_matrix format_for_matrix (inbound_of ctx)).edit_of
      event ← send_to_room m ctx.sender_id (
          apply_message_relation_mappings (discord_to_matrix format_for_matrix (inbound_of ctx))
            reply_mapping edit_mapping)
      remember_link ctx.source_message_id m.matrix_room_id event

    abbrev pub redact : String → Option RedactionRequest → Task S (Unit {0})
    redact id none = give tt
    redact id (some request) = do
      perform outside.done (redact_message request.room_id request.event_id request.reason)
      execute (λ s. messages.delete_by_discord_message_id s id)

    unfoldable pub handle_discord_message_delete : String → Task S (Unit {0})
    handle_discord_message_delete id = do
      link ← query (λ s. messages.get_by_discord_message_id s id)
      redact id (discord_delete_redaction_request link)

    abbrev pub show_typing : TypingRequest → Task S (Unit {0})
    show_typing request = perform outside.done (
        set_discord_user_typing request.room_id request.discord_user_id request.typing
          request.timeout_ms)

    abbrev pub type_in : String → Option RoomMapping → Task S (Unit {0})
    type_in sender none = give tt
    type_in sender (some m) = do
      perform outside.done (ensure_ghost_user_registered sender none)
      show_typing (build_discord_typing_request m.matrix_room_id sender)

    unfoldable pub handle_discord_typing : String → String → Task S (Unit {0})
    handle_discord_typing channel sender = do
      mapping ← query (λ s. rooms.get_room_by_discord_channel s channel)
      if not (should_forward_discord_typing options.disable_typing_notifications mapping)
          then give tt
          else type_in sender mapping
