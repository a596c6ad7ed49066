-- ===== src/FromMatrix.antt =====
-- src/bridge.rs: a message from Matrix is an echo, a command, or becomes messages on Discord.
pub mod Profile
pub mod Delivery
pub mod Forwarding
mod Tests
use Prim.Native.String
use matrix_bridge_discord.Prelude.{
  ℕ, List, [], ◌∷◌, ◌*◌, String, Bool, true, false, not, Option, none, some, if◌then◌else◌, Result,
  ok, err, ℤ, is_some, ltb, unwrap_or,
}
use mathlib.Core.Option
use matrix_bridge_discord.Text.{is_empty, starts_with}
use matrix_bridge_discord.MatrixCommand
use matrix_bridge_discord.MatrixCommand.{
  MatrixCommandHandler, MatrixCommandOutcome, ignored, reply, bridge_requested, unbridge_requested,
}
use matrix_bridge_discord.BridgeLogic.{RoomMapping}
use matrix_bridge_discord.MessageFlow.{
  Json, MatrixEvent, MatrixInboundMessage, OutboundDiscordMessage, extract_plain_text,
  parse_matrix_event, matrix_to_discord, render_content,
}
use matrix_bridge_discord.Rooms.{Options, request_bridge_matrix_room, unbridge_matrix_room}
use matrix_bridge_discord.Rooms.Store.{RoomStore}
use matrix_bridge_discord.Rooms.Tasks.{
  Call, get_user_profile, check_permission, download, send_notice, send_as_user, send_file_as_user,
  Outside, MediaInfo, World, Task, give, ◌>>=◌, ◌>>◌, query, call, attempt, perform,
}
use matrix_bridge_discord.FromMatrix.Profile.{
  avatar_for_discord, is_namespaced_user, Shown, shown_as,
}

abbrev pub max_discord_bytes : ℕ
max_discord_bytes = 8 * 1024 * 1024

-- An attachment's address, and the file if it has been downloaded.
abbrev pub Downloaded : Type 0
Downloaded = String × Option MediaInfo

abbrev pub if_small : String → Result String MediaInfo → Downloaded
if_small url (err e) = (url, none)
if_small url (ok media) =
    if ltb max_discord_bytes media.size then (url, none) else (url, some media)

abbrev pub labelled : String → String → String
labelled label url = String.◌++◌ label (String.◌++◌ ": " url)

module _ {S : Type 0} (outside : Outside S) where
  abbrev pub download_one : String → Task S Downloaded
  download_one url = if not (starts_with url "mxc://") then give (url, none) else do
    answer ← attempt (download url) (λ log. outside.media log url)
    give (if_small url answer)

  unfoldable pub download_matrix_attachments : List String → Task S (List Downloaded)
  download_matrix_attachments [] = give []
  download_matrix_attachments (url ∷ urls) = do
    one ← download_one url
    rest ← download_matrix_attachments urls
    give (one ∷ rest)

  abbrev pub post : Call → Task S String
  post c = call c (λ log. outside.sent log c)

  module _ (channel : String) (shown : Shown) where
    abbrev pub post_text : String → Task S String
    post_text text = post (send_as_user channel text [] none none shown.username shown.avatar)

    -- The upload of a file, or its address if the upload failed.
    abbrev pub or_url : String → MediaInfo → Result String String → Task S String
    or_url url media (ok id) = give id
    or_url url media (err e) = post_text (labelled media.filename url)

    abbrev pub upload_file : String → MediaInfo → Task S String
    upload_file url media = do
      answer ←
          attempt (send_file_as_user channel media shown.username shown.avatar)
            (λ log. outside.sent log (send_file_as_user channel media shown.username shown.avatar))
      or_url url media answer

    abbrev pub post_attachment : Downloaded → Task S String
    post_attachment (url, none) = post_text (labelled "Attachment" url)
    post_attachment (url, some media) =
        if ltb max_discord_bytes media.size
        then post_text (labelled media.filename url)
        else upload_file url media

    abbrev pub post_attachments : List Downloaded → Task S (Unit {0})
    post_attachments [] = give tt
    post_attachments (a ∷ rest) = do id ← post_attachment a; post_attachments rest

  -- The profile of the sender, or the sender alone if it is unknown.
  abbrev pub profile_of : String → Task S (Result String (Option (String × Option String)))
  profile_of sender = attempt (get_user_profile sender) (λ log. outside.profile log sender)

  module _ (homeserver_url : String) {Embed : Type 0} where
    abbrev pub post_content : String → Shown → OutboundDiscordMessage Embed → Task S (Unit {0})
    post_content channel shown outbound = if is_empty outbound.content then give tt else do
      id ← post (
          send_as_user channel outbound.content [] outbound.reply_to outbound.edit_of shown.username
            shown.avatar)
      give tt

    unfoldable pub send_to_discord_with_attachments :
        String → OutboundDiscordMessage Embed → String → List Downloaded → Task S (Unit {0})
    send_to_discord_with_attachments channel outbound sender attachments = do
      profile ← profile_of sender
      post_attachments channel (shown_as homeserver_url sender profile) attachments
      post_content channel (shown_as homeserver_url sender profile) outbound

    unfoldable pub send_to_discord_message_as_user :
        String → OutboundDiscordMessage Embed → String → Task S (Unit {0})
    send_to_discord_message_as_user channel outbound sender = do
      profile ← profile_of sender
      id ← post (
          send_as_user channel (render_content outbound) outbound.attachments outbound.reply_to
            outbound.edit_of (shown_as homeserver_url sender profile).username
            (shown_as homeserver_url sender profile).avatar)
      give tt

module _ {S : Type 0} (rooms : RoomStore S) (to_string : ℤ → String) (outside : Outside S)
    (options : Options) (homeserver_url : String) (handler : MatrixCommandHandler) (json : Json)
    (strip_html_tags format_for_discord : String → String) (Embed : Type 0) where
  abbrev pub notice : String → String → Task S (Unit {0})
  notice room text = perform outside.done (send_notice room text)

  unfoldable pub handle_matrix_command_outcome :
      MatrixCommandOutcome → String → String → Task S (Unit {0})
  handle_matrix_command_outcome ignored room sender = give tt
  handle_matrix_command_outcome (reply text) room sender = notice room text
  handle_matrix_command_outcome (bridge_requested guild_id channel_id) room sender = do
    text ←
        request_bridge_matrix_room rooms to_string outside options room sender guild_id channel_id
    notice room text
  handle_matrix_command_outcome unbridge_requested room sender = do
    text ← unbridge_matrix_room rooms to_string outside options room
    notice room text

  abbrev pub granted : Result String Bool → Bool
  granted (ok b) = b
  granted (err e) = false

  -- The body of an event, if there is one.
  abbrev pub body_of : MatrixEvent json → String
  body_of event = unwrap_or (Option.map (extract_plain_text json strip_html_tags) event.content) ""

  abbrev pub obey : MatrixEvent json → Option RoomMapping → Task S (Unit {0})
  obey event mapping = do
    answer ←
        attempt (check_permission event.sender event.room_id)
          (λ log. outside.allowed log event.sender event.room_id)
    handle_matrix_command_outcome
        (MatrixCommand.handle handler (λ _. ok (granted answer)) (body_of event) (is_some mapping))
        event.room_id event.sender

  abbrev pub forward_outbound :
      String → RoomMapping → OutboundDiscordMessage Embed → Task S (Unit {0})
  forward_outbound sender m outbound = do
    downloaded ← download_matrix_attachments outside outbound.attachments
    send_to_discord_with_attachments outside homeserver_url m.discord_channel_id outbound sender
        downloaded

  abbrev pub forward :
      MatrixEvent json → RoomMapping → Option MatrixInboundMessage → Task S (Unit {0})
  forward event m none = give tt
  forward event m (some message) =
      forward_outbound event.sender m (matrix_to_discord format_for_discord message)

  abbrev pub forward_if_bridged : MatrixEvent json → Option RoomMapping → Task S (Unit {0})
  forward_if_bridged event none = give tt
  forward_if_bridged event (some m) =
      forward event m (parse_matrix_event json strip_html_tags event)

  unfoldable pub handle_matrix_message : MatrixEvent json → Task S (Unit {0})
  handle_matrix_message event = if is_namespaced_user event.sender then give tt else do
    mapping ← query (λ s. rooms.get_room_by_matrix_room s event.room_id)
    if MatrixCommand.is_command handler (body_of event)
        then obey event mapping
        else forward_if_bridged event mapping
