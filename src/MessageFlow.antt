-- ===== src/MessageFlow.antt =====
-- src/bridge/message_flow.rs: what a Matrix event becomes on Discord, and what a Discord message
-- becomes on Matrix. The JSON value of `serde_json`, the removal of HTML tags, and the converters of
-- the two markups are parameters.
pub mod Inbound
pub mod Outbound
pub mod Tests
use Prim.Native.String
use mathlib.Core.Option
use matrix_bridge_discord.Prelude.{
  List, [], ◌∷◌, String, Bool, true, false, not, Option, none, some, if◌then◌else◌, ◌==◌, ◌&&◌,
  ◌||◌, any, map, ◌++◌, ◌>>=◌, unwrap_or, is_nil,
}
use matrix_bridge_discord.Text.{is_empty, join}

-- The accessors of a JSON value that the program calls.
pub record Json : Type 1 where
  pub Value : Type 0
  pub get : Value → String → Option Value
  pub as_str : Value → Option String
  pub is_object : Value → Bool

pub data MessageRelation : Type 0 where
  reply replace : String → MessageRelation

pub record MessageAttachment : Type 0 where
  pub name : String
  pub url : String
  pub kind : String

pub record MatrixInboundMessage : Type 0 where
  pub event_id : Option String
  pub room_id : String
  pub sender : String
  pub body : String
  pub relation : Option MessageRelation
  pub attachments : List MessageAttachment

pub record DiscordInboundMessage : Type 0 where
  pub channel_id : String
  pub sender_id : String
  pub content : String
  pub attachments : List String
  pub reply_to : Option String
  pub edit_of : Option String

-- `Embed` stands for `DiscordEmbed`.
pub record OutboundDiscordMessage (Embed : Type 0) : Type 0 where
  pub content : String
  pub reply_to : Option String
  pub edit_of : Option String
  pub attachments : List String
  pub embed : Option Embed
  pub use_embed : Bool

pub record OutboundMatrixMessage : Type 0 where
  pub body : String
  pub reply_to : Option String
  pub edit_of : Option String
  pub attachments : List String

abbrev pub marked : String → Option String → List String
marked label none = []
marked label (some id) =
    String.◌++◌ "(" (String.◌++◌ label (String.◌++◌ ":" (String.◌++◌ id ")"))) ∷ []

module _ {Embed : Type 0} where
  unfoldable pub new : String → OutboundDiscordMessage Embed
  new content = record {
    content = content;
    reply_to = none;
    edit_of = none;
    attachments = [];
    embed = none;
    use_embed = false;
  }

  unfoldable pub with_embed : OutboundDiscordMessage Embed → Embed → OutboundDiscordMessage Embed
  with_embed m embed = record m { embed = some embed; use_embed = true }

  unfoldable pub render_content : OutboundDiscordMessage Embed → String
  render_content m =
      join
        (marked "reply" m.reply_to
          ++ marked "edit" m.edit_of
          ++ (if is_empty m.content then [] else m.content ∷ [])
          ++ (if is_nil m.attachments then [] else join m.attachments " " ∷ []))
        "\n"

abbrev pub quoted : Option String → String → String
quoted none body = body
quoted (some id) body = String.◌++◌ "> reply to " (String.◌++◌ id (String.◌++◌ "\n" body))

abbrev pub starred : Option String → String → String
starred none body = body
starred (some id) body =
    String.◌++◌ "* " (String.◌++◌ body (String.◌++◌ "\n(edit:" (String.◌++◌ id ")")))

unfoldable pub render_body : OutboundMatrixMessage → String
render_body m =
    let body = starred m.edit_of (quoted m.reply_to m.body) in
    if is_nil m.attachments
    then body
    else String.◌++◌ (if is_empty body then body else String.◌++◌ body "\n")
        (join m.attachments "\n")

abbrev pub reply_of : Option MessageRelation → Option String
reply_of none = none
reply_of (some (reply id)) = some id
reply_of (some (replace id)) = none

abbrev pub edit_of : Option MessageRelation → Option String
edit_of none = none
edit_of (some (reply id)) = none
edit_of (some (replace id)) = some id

abbrev pub urls : List MessageAttachment → List String
urls = map (λ a. a.url)

module _ {Embed : Type 0} (format_for_discord : String → String) where
  unfoldable pub matrix_to_discord : MatrixInboundMessage → OutboundDiscordMessage Embed
  matrix_to_discord m = record {
    content = format_for_discord m.body;
    reply_to = reply_of m.relation;
    edit_of = edit_of m.relation;
    attachments = urls m.attachments;
    embed = none;
    use_embed = false;
  }

-- `build_message_embed` gets the name, the avatar, the body and the message that is replied to.
module _ {Embed : Type 0}
    (build_message_embed : String → Option String → String → Option (String × String) → Embed) where
  unfoldable pub matrix_to_discord_with_embed :
      MatrixInboundMessage
      → String
      → Option String
      → Option (String × String)
      → OutboundDiscordMessage Embed
  matrix_to_discord_with_embed m displayname avatar reply_info = record {
    content = "";
    reply_to = reply_of m.relation;
    edit_of = edit_of m.relation;
    attachments = urls m.attachments;
    embed = some (build_message_embed displayname avatar m.body reply_info);
    use_embed = true;
  }

module _ (format_for_matrix : String → String) where
  unfoldable pub discord_to_matrix : DiscordInboundMessage → OutboundMatrixMessage
  discord_to_matrix m = record {
    body = format_for_matrix m.content;
    reply_to = m.reply_to;
    edit_of = m.edit_of;
    attachments = m.attachments;
  }

abbrev pub attachment_types : List String
attachment_types = "m.image" ∷ "m.audio" ∷ "m.video" ∷ "m.file" ∷ "m.sticker" ∷ []

module _ (json : Json) where
  open json use {Value, get, as_str, is_object}

  -- `value.get(key).and_then(Value::as_str)`
  abbrev pub get_str : Value → String → Option String
  get_str value key = get value key >>= as_str

  abbrev pub replacement_of : Value → Option MessageRelation
  replacement_of relates_to =
      if unwrap_or (Option.map (λ kind. kind == "m.replace") (get_str relates_to "rel_type")) false
      then Option.map replace (get_str relates_to "event_id")
      else none

  abbrev pub or_else : Option String → Option MessageRelation → Option MessageRelation
  or_else (some id) other = some (reply id)
  or_else none other = other

  unfoldable pub parse_relation : Value → Option MessageRelation
  parse_relation content = get content "m.relates_to" >>= λ relates_to.
      or_else (get relates_to "m.in_reply_to" >>= λ inner. get_str inner "event_id")
        (replacement_of relates_to)

  abbrev pub attachments_at : Value → String → Option String → List MessageAttachment
  attachments_at content msgtype none = []
  attachments_at content msgtype (some url) =
      record { name = unwrap_or (get_str content "body") "matrix-media"; url = url; kind = msgtype }
      ∷ []

  unfoldable pub parse_attachments : Value → String → List MessageAttachment
  parse_attachments content msgtype =
      if not (any (λ kind. kind == msgtype) attachment_types)
      then []
      else attachments_at content msgtype (get_str content "url")

  -- `MatrixEvent` of matrix.rs.
  pub record MatrixEvent : Type 0 where
    pub event_id : Option String
    pub event_type : String
    pub room_id : String
    pub sender : String
    pub state_key : Option String
    pub content : Option Value
    pub timestamp : Option String

  -- `content.get("m.new_content").filter(|value| value.is_object()).unwrap_or(content)`
  abbrev pub object_or : Option Value → Value → Value
  object_or none content = content
  object_or (some value) content = if is_object value then value else content

  abbrev pub default_type : String → String
  default_type event_type = if event_type == "m.sticker" then "m.sticker" else "m.text"

  module _ (strip_html_tags : String → String) where
    abbrev pub body_or_formatted : Option String → Option String → String
    body_or_formatted (some body) formatted = body
    body_or_formatted none (some formatted) = strip_html_tags formatted
    body_or_formatted none none = ""

    abbrev pub text_or_object : Option String → Value → String
    text_or_object (some s) content = s
    text_or_object none content =
        if is_object content
        then body_or_formatted (get_str content "body") (get_str content "formatted_body")
        else ""

    unfoldable pub extract_plain_text : Value → String
    extract_plain_text content = text_or_object (as_str content) content

    abbrev pub inbound :
        MatrixEvent
        → String
        → Option MessageRelation
        → List MessageAttachment
        → Option MatrixInboundMessage
    inbound event body relation attachments =
        if is_empty body && is_nil attachments
        then none
        else some (record {
          event_id = event.event_id;
          room_id = event.room_id;
          sender = event.sender;
          body = body;
          relation = relation;
          attachments = attachments;
        })

    abbrev pub parse_content : MatrixEvent → Value → Option MatrixInboundMessage
    parse_content event content =
        let content_for_body = object_or (get content "m.new_content") content in
        let msgtype =
          unwrap_or (get_str content_for_body "msgtype") (default_type event.event_type) in
        inbound event (extract_plain_text content_for_body) (parse_relation content)
          (parse_attachments content_for_body msgtype)

    unfoldable pub parse_matrix_event : MatrixEvent → Option MatrixInboundMessage
    parse_matrix_event event =
        if not (event.event_type == "m.room.message" || event.event_type == "m.sticker")
        then none
        else event.content >>= parse_content event
