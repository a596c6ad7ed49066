-- ===== src/MessageFlow/Tests.antt =====
-- Events and messages, run.
use matrix_bridge_discord.Prelude.{
  [], String, Bool, true, false, Option, none, some, ◌≡◌, refl, if◌then◌else◌, ◌==◌,
}
use matrix_bridge_discord.HashMap.{string_eq}
use matrix_bridge_discord.MessageFlow.{
  Json, replace, MatrixInboundMessage, OutboundDiscordMessage, MatrixEvent, parse_relation,
  parse_attachments, extract_plain_text, parse_matrix_event,
}
use matrix_bridge_discord.MessageFlow.Inbound.{
  Relates, Taken, parse_relation-Relates, parse_matrix_event-Taken,
}

-- Texts and objects of texts and objects.
mutual
  pub data Value : Type 0 where
    text : String → Value
    object : Fields → Value

  pub data Fields : Type 0 where
    no_fields : Fields
    field : String → Value → Fields → Fields

abbrev pub get_field : Fields → String → Option Value
get_field no_fields key = none
get_field (field name value rest) key =
    let later = get_field rest key in if name == key then some value else later

abbrev pub get_value : Value → String → Option Value
get_value (text _) key = none
get_value (object fields) key = get_field fields key

abbrev pub as_text : Value → Option String
as_text (text s) = some s
as_text (object _) = none

abbrev pub has_fields : Value → Bool
has_fields (text _) = false
has_fields (object _) = true

abbrev pub small_json : Json
small_json = record { Value = Value; get = get_value; as_str = as_text; is_object = has_fields }

abbrev pub edit_content : Value
edit_content = object (
    field "body" (text "* hi") (
      field "m.relates_to"
        (object (field "rel_type" (text "m.replace") (field "event_id" (text "$1") no_fields)))
        no_fields))

edits : parse_relation small_json edit_content ≡ some (replace "$1")
unfolding parse_relation
edits = refl

parse_relation-Relates_example :
    (relates_to : Value) × (get_value edit_content "m.relates_to" ≡ some relates_to)
    × Relates small_json relates_to (some (replace "$1"))
parse_relation-Relates_example = parse_relation-Relates small_json edit_content (replace "$1") edits

abbrev pub edit_event : MatrixEvent small_json
edit_event = record {
  event_id = some "$2";
  event_type = "m.room.message";
  room_id = "!r";
  sender = "@a";
  state_key = none;
  content = some edit_content;
  timestamp = none;
}

abbrev edit_message : MatrixInboundMessage
edit_message = record {
  event_id = some "$2";
  room_id = "!r";
  sender = "@a";
  body = "* hi";
  relation = some (replace "$1");
  attachments = [];
}

edit_read : parse_matrix_event small_json (λ s. s) edit_event ≡ some edit_message
unfolding parse_matrix_event parse_relation parse_attachments extract_plain_text
edit_read = refl

parse_matrix_event-Taken_example : Taken small_json (λ s. s) edit_event edit_message
parse_matrix_event-Taken_example =
    parse_matrix_event-Taken small_json (λ s. s) edit_event edit_message edit_read

abbrev bare_embed : String → Option String → String → Option (String × String) → String
bare_embed name avatar body info = body

abbrev hello : OutboundDiscordMessage String
hello = record {
  content = "hello";
  reply_to = none;
  edit_of = none;
  attachments = [];
  embed = none;
  use_embed = false;
}
