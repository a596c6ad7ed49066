-- ===== src/MatrixContent/Tests.antt =====
-- Contents, built of texts and objects of texts and objects.
use matrix_bridge_discord.Prelude.{
  List, [], ◌∷◌, String, true, none, some, ◌≡◌, refl, arith, if◌then◌else◌, ◌==◌,
}
use matrix_bridge_discord.HashMap
use matrix_bridge_discord.HashMap.{string_eq}
use matrix_bridge_discord.MessageFlow.{MatrixEvent, replace, parse_matrix_event}
use matrix_bridge_discord.MessageFlow.Tests.{
  Value, text, object, Fields, no_fields, field, get_field, get_value, as_text, has_fields,
  small_json,
}
use matrix_bridge_discord.MatrixContent.{JsonBuilder, BuilderLaws, build_matrix_message_content}
use matrix_bridge_discord.MatrixContent.RoundTrip.{message_of, parse_matrix_event-build}

abbrev fields_of : List (String × Value) → Fields
fields_of [] = no_fields
fields_of ((key, value) ∷ l) = field key value (fields_of l)

abbrev set_field : Value → String → Value → Value
set_field (text s) key value = text s
set_field (object parts) key value = object (field key value parts)

abbrev small_builder : JsonBuilder small_json
small_builder = record { object = λ l. object (fields_of l); text = text; set = set_field }

get_field-fields_of :
    (l : List (String × Value)) (key : String) → get_field (fields_of l) key ≡ HashMap.get key l
unfolding HashMap.get
get_field-fields_of [] key = refl
get_field-fields_of ((name, value) ∷ l) key = rw (get_field-fields_of l key) refl

has_fields-set_field :
    (v : Value) (key : String) (x : Value)
    → has_fields v ≡ true
    → has_fields (set_field v key x) ≡ true
has_fields-set_field (text s) key x h = h
has_fields-set_field (object parts) key x h = refl

get_value-set_field :
    (v : Value) (key other : String) (x : Value)
    → has_fields v ≡ true
    → get_value (set_field v key x) other ≡ (if key == other then some x else get_value v other)
get_value-set_field (text s) key other x h = ground arith
get_value-set_field (object parts) key other x h = refl

as_text-has_fields : (v : Value) → has_fields v ≡ true → as_text v ≡ none
as_text-has_fields (text s) h = ground arith
as_text-has_fields (object parts) h = refl

small_builder-BuilderLaws : BuilderLaws small_json small_builder
small_builder-BuilderLaws = record {
  text-as_str = λ s. refl;
  object-is_object = λ l. refl;
  object-get = λ l key h. get_field-fields_of l key;
  set-is_object = has_fields-set_field;
  set-get = get_value-set_field;
  object-as_str = as_text-has_fields;
}

abbrev edit_of_reply : MatrixEvent small_json
edit_of_reply = record {
  event_id = some "$3";
  event_type = "m.room.message";
  room_id = "!r";
  sender = "@_discord_5:example.org";
  state_key = none;
  content =
      some (build_matrix_message_content small_json small_builder "hi" (some "$1") (some "$2"));
  timestamp = none;
}

abbrev as_is : String → String
as_is s = s

parse_matrix_event-build_example :
    parse_matrix_event small_json as_is edit_of_reply
    ≡ some (
        message_of small_json small_builder small_builder-BuilderLaws as_is edit_of_reply "hi"
          (some (replace "$2")))
parse_matrix_event-build_example =
    parse_matrix_event-build small_json small_builder small_builder-BuilderLaws as_is edit_of_reply
      "hi" (some "$1") (some "$2") refl refl
