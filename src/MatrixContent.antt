-- ===== src/MatrixContent.antt =====
-- src/matrix.rs: the content of a message for Matrix. How `serde_json` builds a value is a parameter.
pub mod RoundTrip
mod Tests
use Prim.Native.String
use matrix_bridge_discord.Prelude.{
  List, [], ◌∷◌, String, Bool, true, Option, none, some, ◌≡◌, if◌then◌else◌, ◌==◌,
}
use matrix_bridge_discord.HashMap
use matrix_bridge_discord.HashMap.{string_eq}
use matrix_bridge_discord.MessageFlow.{Json}

-- `json!({ key: value, ... })`, a text as a value, and `value[key] = ...` of an object.
pub record JsonBuilder (json : Json) : Type 0 where
  pub object : List (String × json.Value) → json.Value
  pub text : String → json.Value
  pub set : json.Value → String → json.Value → json.Value

-- A field that is set is found, the others stay; an object is no text.
pub record BuilderLaws (json : Json) (build : JsonBuilder json) : Type 0 where
  pub text-as_str : (s : String) → json.as_str (build.text s) ≡ some s
  pub object-is_object : (l : List (String × json.Value)) → json.is_object (build.object l) ≡ true
  pub object-get :
      (l : List (String × json.Value)) (key : String)
      → HashMap.HasDistinctKeys l
      → json.get (build.object l) key ≡ HashMap.get key l
  pub set-is_object :
      (v : json.Value) (key : String) (x : json.Value)
      → json.is_object v ≡ true
      → json.is_object (build.set v key x) ≡ true
  pub set-get :
      (v : json.Value) (key other : String) (x : json.Value)
      → json.is_object v ≡ true
      → json.get (build.set v key x) other ≡ (if key == other then some x else json.get v other)
  pub object-as_str : (v : json.Value) → json.is_object v ≡ true → json.as_str v ≡ none

-- matrix.rs
unfoldable pub ghost_user_id : String → String → String
ghost_user_id discord_user_id domain =
    String.◌++◌ "@_discord_" (String.◌++◌ discord_user_id (String.◌++◌ ":" domain))

module _ (json : Json) (build : JsonBuilder json) where
  abbrev pub text_message : String → json.Value
  text_message body =
      build.object (("msgtype", build.text "m.text") ∷ ("body", build.text body) ∷ [])

  abbrev pub with_reply : Option String → json.Value → json.Value
  with_reply none content = content
  with_reply (some reply_id) content =
      build.set content "m.relates_to" (
        build.object
          (("m.in_reply_to", build.object (("event_id", build.text reply_id) ∷ [])) ∷ []))

  abbrev pub with_edit : Option String → String → json.Value → json.Value
  with_edit none body content = content
  with_edit (some edit_event_id) body content =
      build.set
        (build.set (build.set content "m.new_content" (text_message body)) "m.relates_to" (
          build.object
            (("rel_type", build.text "m.replace") ∷ ("event_id", build.text edit_event_id) ∷ [])))
        "body" (build.text (String.◌++◌ "* " body))

  unfoldable pub build_matrix_message_content : String → Option String → Option String → json.Value
  build_matrix_message_content body reply_to edit_of =
      with_edit edit_of body (with_reply reply_to (text_message body))
