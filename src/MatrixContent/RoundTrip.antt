-- ===== src/MatrixContent/RoundTrip.antt =====
-- A message that the bridge builds is read back.
use matrix_bridge_discord.Prelude.{
  [], ◌∷◌, String, true, Option, none, some, ◌≡◌, refl, ◌∙◌, if◌then◌else◌, ◌==◌, unwrap_or,
  Bool-cases, inl, inr,
}
use matrix_bridge_discord.Text.{is_empty}
use matrix_bridge_discord.HashMap
use matrix_bridge_discord.HashMap.{string_eq}
use matrix_bridge_discord.MessageFlow.{
  Json, MessageRelation, reply, replace, MatrixInboundMessage, MatrixEvent, get_str, parse_relation,
  parse_attachments, extract_plain_text, parse_content, parse_matrix_event, object_or, default_type,
  inbound,
}
use matrix_bridge_discord.MatrixContent.{
  JsonBuilder, BuilderLaws, text_message, with_reply, with_edit, build_matrix_message_content,
}

abbrev pub relation_of : Option String → Option String → Option MessageRelation
relation_of reply_to (some edit_event_id) = some (replace edit_event_id)
relation_of (some reply_id) none = some (reply reply_id)
relation_of none none = none

module _ (json : Json) (build : JsonBuilder json) (laws : BuilderLaws json build) where
  text_message-get :
      (body key : String)
      → json.get (text_message json build body) key ≡ (
          if "msgtype" == key
          then some (build.text "m.text")
          else if "body" == key
          then some (build.text body)
          else none)
  unfolding HashMap.get
  text_message-get body key = laws.object-get _ key ((refl, tt), (tt, tt))

  replied-is_object :
      (body : String) (reply_to : Option String)
      → json.is_object (with_reply json build reply_to (text_message json build body)) ≡ true
  replied-is_object body none = laws.object-is_object _
  replied-is_object body (some r) = laws.set-is_object _ _ _ (laws.object-is_object _)

  module _ (body : String) (reply_to : Option String) (e : String) where
    abbrev edited : json.Value
    edited =
        with_edit json build (some e) body
          (with_reply json build reply_to (text_message json build body))

    abbrev replacement : json.Value
    replacement =
        build.object (("rel_type", build.text "m.replace") ∷ ("event_id", build.text e) ∷ [])

    first-is_object :
        json.is_object (
          build.set
            (with_reply json build reply_to (text_message json build body))
            "m.new_content"
            (text_message json build body))
        ≡ true
    first-is_object = laws.set-is_object _ _ _ (replied-is_object body reply_to)

    second-is_object :
        json.is_object (
          build.set
            (build.set
              (with_reply json build reply_to (text_message json build body))
              "m.new_content"
              (text_message json build body))
            "m.relates_to"
            replacement)
        ≡ true
    second-is_object = laws.set-is_object _ _ _ first-is_object

    edited-is_object : json.is_object edited ≡ true
    edited-is_object = laws.set-is_object _ _ _ second-is_object

    edited-relates_to : json.get edited "m.relates_to" ≡ some replacement
    edited-relates_to =
        laws.set-get _ "body" "m.relates_to" _ second-is_object
        ∙ laws.set-get _ "m.relates_to" "m.relates_to" _ first-is_object

    edited-new_content : json.get edited "m.new_content" ≡ some (text_message json build body)
    edited-new_content =
        laws.set-get _ "body" "m.new_content" _ second-is_object
        ∙ laws.set-get _ "m.relates_to" "m.new_content" _ first-is_object
        ∙ laws.set-get _ "m.new_content" "m.new_content" _ (replied-is_object body reply_to)

    replacement-get :
        (key : String)
        → json.get replacement key ≡ (
            if "rel_type" == key
            then some (build.text "m.replace")
            else if "event_id" == key
            then some (build.text e)
            else none)
    unfolding HashMap.get
    replacement-get key = laws.object-get _ key ((refl, tt), (tt, tt))

    edited-relation : parse_relation json edited ≡ some (replace e)
    unfolding parse_relation
    edited-relation =
        rw
          (
            edited-relates_to, replacement-get, replacement-get, replacement-get, laws.text-as_str,
            laws.text-as_str,
          )
          refl

  module _ (body r : String) where
    abbrev replied : json.Value
    replied = with_reply json build (some r) (text_message json build body)

    abbrev target : json.Value
    target = build.object (("event_id", build.text r) ∷ [])

    replied-get :
        (key : String)
        → json.get replied key ≡ (
            if "m.relates_to" == key
            then some (build.object (("m.in_reply_to", target) ∷ []))
            else json.get (text_message json build body) key)
    replied-get key = laws.set-get _ _ key _ (laws.object-is_object _)

    answer-get :
        (key : String)
        → json.get (build.object (("m.in_reply_to", target) ∷ [])) key
          ≡ (if "m.in_reply_to" == key then some target else none)
    unfolding HashMap.get
    answer-get key = laws.object-get _ key (tt, tt)

    target-get :
        (key : String)
        → json.get target key ≡ (if "event_id" == key then some (build.text r) else none)
    unfolding HashMap.get
    target-get key = laws.object-get _ key (tt, tt)

    replied-relation : parse_relation json replied ≡ some (reply r)
    unfolding parse_relation
    replied-relation = rw (replied-get, answer-get, target-get, laws.text-as_str) refl

  -- What the content says, whatever relation it has.
  pub parse_relation-build :
      (body : String) (reply_to edit_of : Option String)
      → parse_relation json (build_matrix_message_content json build body reply_to edit_of)
        ≡ relation_of reply_to edit_of
  unfolding parse_relation build_matrix_message_content HashMap.get
  parse_relation-build body none none = rw text_message-get refl
  parse_relation-build body (some r) none = replied-relation body r
  parse_relation-build body reply_to (some e) = edited-relation body reply_to e

  module _ (strip_html_tags : String → String) where
    -- An object with a body and the type of a text.
    text-parts :
        (v : json.Value) (body : String) (other : String)
        → json.is_object v ≡ true
        → json.get v "body" ≡ some (build.text body)
        → json.get v "msgtype" ≡ some (build.text "m.text")
        → (extract_plain_text json strip_html_tags v ≡ body)
          × (parse_attachments json v (unwrap_or (get_str json v "msgtype") other) ≡ [])
    unfolding extract_plain_text parse_attachments
    text-parts v body other o b t =
        (rw (laws.object-as_str v o, o, b, laws.text-as_str) refl, rw (t, laws.text-as_str) refl)

    message-parts :
        (body other : String)
        → let v = text_message json build body in
          (extract_plain_text json strip_html_tags v ≡ body)
          × (parse_attachments json v (unwrap_or (get_str json v "msgtype") other) ≡ [])
    message-parts body other =
        text-parts (text_message json build body) body other (laws.object-is_object _)
          (text_message-get body "body") (text_message-get body "msgtype")

    replied-parts :
        (body r other : String)
        → let v = with_reply json build (some r) (text_message json build body) in
          (extract_plain_text json strip_html_tags v ≡ body)
          × (parse_attachments json v (unwrap_or (get_str json v "msgtype") other) ≡ [])
    replied-parts body r other =
        text-parts _ body other (replied-is_object body (some r))
          (replied-get body r "body" ∙ text_message-get body "body")
          (replied-get body r "msgtype" ∙ text_message-get body "msgtype")

    abbrev pub message_of :
        MatrixEvent json → String → Option MessageRelation → MatrixInboundMessage
    message_of event body relation = record {
      event_id = event.event_id;
      room_id = event.room_id;
      sender = event.sender;
      body = body;
      relation = relation;
      attachments = [];
    }

    inbound-text :
        (event : MatrixEvent json) (body : String) (relation : Option MessageRelation)
        → inbound json strip_html_tags event body relation []
          ≡ (if is_empty body then none else some (message_of event body relation))
    inbound-text event body relation = elim (Bool-cases (is_empty body)) [
      | inl e ↦ rw e refl
      | inr e ↦ rw e refl
    ]

    content-parts :
        (event : MatrixEvent json) (content says : json.Value) (body : String)
        (relation : Option MessageRelation)
        → object_or json (json.get content "m.new_content") content ≡ says
        → (extract_plain_text json strip_html_tags says ≡ body)
          × (parse_attachments json says
                (unwrap_or (get_str json says "msgtype") (default_type json event.event_type))
              ≡ [])
        → parse_relation json content ≡ relation
        → parse_content json strip_html_tags event content
          ≡ (if is_empty body then none else some (message_of event body relation))
    content-parts event content says body relation chosen parts related =
        rw (chosen, parts.0, parts.1, related) (inbound-text event body relation)

    parse_content-build :
        (event : MatrixEvent json) (body : String) (reply_to edit_of : Option String)
        → parse_content json strip_html_tags event
            (build_matrix_message_content json build body reply_to edit_of)
          ≡ (if is_empty body
              then none
              else some (message_of event body (relation_of reply_to edit_of)))
    unfolding build_matrix_message_content
    parse_content-build event body none none =
        content-parts event _ (text_message json build body) body none (rw text_message-get refl)
          (message-parts body (default_type json event.event_type))
          (parse_relation-build body none none)
    parse_content-build event body (some r) none =
        content-parts event _ (replied body r) body (some (reply r))
          (rw (replied-get, text_message-get) refl)
          (replied-parts body r (default_type json event.event_type))
          (parse_relation-build body (some r) none)
    parse_content-build event body reply_to (some e) =
        content-parts event _ (text_message json build body) body (some (replace e))
          (rw (edited-new_content, laws.object-is_object) refl)
          (message-parts body (default_type json event.event_type))
          (edited-relation body reply_to e)

    -- An event whose content the bridge has built is read as a message with the body, the sender and
    -- the room of the event, no attachment, and the relation: the edit, or else the reply, if there
    -- is one. With an empty body it is read as nothing.
    pub parse_matrix_event-build :
        (event : MatrixEvent json) (body : String) (reply_to edit_of : Option String)
        → event.event_type ≡ "m.room.message"
        → event.content ≡ some (build_matrix_message_content json build body reply_to edit_of)
        → parse_matrix_event json strip_html_tags event ≡ (
            if is_empty body
            then none
            else some (message_of event body (relation_of reply_to edit_of)))
    unfolding parse_matrix_event
    parse_matrix_event-build event body reply_to edit_of kind content =
        rw (kind, content)
          (parse_content-build
            (record event {
              event_type = "m.room.message";
              content = some (build_matrix_message_content json build body reply_to edit_of);
            })
            body reply_to edit_of)
