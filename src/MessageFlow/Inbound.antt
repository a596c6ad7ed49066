-- ===== src/MessageFlow/Inbound.antt =====
-- What a message that is taken from a Matrix event rests on.
use mathlib.Core.Option
use matrix_bridge_discord.Prelude.{
  List, String, true, false, not, Option, none, some, ◌≡◌, ◌⊎◌, refl, ap, ◌∙◌, arith, inl, inr,
  if◌then◌else◌, ◌==◌, ◌&&◌, ◌||◌, any, All, ◌>>=◌, unwrap_or, is_nil, Option-cases, Bool-cases,
  eq_iff,
}
use matrix_bridge_discord.Text.{is_empty}
use matrix_bridge_discord.MessageFlow.{
  Json, MessageRelation, reply, replace, MessageAttachment, MatrixInboundMessage, attachment_types,
  get_str, replacement_of, or_else, parse_relation, attachments_at, parse_attachments, MatrixEvent,
  object_or, inbound, parse_content, parse_matrix_event,
}

replaced :
    (kind event : Option String) (r : MessageRelation)
    → (if unwrap_or (Option.map (λ k. k == "m.replace") kind) false
        then Option.map replace event
        else none)
      ≡ some r
    → (id : String) × (r ≡ replace id) × (kind ≡ some "m.replace") × (event ≡ some id)
replaced none event r h = ground arith
replaced (some k) none r h = ground arith
replaced (some k) (some id) r h =
    (id, ground arith, ap some (ground (arith, eq_iff k "m.replace")), refl)

typed_event :
    (t : String)
    → not (t == "m.room.message" || t == "m.sticker") ≡ false
    → (t ≡ "m.room.message") ⊎ (t ≡ "m.sticker")
typed_event t h = ground (arith, eq_iff t "m.room.message", eq_iff t "m.sticker")

module _ (json : Json) where
  open json use {Value, get, as_str, is_object}

  -- Each attachment has one of the kinds of media, and the URL that the content gives.
  abbrev pub Attached : Value → MessageAttachment → Type 0
  Attached content a =
      (any (λ kind. kind == a.kind) attachment_types ≡ true)
      × (get_str json content "url" ≡ some a.url)

  attachments_at-Attached :
      (content : Value) (msgtype : String) (url : Option String)
      → any (λ kind. kind == msgtype) attachment_types ≡ true
      → get_str json content "url" ≡ url
      → All (Attached content) (attachments_at json content msgtype url)
  attachments_at-Attached content msgtype none k e = tt
  attachments_at-Attached content msgtype (some url) k e = ((k, e), tt)

  parse_attachments-Attached :
      (content : Value) (msgtype : String)
      → All (Attached content) (parse_attachments json content msgtype)
  unfolding parse_attachments
  parse_attachments-Attached content msgtype =
      elim (Bool-cases (any (λ kind. kind == msgtype) attachment_types)) [
        | inl e ↦ rw e (attachments_at-Attached content msgtype (get_str json content "url") e refl)
        | inr e ↦ rw e tt
      ]

  -- What a relation rests on: a reply names an event in `m.in_reply_to`; a replacement has the type
  -- `m.replace`, names an event, and replies to none.
  abbrev pub Relates : Value → Option MessageRelation → Type 0
  Relates relates_to none = Unit
  Relates relates_to (some (reply id)) =
      (get relates_to "m.in_reply_to" >>= λ inner. get_str json inner "event_id") ≡ some id
  Relates relates_to (some (replace id)) =
      (get_str json relates_to "rel_type" ≡ some "m.replace")
      × (get_str json relates_to "event_id" ≡ some id)
      × ((get relates_to "m.in_reply_to" >>= λ inner. get_str json inner "event_id") ≡ none)

  replacement_of-Relates :
      (v : Value) (o : Option String) (r : MessageRelation)
      → (get v "m.in_reply_to" >>= λ inner. get_str json inner "event_id") ≡ o
      → or_else json o (replacement_of json v) ≡ some r
      → Relates v (some r)
  replacement_of-Relates v (some id) (reply other) e h = ground arith
  replacement_of-Relates v (some id) (replace other) e h = ground arith
  replacement_of-Relates v none (reply id) e h =
      let found = replaced (get_str json v "rel_type") (get_str json v "event_id") (reply id) h in
      ground (arith, found.1)
  replacement_of-Relates v none (replace id) e h =
      let (named, same, kind, event) =
        replaced (get_str json v "rel_type") (get_str json v "event_id") (replace id) h in
      (kind, event ∙ ap some (ground arith), e)

  -- A relation that is parsed from a content rests on its `m.relates_to`: a reply names the event of
  -- `m.in_reply_to`; a replacement has the type `m.replace`, names the event of `m.relates_to`, and
  -- stands only where there is no event to reply to.
  pub parse_relation-Relates :
      (content : Value) (r : MessageRelation)
      → parse_relation json content ≡ some r
      → (relates_to : Value) × (get content "m.relates_to" ≡ some relates_to)
        × Relates relates_to (some r)
  unfolding parse_relation
  parse_relation-Relates content r h = elim (Option-cases (get content "m.relates_to")) [
    | inl e ↦ ground (arith, e)
    | inr (v, e) ↦ (v, e, replacement_of-Relates v _ r refl (rw e at h))
  ]

  module _ (strip_html_tags : String → String) where
    -- What an event and the message that is taken from it have in common.
    pub record Taken (event : MatrixEvent json) (m : MatrixInboundMessage) : Type 0 where
      pub kind : (event.event_type ≡ "m.room.message") ⊎ (event.event_type ≡ "m.sticker")
      pub event_id : m.event_id ≡ event.event_id
      pub room_id : m.room_id ≡ event.room_id
      pub sender : m.sender ≡ event.sender
      pub says : (is_empty m.body && is_nil m.attachments) ≡ false
      pub content : Value
      pub at_content : event.content ≡ some content
      pub relation : m.relation ≡ parse_relation json content
      pub attached :
          All (Attached (object_or json (get content "m.new_content") content)) m.attachments

    inbound-eq-some :
        (event : MatrixEvent json) (body : String) (relation : Option MessageRelation)
        (attachments : List MessageAttachment) (m : MatrixInboundMessage)
        → inbound json strip_html_tags event body relation attachments ≡ some m
        → ((is_empty body && is_nil attachments) ≡ false)
          × (m ≡ record {
            event_id = event.event_id;
            room_id = event.room_id;
            sender = event.sender;
            body = body;
            relation = relation;
            attachments = attachments;
          })
    inbound-eq-some event body relation attachments m h = ground arith

    content-Taken :
        (event : MatrixEvent json) (content : Value) (m : MatrixInboundMessage)
        → (event.event_type ≡ "m.room.message") ⊎ (event.event_type ≡ "m.sticker")
        → event.content ≡ some content
        → parse_content json strip_html_tags event content ≡ some m
        → Taken event m
    content-Taken event content m k e h =
        let (says, same) = inbound-eq-some event _ _ _ m h in
        rw same (record {
          kind = k;
          event_id = refl;
          room_id = refl;
          sender = refl;
          says = says;
          content = content;
          at_content = e;
          relation = refl;
          attached =
              parse_attachments-Attached (object_or json (get content "m.new_content") content) _;
        })

    -- A message is taken only from a room message or a sticker with a content, has its identifiers,
    -- and is not empty: it has a text or an attachment, the relation is the content's own, and each
    -- attachment is of a kind of media with the URL of the new content, or of the content without one.
    pub parse_matrix_event-Taken :
        (event : MatrixEvent json) (m : MatrixInboundMessage)
        → parse_matrix_event json strip_html_tags event ≡ some m
        → Taken event m
    unfolding parse_matrix_event
    parse_matrix_event-Taken event m h =
        elim (Bool-cases
          (not (event.event_type == "m.room.message" || event.event_type == "m.sticker"))) [
            | inl e ↦ ground (arith, rw e at h)
            | inr e ↦ elim (Option-cases event.content) [
              | inl n ↦ ground (arith, rw (e, n) at h)
              | inr (content, c) ↦
                  content-Taken event content m (typed_event event.event_type e) c (rw (e, c) at h)
            ]
          ]
