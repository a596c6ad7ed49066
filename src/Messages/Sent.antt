-- ===== src/Messages/Sent.antt =====
-- What has been sent to Matrix of a message.
use Prim.Native.String
use matrix_bridge_discord.Prelude.{
  List, [], ◌∷◌, ◌++◌, String, true, false, Option, none, some, ◌≡◌, ◌⊎◌, arith, ok, is_nil, All,
}
use matrix_bridge_discord.Text.{is_empty}
use matrix_bridge_discord.MessageFlow.{OutboundMatrixMessage, render_body}
use matrix_bridge_discord.FromMatrix.Delivery.{Posted, Grown, Posted-Grown}
use matrix_bridge_discord.Rooms.Tasks.{
  Call, send_message_with_metadata, send_media_message, Outside, MediaInfo, World,
}
use matrix_bridge_discord.Messages.{msgtype_of}

-- A call that sends an event to the room as the sender.
abbrev pub SendsTo : String → String → Call → Type 0
SendsTo room sender (send_message_with_metadata r s _ _ _) = (r ≡ room) × (s ≡ sender)
SendsTo room sender (send_media_message r s _ _ _ _) = (r ≡ room) × (s ≡ sender)
SendsTo room sender _ = ⊥

-- What the attachment at an address becomes: the file that the download answered, under the address
-- that its upload answered, or a text that ends with the address; as a reply in both cases.
abbrev pub Carries :
    {S : Type 0} → Outside S → String → String → Option String → String → Call → Type 0
Carries outside room sender reply url c =
    ((media : MediaInfo) × (uri : String) × (log : List Call) × (log' : List Call) × (outside.media
          log url
        ≡ ok media)
      × (outside.uploaded log' media ≡ ok uri)
      × (c
          ≡ send_media_message room sender (msgtype_of media.content_type) media.filename uri
              reply))
    ⊎ ((label : String) × (c
          ≡ send_message_with_metadata room sender (String.◌++◌ label (String.◌++◌ ": " url)) reply
              none))

abbrev pub Says : String → String → String → OutboundMatrixMessage → Call → Type 0
Says room sender text outbound c =
    c ≡ send_message_with_metadata room sender text outbound.reply_to outbound.edit_of

-- Every attachment has been accepted, and so has the text: without attachments as `render_body`
-- gives it, with attachments the body itself, if it is not empty.
pub record Contents {S : Type 0} (outside : Outside S) (room sender : String)
    (outbound : OutboundMatrixMessage) (log : List Call) : Type 0 where
  pub attached :
      All
        (λ url. Posted outside (Carries outside room sender outbound.reply_to url) log)
        outbound.attachments
  pub said :
      ((is_nil outbound.attachments ≡ true)
        × Posted outside (Says room sender (render_body outbound) outbound) log)
      ⊎ ((is_nil outbound.attachments ≡ false)
          × ((is_empty outbound.body ≡ true)
              ⊎ Posted outside (Says room sender outbound.body outbound) log))

module _ {S : Type 0} (outside : Outside S) (room sender : String) (w : World S) where
  -- The event is what the last call got, which sent to the room, and the store is as before.
  pub record Sent (event : String) (w' : World S) : Type 0 where
    pub before : List Call
    pub last : Call
    pub at_end : w'.calls ≡ before ++ last ∷ []
    pub addressed : SendsTo room sender last
    pub answer : outside.sent before last ≡ ok event
    pub same_db : w'.db ≡ w.db

  abbrev pub SameDb : World S → Type 0
  SameDb w' = w'.db ≡ w.db

  -- What has been sent so far, if anything.
  abbrev pub SentMaybe : Option String → World S → Type 0
  SentMaybe none w' = SameDb w'
  SentMaybe (some event) w' = Sent event w'

  pub SentMaybe-SameDb : (last : Option String) (w' : World S) → SentMaybe last w' → SameDb w'
  SentMaybe-SameDb none w' h = h
  SentMaybe-SameDb (some event) w' h = h.same_db

pub All-Posted-later :
    {S : Type 0} (outside : Outside S) (described : String → Call → Type 0) (urls : List String)
    (w w' : World S)
    → Grown w w'
    → All (λ url. Posted outside (described url) w.calls) urls
    → All (λ url. Posted outside (described url) w'.calls) urls
All-Posted-later outside described [] w w' g h = tt
All-Posted-later outside described (url ∷ urls) w w' g (h, hs) = (
  Posted-Grown outside (described url) w w' g h,
  All-Posted-later outside described urls w w' g hs,
)

pub All-is_nil : (P : String → Type 0) (urls : List String) → is_nil urls ≡ true → All P urls
All-is_nil P [] e = tt
All-is_nil P (url ∷ urls) e = ground arith
