-- ===== src/FromMatrix/Forwarding.antt =====
-- What becomes of a message from Matrix that is no command.
use matrix_bridge_discord.Prelude.{
  List, [], ◌∷◌, String, true, false, Option, none, some, ◌≡◌, ◌⊎◌, inl, inr, refl, ◌∙◌, Result, ok,
  err, ℤ, All, map, Bool-cases, ltb, find, ◌==◌,
}
use matrix_bridge_discord.Text.{starts_with}
use matrix_bridge_discord.MatrixCommand.{MatrixCommandHandler}
use matrix_bridge_discord.BridgeLogic.{RoomMapping}
use matrix_bridge_discord.MessageFlow.{
  Json, MatrixEvent, MatrixInboundMessage, OutboundDiscordMessage, parse_matrix_event,
  matrix_to_discord,
}
use matrix_bridge_discord.Rooms.{Options}
use matrix_bridge_discord.Rooms.Store.{RoomStore, StoreLaws}
use matrix_bridge_discord.Rooms.Tasks.{
  Call, download, Outside, MediaInfo, World, After, follow-After, After-both,
}
use matrix_bridge_discord.FromMatrix.Profile.{shown_as}
use matrix_bridge_discord.FromMatrix.Delivery.{Grown, Grown_refl, Grown_trans, Delivered}
use matrix_bridge_discord.FromMatrix.{
  Downloaded, max_discord_bytes, if_small, download_one, download_matrix_attachments,
}

-- What a download gave: the file as Matrix's store answered it, if the address is one of that store
-- and the file is small enough for Discord; none otherwise, or if the download failed.
module _ {S : Type 0} (outside : Outside S) where
  abbrev pub Fits : Downloaded → Type 0
  Fits (url, some media) =
      (starts_with url "mxc://" ≡ true)
      × (ltb max_discord_bytes media.size ≡ false)
      × (log : List Call) × (outside.media log url ≡ ok media)
  Fits (url, none) =
      (starts_with url "mxc://" ≡ false)
      ⊎ ((log : List Call) × (e : String) × (outside.media log url ≡ err e))
      ⊎ ((log : List Call) × (media : MediaInfo) × (outside.media log url ≡ ok media)
          × (ltb max_discord_bytes media.size ≡ true))

  if_small-Fits :
      (url : String) (log : List Call) (answer : Result String MediaInfo)
      → outside.media log url ≡ answer
      → starts_with url "mxc://" ≡ true
      → ((if_small url answer).0 ≡ url) × Fits (if_small url answer)
  if_small-Fits url log (err e) said stored = (refl, inr (inl (log, e, said)))
  if_small-Fits url log (ok media) said stored =
      elim (Bool-cases (ltb max_discord_bytes media.size)) [
        | inl large ↦ rw large (refl, inr (inr (log, media, said, large)))
        | inr small ↦ rw small (refl, (stored, small, log, said))
      ]

module _ {S : Type 0} (outside : Outside S) where
  download_one-Fits :
      (url : String) (w : World S)
      → After
          (λ a w'. Grown w w' × (a.0 ≡ url) × Fits outside a)
          (λ w'. w'.db ≡ w.db)
          (download_one outside url w)
  download_one-Fits url w = elim (Bool-cases (starts_with url "mxc://")) [
    | inl stored ↦ rw stored (
      record { more = download url ∷ []; calls = refl; same_db = refl },
      (if_small-Fits outside url w.calls (outside.media w.calls url) refl stored).0,
      (if_small-Fits outside url w.calls (outside.media w.calls url) refl stored).1,
    )
    | inr other ↦ rw other (Grown_refl w, refl, inl other)
  ]

  pub download_matrix_attachments-Fits :
      (urls : List String) (w : World S)
      → After
          (λ l w'. Grown w w' × (map (λ (a : Downloaded). a.0) l ≡ urls) × All (Fits outside) l)
          (λ w'. w'.db ≡ w.db)
          (download_matrix_attachments outside urls w)
  unfolding download_matrix_attachments
  download_matrix_attachments-Fits [] w = (Grown_refl w, refl, tt)
  download_matrix_attachments-Fits (url ∷ urls) w =
      let one = download_one outside url w in
      let One : Downloaded → World S → Type 0 = λ a w'. Grown w w' × (a.0 ≡ url) × Fits outside a in
      let Every : List Downloaded → World S → Type 0 = λ l w'.
        Grown w w' × (map (λ (a : Downloaded). a.0) l ≡ url ∷ urls) × All (Fits outside) l in
      follow-After One Every (λ w'. w'.db ≡ w.db) one.0 one.1 _ (download_one-Fits url w)
        (λ a w1 h.
          let rest = download_matrix_attachments outside urls w1 in
          let Rest : List Downloaded → World S → Type 0 =
            λ l w'. Grown w1 w' × (map (λ (b : Downloaded). b.0) l ≡ urls) × All (Fits outside) l in
          follow-After Rest Every (λ w'. w'.db ≡ w.db) rest.0 rest.1 _
            (After-both Rest (λ w'. w'.db ≡ w1.db) Rest (λ w'. w'.db ≡ w.db) rest
              (download_matrix_attachments-Fits urls w1) (λ _ _ k. k) (λ w' k. k ∙ h.0.same_db))
            (λ l w2 k. (Grown_trans w w1 w2 h.0 k.0, rw (h.1, k.1) refl, (h.2, k.2))))

module _ {S : Type 0} (outside : Outside S) (homeserver_url : String) {Embed : Type 0}
    (channel sender : String) (outbound : OutboundDiscordMessage Embed) where
  -- Every attachment and the text have been posted to the channel, shown as some
  -- answer to the question of the sender's profile says.
  pub record Forwarded (w w' : World S) : Type 0 where
    pub asked_after : List Call
    pub attachments : List Downloaded
    pub between : World S
    pub urls : map (λ (a : Downloaded). a.0) attachments ≡ outbound.attachments
    pub fits : All (Fits outside) attachments
    pub grown : Grown w between
    pub delivered :
        Delivered outside homeserver_url channel outbound
          (shown_as homeserver_url sender (outside.profile asked_after sender))
          attachments
          between
          w'

module _ {S : Type 0} (rooms : RoomStore S) (rows : S → List RoomMapping)
    (laws : StoreLaws rooms rows) (to_string : ℤ → String) (outside : Outside S) (options : Options)
    (homeserver_url : String) (handler : MatrixCommandHandler) (json : Json)
    (strip_html_tags format_for_discord : String → String) (Embed : Type 0) where
  module _ (event : MatrixEvent json) (w : World S) where
    abbrev pub room_of : Option RoomMapping
    room_of = find (λ r. r.matrix_room_id == event.room_id) (rows w.db)

    abbrev pub parsed : Option MatrixInboundMessage
    parsed = parse_matrix_event json strip_html_tags event

    -- Nothing has been done, as the room is not bridged or the event says nothing.
    abbrev pub Dropped : World S → Type 0
    Dropped w' = ((room_of ≡ none) ⊎ (parsed ≡ none)) × (w' ≡ w)

    pub record ForwardedToChannel (w' : World S) : Type 0 where
      pub room : RoomMapping
      pub bridged : room_of ≡ some room
      pub message : MatrixInboundMessage
      pub said : parsed ≡ some message
      pub forwarded :
          Forwarded outside homeserver_url room.discord_channel_id event.sender
            (matrix_to_discord {Embed = Embed} format_for_discord message)
            w
            w'

    abbrev Done : World S → Type 0
    Done w' = Dropped w' ⊎ ForwardedToChannel w'
