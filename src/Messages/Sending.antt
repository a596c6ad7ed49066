-- ===== src/Messages/Sending.antt =====
-- What a task that sends to Matrix has sent, and what it answers with.
use matrix_bridge_discord.Prelude.{
  List, [], ◌∷◌, ◌++◌, String, Bool, true, false, not, Option, none, some, ◌≡◌, ◌⊎◌, refl, arith,
  Result, ok, err, Bool-cases, inl, inr, ltb, is_nil, All, if◌then◌else◌,
}
use matrix_bridge_discord.Text.{is_empty}
use matrix_bridge_discord.MessageFlow.{OutboundMatrixMessage, render_body}
use matrix_bridge_discord.FromMatrix.Delivery.{Posted, Grown, Grown_refl, Grown_trans, Posted-Grown}
use matrix_bridge_discord.BridgeLogic.{RoomMapping}
use matrix_bridge_discord.Rooms.Store.{RoomStore}
use matrix_bridge_discord.Rooms.Tasks.{
  Call, send_message_with_metadata, download, upload_media, Outside, MediaInfo, World, Task, After,
  follow-After, After-cases, After-weaken,
}
use matrix_bridge_discord.Messages.Store.{MessageStore}
use matrix_bridge_discord.Messages.{
  max_matrix_bytes, send, send_url, send_uploaded, send_attachment_as, send_attachment,
  send_attachments, send_body, or_no_message, send_to_matrix_with_attachments,
  send_to_matrix_message, send_to_room,
}
use matrix_bridge_discord.Messages.Sent.{
  SendsTo, Carries, Says, Contents, Sent, SameDb, SentMaybe, SentMaybe-SameDb, All-Posted-later,
  All-is_nil,
}

module _ {S : Type 0} (rooms : RoomStore S) (messages : MessageStore S) (outside : Outside S)
    (room sender : String) (w : World S) where
  -- A task that sends what is described after the world `v`, or fails and leaves the store alone.
  abbrev Sends : (Call → Type 0) → World S → Task S String → Type 0
  Sends described v t =
      (w' : World S)
      → SameDb outside room sender w w'
      → Grown v w'
      → After
          (λ event w''.
            Sent outside room sender w event w'' × Grown v w'' × Posted outside described w''.calls)
          (SameDb outside room sender w) (t w')

  send-Sent :
      (described : Call → Type 0) (v : World S) (c : Call)
      → described c
      → SendsTo room sender c
      → Sends described v (send rooms messages outside c)
  send-Sent described v c as_described to w' same g =
      After-cases
        (λ event w''.
          Sent outside room sender w event w'' × Grown v w'' × Posted outside described w''.calls)
        (SameDb outside room sender w) (outside.sent w'.calls c) _
        (λ event e. (
          record {
            before = w'.calls;
            last = c;
            at_end = refl;
            addressed = to;
            answer = e;
            same_db = same;
          },
          Grown_trans v w' (record w' { calls = w'.calls ++ c ∷ [] }) g
              record { more = c ∷ []; calls = refl; same_db = refl },
          record {
            before = w'.calls;
            it = c;
            behind = [];
            at = refl;
            id = event;
            accepted = e;
            as_described = as_described;
          },
        ))
        (λ text e. same)

  module _ (v : World S) (url : String) (reply : Option String) where
    abbrev It : Call → Type 0
    It = Carries outside room sender reply url

    send_url-Sent :
        (label : String) → Sends It v (send_url rooms messages outside room sender label url reply)
    send_url-Sent label = send-Sent It v _ (inr (label, refl)) (refl, refl)

    send_uploaded-Sent :
        (media : MediaInfo) (log log' : List Call) (uploaded : Result String String)
        → outside.media log url ≡ ok media
        → outside.uploaded log' media ≡ uploaded
        → Sends It v (send_uploaded rooms messages outside room sender url media reply uploaded)
    send_uploaded-Sent media log log' (ok uri) got put =
        send-Sent It v _ (inl (media, uri, log, log', got, put, refl)) (refl, refl)
    send_uploaded-Sent media log log' (err e) got put = send_url-Sent media.filename

    send_attachment_as-Sent :
        (log : List Call) (answer : Result String MediaInfo)
        → outside.media log url ≡ answer
        → Sends It v (send_attachment_as rooms messages outside room sender url reply answer)
    send_attachment_as-Sent log (err e) got w' same g = send_url-Sent "Attachment" w' same g
    send_attachment_as-Sent log (ok media) got w' same g =
        elim (Bool-cases (ltb max_matrix_bytes media.size)) [
          | inl large ↦ rw large (send_url-Sent media.filename w' same g)
          | inr small ↦
              let asked : World S = record w' { calls = w'.calls ++ upload_media media ∷ [] } in
              rw small (
                send_uploaded-Sent media log w'.calls (outside.uploaded w'.calls media) got refl
                  asked same
                  (Grown_trans v w' asked g
                    record { more = upload_media media ∷ []; calls = refl; same_db = refl }))
        ]

  send_attachments-Sent :
      (reply last : Option String) (urls : List String) (w' : World S)
      → SentMaybe outside room sender w last w'
      → After
          (λ last' w''.
            SentMaybe outside room sender w last' w''
            × Grown w' w''
            × All (λ url. Posted outside (Carries outside room sender reply url) w''.calls) urls)
          (SameDb outside room sender w)
          (send_attachments rooms messages outside room sender reply last urls w')
  send_attachments-Sent reply last [] w' h = (h, Grown_refl w', tt)
  send_attachments-Sent reply last (url ∷ urls) w' h =
      let one = send_attachment rooms messages outside room sender reply url w' in
      let asked : World S = record w' { calls = w'.calls ++ download url ∷ [] } in
      let It = Carries outside room sender reply in
      let First : String → World S → Type 0 = λ event w''.
        Sent outside room sender w event w'' × Grown w' w'' × Posted outside (It url) w''.calls in
      let Every : Option String → World S → Type 0 = λ last' w''.
        SentMaybe outside room sender w last' w''
        × Grown w' w''
        × All (λ u. Posted outside (It u) w''.calls) (url ∷ urls) in
      follow-After First Every (SameDb outside room sender w) one.0 one.1 _
        (send_attachment_as-Sent w' url reply w'.calls (outside.media w'.calls url) refl asked
          (SentMaybe-SameDb outside room sender w last w' h)
          record { more = download url ∷ []; calls = refl; same_db = refl })
        (λ event w1 sent.
          let rest =
            send_attachments rooms messages outside room sender reply (some event) urls w1 in
          After-weaken
            (λ last' w''.
              SentMaybe outside room sender w last' w''
              × Grown w1 w''
              × All (λ u. Posted outside (It u) w''.calls) urls)
            (SameDb outside room sender w) Every rest
            (send_attachments-Sent reply (some event) urls w1 sent.0)
            (λ last' w2 k. (
              k.0,
              Grown_trans w' w1 w2 sent.1 k.1,
              (Posted-Grown outside (It url) w1 w2 k.1 sent.2, k.2),
            )))

  send_body-Sent :
      (outbound : OutboundMatrixMessage) (last : Option String) (w' : World S)
      → SentMaybe outside room sender w last w'
      → After
          (λ last' w''.
            SentMaybe outside room sender w last' w''
            × Grown w' w''
            × ((is_empty outbound.body ≡ true)
                ⊎ Posted outside (Says room sender outbound.body outbound) w''.calls))
          (SameDb outside room sender w)
          (send_body rooms messages outside room sender outbound last w')
  send_body-Sent outbound last w' h = elim (Bool-cases (is_empty outbound.body)) [
    | inl none_said ↦ rw none_said (h, Grown_refl w', inl refl)
    | inr said ↦
        let c =
          send_message_with_metadata room sender outbound.body outbound.reply_to outbound.edit_of in
        let one = send rooms messages outside c w' in
        let It = Says room sender outbound.body outbound in
        rw said (
          follow-After
            (λ event w''.
              Sent outside room sender w event w'' × Grown w' w'' × Posted outside It w''.calls)
            (λ last' w''.
              SentMaybe outside room sender w last' w''
              × Grown w' w''
              × ((false ≡ true) ⊎ Posted outside It w''.calls))
            (SameDb outside room sender w) one.0 one.1 _
            (send-Sent It w' c refl (refl, refl) w'
              (SentMaybe-SameDb outside room sender w last w' h) (Grown_refl w'))
            (λ event w'' sent. (sent.0, sent.1, inr sent.2)))
  ]

  -- What a message of the room has become.
  abbrev pub SentAll : OutboundMatrixMessage → String → World S → Type 0
  SentAll outbound event w'' =
      Sent outside room sender w event w'' × Contents outside room sender outbound w''.calls

  or_no_message-Sent :
      (C : World S → Type 0) (last : Option String) (w' : World S)
      → SentMaybe outside room sender w last w'
      → C w'
      → After
          (λ event w''. Sent outside room sender w event w'' × C w'')
          (SameDb outside room sender w)
          (or_no_message rooms messages outside last w')
  or_no_message-Sent C none w' h k = h
  or_no_message-Sent C (some event) w' h k = (h, k)

  send_to_matrix_with_attachments-Sent :
      (outbound : OutboundMatrixMessage) (w' : World S)
      → is_nil outbound.attachments ≡ false
      → SameDb outside room sender w w'
      → After
          (SentAll outbound)
          (SameDb outside room sender w)
          (send_to_matrix_with_attachments rooms messages outside room sender outbound w')
  unfolding send_to_matrix_with_attachments
  send_to_matrix_with_attachments-Sent outbound w' some_attached same =
      let attached =
        send_attachments rooms messages outside room sender outbound.reply_to none
          outbound.attachments w' in
      let It = Carries outside room sender outbound.reply_to in
      let Text : World S → Type 0 = λ w2.
        (is_empty outbound.body ≡ true)
        ⊎ Posted outside (Says room sender outbound.body outbound) w2.calls in
      follow-After
        (λ last w1.
          SentMaybe outside room sender w last w1
          × Grown w' w1
          × All (λ url. Posted outside (It url) w1.calls) outbound.attachments)
        (SentAll outbound) (SameDb outside room sender w) attached.0 attached.1 _
        (send_attachments-Sent outbound.reply_to none outbound.attachments w' same)
        (λ last w1 h1.
          let body = send_body rooms messages outside room sender outbound last w1 in
          follow-After
            (λ last' w2. SentMaybe outside room sender w last' w2 × Grown w1 w2 × Text w2)
            (SentAll outbound) (SameDb outside room sender w) body.0 body.1 _
            (send_body-Sent outbound last w1 h1.0)
            (λ last' w2 h2.
              or_no_message-Sent (λ w3. Contents outside room sender outbound w3.calls) last' w2
                h2.0
                record {
                  attached = All-Posted-later outside It outbound.attachments w1 w2 h2.1 h1.2;
                  said = inr (some_attached, h2.2);
                }))

  send_to_matrix_message-Sent :
      (outbound : OutboundMatrixMessage) (w' : World S)
      → is_nil outbound.attachments ≡ true
      → SameDb outside room sender w w'
      → After
          (SentAll outbound)
          (SameDb outside room sender w)
          (send_to_matrix_message rooms messages outside room sender outbound w')
  unfolding send_to_matrix_message
  send_to_matrix_message-Sent outbound w' bare same =
      let It = Says room sender (render_body outbound) outbound in
      let t = send_to_matrix_message rooms messages outside room sender outbound w' in
      After-weaken
        (λ event w''.
          Sent outside room sender w event w'' × Grown w' w'' × Posted outside It w''.calls)
        (SameDb outside room sender w) (SentAll outbound) t
        (send-Sent It w' _ refl (refl, refl) w' same (Grown_refl w'))
        (λ event w'' h. (
          h.0,
          record { attached = All-is_nil _ outbound.attachments bare; said = inl (bare, h.2) },
        ))

chosen-After :
    {S : Type 0} (Q : String → World S → Type 0) (R : World S → Type 0) (b c : Bool)
    (x y : Task S String) (w : World S)
    → b ≡ c
    → After Q R ((if c then y else x) w)
    → After Q R ((if not b then x else y) w)
chosen-After Q R true true x y w e h = h
chosen-After Q R false false x y w e h = h
chosen-After Q R true false x y w e h = ground arith
chosen-After Q R false true x y w e h = ground arith

pub send_to_room-Sent :
    {S : Type 0} (rooms : RoomStore S) (messages : MessageStore S) (outside : Outside S)
    (m : RoomMapping) (sender : String) (outbound : OutboundMatrixMessage) (w w' : World S)
    → w'.db ≡ w.db
    → After
        (SentAll rooms messages outside m.matrix_room_id sender w outbound)
        (SameDb outside m.matrix_room_id sender w)
        (send_to_room rooms messages outside m sender outbound w')
send_to_room-Sent rooms messages outside m sender outbound w w' same =
    let bare = send_to_matrix_message rooms messages outside m.matrix_room_id sender outbound in
    let full =
      send_to_matrix_with_attachments rooms messages outside m.matrix_room_id sender outbound in
    elim (Bool-cases (is_nil outbound.attachments)) [
      | inl e ↦ chosen-After _ _ (is_nil outbound.attachments) true full bare w' e (
          send_to_matrix_message-Sent rooms messages outside m.matrix_room_id sender w outbound w' e
            same)
      | inr e ↦ chosen-After _ _ (is_nil outbound.attachments) false full bare w' e (
          send_to_matrix_with_attachments-Sent rooms messages outside m.matrix_room_id sender w
            outbound w' e same)
    ]
