-- ===== src/FromMatrix/Delivery.antt =====
-- Everything that is to be posted on Discord has been accepted there.
use matrix_bridge_discord.Prelude.{
  List, [], ◌∷◌, ◌++◌, String, false, Option, none, some, ◌≡◌, ◌⊎◌, inl, inr, refl, sym, ap, ◌∙◌,
  arith, append-nil, append_assoc, Result, ok, err, All, Bool-cases, ltb,
}
use matrix_bridge_discord.Text.{is_empty}
use matrix_bridge_discord.MessageFlow.{OutboundDiscordMessage}
use matrix_bridge_discord.Rooms.Tasks.{
  Call, send_as_user, send_file_as_user, get_user_profile, Outside, MediaInfo, World, Task, After,
  follow-After, After-cases, After-weaken, After-both,
}
use matrix_bridge_discord.FromMatrix.Profile.{Shown, shown_as}
use matrix_bridge_discord.FromMatrix.{
  Downloaded, max_discord_bytes, labelled, post, post_text, or_url, post_attachment,
  post_attachments, post_content, send_to_discord_with_attachments,
}

-- One of the calls of the log was answered with an identifier, and is as described.
pub record Posted {S : Type 0} (outside : Outside S) (described : Call → Type 0) (log : List Call)
    : Type 0 where
  pub before : List Call
  pub it : Call
  pub behind : List Call
  pub at : log ≡ before ++ it ∷ behind
  pub id : String
  pub accepted : outside.sent before it ≡ ok id
  pub as_described : described it

-- What an attachment may become: its file, or a text with its address.
abbrev pub Carries : String → Shown → Downloaded → Call → Type 0
Carries channel shown (url, none) c =
    c ≡ send_as_user channel (labelled "Attachment" url) [] none none shown.username shown.avatar
Carries channel shown (url, some media) c =
    (c ≡ send_file_as_user channel media shown.username shown.avatar)
    ⊎ (c
        ≡ send_as_user channel (labelled media.filename url) [] none none shown.username
            shown.avatar)

abbrev pub Says : String → Shown → String → Option String → Option String → Call → Type 0
Says channel shown text reply edit c =
    c ≡ send_as_user channel text [] reply edit shown.username shown.avatar

-- More calls have been made, and the store is as before.
pub record Grown {S : Type 0} (w w' : World S) : Type 0 where
  pub more : List Call
  pub calls : w'.calls ≡ w.calls ++ more
  pub same_db : w'.db ≡ w.db

abbrev pub Grown_refl : {S : Type 0} → (w : World S) → Grown w w
Grown_refl w = record { more = []; calls = sym (append-nil w.calls); same_db = refl }

pub Grown_trans : {S : Type 0} (w w1 w2 : World S) → Grown w w1 → Grown w1 w2 → Grown w w2
Grown_trans w w1 w2 g h = record {
  more = g.more ++ h.more;
  calls = h.calls ∙ ap (λ l. l ++ h.more) g.calls ∙ append_assoc w.calls g.more h.more;
  same_db = h.same_db ∙ g.same_db;
}

module _ {S : Type 0} (outside : Outside S) where
  pub Posted-Grown :
      (described : Call → Type 0) (w w' : World S)
      → Grown w w'
      → Posted outside described w.calls
      → Posted outside described w'.calls
  Posted-Grown described w w' g p = record {
    before = p.before;
    it = p.it;
    behind = p.behind ++ g.more;
    at = g.calls ∙ ap (λ l. l ++ g.more) p.at ∙ append_assoc p.before (p.it ∷ p.behind) g.more;
    id = p.id;
    accepted = p.accepted;
    as_described = p.as_described;
  }

  pub All-Posted-Grown :
      (described : Downloaded → Call → Type 0) (l : List Downloaded) (w w' : World S)
      → Grown w w'
      → All (λ a. Posted outside (described a) w.calls) l
      → All (λ a. Posted outside (described a) w'.calls) l
  All-Posted-Grown described [] w w' g h = tt
  All-Posted-Grown described (a ∷ l) w w' g (h, hs) =
      (Posted-Grown (described a) w w' g h, All-Posted-Grown described l w w' g hs)

  -- A task that posts what is described, or fails and leaves the store alone.
  abbrev Posts : {A : Type 0} → (Call → Type 0) → Task S A → Type 0
  Posts described t =
      (w : World S)
      → After (λ _ w'. Grown w w' × Posted outside described w'.calls) (λ w'. w'.db ≡ w.db) (t w)

  post-Posted :
      (described : Call → Type 0) (c : Call) → described c → Posts described (post outside c)
  post-Posted described c d w =
      After-cases (λ _ w'. Grown w w' × Posted outside described w'.calls) (λ w'. w'.db ≡ w.db)
        (outside.sent w.calls c) _
        (λ id e. (
          record { more = c ∷ []; calls = refl; same_db = refl },
          record {
            before = w.calls;
            it = c;
            behind = [];
            at = refl;
            id = id;
            accepted = e;
            as_described = d;
          },
        ))
        (λ _ _. refl)

  module _ (channel : String) (shown : Shown) where
    or_url-Posted :
        (url : String) (media : MediaInfo) (w : World S) (answer : Result String String)
        → outside.sent w.calls (send_file_as_user channel media shown.username shown.avatar)
          ≡ answer
        → let w1 : World S = record w {
          calls = w.calls ++ send_file_as_user channel media shown.username shown.avatar ∷ [];
        } in
          After
            (λ _ w'. Grown w w' × Posted outside (Carries channel shown (url, some media)) w'.calls)
            (λ w'. w'.db ≡ w.db)
            (or_url outside channel shown url media answer w1)
    or_url-Posted url media w (ok id) e = (
      record {
        more = send_file_as_user channel media shown.username shown.avatar ∷ [];
        calls = refl;
        same_db = refl;
      },
      record {
        before = w.calls;
        it = send_file_as_user channel media shown.username shown.avatar;
        behind = [];
        at = refl;
        id = id;
        accepted = e;
        as_described = inl refl;
      },
    )
    or_url-Posted url media w (err text) e =
        let c = send_file_as_user channel media shown.username shown.avatar in
        let w1 : World S = record w { calls = w.calls ++ c ∷ [] } in
        let Here : String → World S → Type 0 =
          λ _ w'. Grown w1 w' × Posted outside (Carries channel shown (url, some media)) w'.calls in
        After-weaken Here (λ w'. w'.db ≡ w.db)
          (λ _ w'. Grown w w' × Posted outside (Carries channel shown (url, some media)) w'.calls)
          (post_text outside channel shown (labelled media.filename url) w1)
          (post-Posted (Carries channel shown (url, some media)) _ (inr refl) w1)
          (λ _ w2 h.
            (Grown_trans w w1 w2 (record { more = c ∷ []; calls = refl; same_db = refl }) h.0, h.1))

    post_attachment-Posted :
        (a : Downloaded) → Posts (Carries channel shown a) (post_attachment outside channel shown a)
    post_attachment-Posted (url, none) w = post-Posted _ _ refl w
    post_attachment-Posted (url, some media) w =
        elim (Bool-cases (ltb max_discord_bytes media.size)) [
          | inl large ↦ rw large (post-Posted _ _ (inr refl) w)
          | inr small ↦ rw small (or_url-Posted url media w _ refl)
        ]

    pub post_attachments-Posted :
        (l : List Downloaded) (w : World S)
        → After
            (λ _ w'. Grown w w' × All (λ a. Posted outside (Carries channel shown a) w'.calls) l)
            (λ w'. w'.db ≡ w.db)
            (post_attachments outside channel shown l w)
    post_attachments-Posted [] w = (Grown_refl w, tt)
    post_attachments-Posted (a ∷ l) w =
        let one = post_attachment outside channel shown a w in
        let Last : String → World S → Type 0 =
          λ _ w'. Grown w w' × Posted outside (Carries channel shown a) w'.calls in
        let Every : Unit {0} → World S → Type 0 = λ _ w'.
          Grown w w' × All (λ b. Posted outside (Carries channel shown b) w'.calls) (a ∷ l) in
        follow-After Last Every (λ w'. w'.db ≡ w.db) one.0 one.1 _ (post_attachment-Posted a w)
          (λ _ w1 h.
            After-both
              (λ _ w'. Grown w1 w' × All (λ b. Posted outside (Carries channel shown b) w'.calls) l)
              (λ w'. w'.db ≡ w1.db) Every (λ w'. w'.db ≡ w.db)
              (post_attachments outside channel shown l w1) (post_attachments-Posted l w1)
              (λ _ w2 k. (
                Grown_trans w w1 w2 h.0 k.0,
                (Posted-Grown (Carries channel shown a) w1 w2 k.0 h.1, k.1),
              ))
              (λ w2 k. k ∙ h.0.same_db))

  module _ (homeserver_url : String) {Embed : Type 0} (channel : String)
      (outbound : OutboundDiscordMessage Embed) where
    -- The attachments and then the text have been posted.
    pub record Delivered (shown : Shown) (attachments : List Downloaded) (w w' : World S)
        : Type 0 where
      pub grown : Grown w w'
      pub attached : All (λ a. Posted outside (Carries channel shown a) w'.calls) attachments
      pub said :
          is_empty outbound.content ≡ false
          → Posted outside
              (Says channel shown outbound.content outbound.reply_to outbound.edit_of)
              w'.calls

    post_content-Delivered :
        (shown : Shown) (attachments : List Downloaded) (w w1 : World S)
        → Grown w w1
        → All (λ a. Posted outside (Carries channel shown a) w1.calls) attachments
        → After
            (λ _. Delivered shown attachments w)
            (λ w'. w'.db ≡ w.db)
            (post_content outside homeserver_url channel shown outbound w1)
    post_content-Delivered shown attachments w w1 g h =
        elim (Bool-cases (is_empty outbound.content)) [
          | inl silent ↦ rw silent (record { grown = g; attached = h; said = λ e. ground arith })
          | inr said ↦
              let c =
                send_as_user channel outbound.content [] outbound.reply_to outbound.edit_of
                  shown.username shown.avatar in
              let P = Says channel shown outbound.content outbound.reply_to outbound.edit_of in
              let one = post outside c w1 in
              rw said (
                follow-After (λ _ w'. Grown w1 w' × Posted outside P w'.calls)
                  (λ _. Delivered shown attachments w) (λ w'. w'.db ≡ w.db) one.0 one.1 _
                  (After-both (λ _ w'. Grown w1 w' × Posted outside P w'.calls)
                    (λ w'. w'.db ≡ w1.db) (λ _ w'. Grown w1 w' × Posted outside P w'.calls)
                    (λ w'. w'.db ≡ w.db) one (post-Posted P c refl w1) (λ _ _ k. k)
                    (λ w' k. k ∙ g.same_db))
                  (λ _ w2 k. record {
                    grown = Grown_trans w w1 w2 g k.0;
                    attached = All-Posted-Grown (Carries channel shown) attachments w1 w2 k.0 h;
                    said = λ _. k.1;
                  }))
        ]

    -- The sender is shown as the answer to the question of the profile says.
    pub send_to_discord_with_attachments-Delivered :
        (sender : String) (attachments : List Downloaded) (w : World S)
        → After
            (λ _.
              Delivered
                (shown_as homeserver_url sender (outside.profile w.calls sender))
                attachments
                w)
            (λ w'. w'.db ≡ w.db)
            (send_to_discord_with_attachments outside homeserver_url channel outbound sender
              attachments w)
    unfolding send_to_discord_with_attachments
    send_to_discord_with_attachments-Delivered sender attachments w =
        let shown = shown_as homeserver_url sender (outside.profile w.calls sender) in
        let w1 : World S = record w { calls = w.calls ++ get_user_profile sender ∷ [] } in
        let all = post_attachments outside channel shown attachments w1 in
        let first : Grown w w1 = record {
          more = get_user_profile sender ∷ [];
          calls = refl;
          same_db = refl;
        } in
        follow-After
          (λ _ w'.
            Grown w1 w' × All (λ a. Posted outside (Carries channel shown a) w'.calls) attachments)
          (λ _. Delivered shown attachments w) (λ w'. w'.db ≡ w.db) all.0 all.1 _
          (post_attachments-Posted channel shown attachments w1)
          (λ _ w2 h.
            post_content-Delivered shown attachments w w2 (Grown_trans w w1 w2 first h.0) h.1)
