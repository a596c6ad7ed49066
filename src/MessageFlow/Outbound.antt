-- ===== src/MessageFlow/Outbound.antt =====
-- What becomes of relations and texts on the way out.
use matrix_bridge_discord.Prelude.{
  [], ◌∷◌, ◌++◌, String, Option, none, some, ◌≡◌, refl, if◌then◌else◌, is_some,
}
use matrix_bridge_discord.Text.{is_empty, join}
use matrix_bridge_discord.MessageFlow.{
  MessageRelation, reply, replace, MatrixInboundMessage, OutboundDiscordMessage, render_content,
  reply_of, edit_of, matrix_to_discord, matrix_to_discord_with_embed, urls,
}

-- The relation that a Discord message shows.
abbrev pub relation_of : Option String → Option String → Option MessageRelation
relation_of (some id) edit = some (reply id)
relation_of none (some id) = some (replace id)
relation_of none none = none

relation_of-eq : (r : Option MessageRelation) → relation_of (reply_of r) (edit_of r) ≡ r
relation_of-eq none = refl
relation_of-eq (some (reply id)) = refl
relation_of-eq (some (replace id)) = refl

module _ {Embed : Type 0} (format_for_discord : String → String)
    (build_message_embed : String → Option String → String → Option (String × String) → Embed) where
  -- As text and as an embed, a Discord message tells the same relation, from which that of the Matrix
  -- message can be read back, and has the URL of each attachment in order; only the embed is sent with
  -- no text.
  matrix_to_discord_relation :
      (m : MatrixInboundMessage) (displayname : String) (avatar : Option String)
      (reply_info : Option (String × String))
      → let plain = matrix_to_discord {Embed = Embed} format_for_discord m in
        let rich =
          matrix_to_discord_with_embed build_message_embed m displayname avatar reply_info in
        (relation_of plain.reply_to plain.edit_of ≡ m.relation)
        × (relation_of rich.reply_to rich.edit_of ≡ m.relation)
        × (plain.attachments ≡ urls m.attachments)
        × (rich.attachments ≡ urls m.attachments)
        × (plain.embed ≡ none)
        × (is_some rich.embed ≡ rich.use_embed)
  unfolding matrix_to_discord matrix_to_discord_with_embed
  matrix_to_discord_relation m displayname avatar reply_info =
      (relation_of-eq m.relation, relation_of-eq m.relation, refl, refl, refl, refl)

join_content : (s : String) → join ((if is_empty s then [] else s ∷ []) ++ []) "\n" ≡ s
unfolding join
join_content String.[] = refl
join_content (String.◌∷◌ c s) = refl

-- A message with no relation and no attachment is sent as its text alone.
render_content_plain :
    {Embed : Type 0} (m : OutboundDiscordMessage Embed)
    → m.reply_to ≡ none
    → m.edit_of ≡ none
    → m.attachments ≡ []
    → render_content m ≡ m.content
unfolding render_content
render_content_plain m r e a = rw (r, e, a) (join_content m.content)
