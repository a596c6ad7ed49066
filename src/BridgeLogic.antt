-- ===== src/BridgeLogic.antt =====
-- src/bridge/logic.rs: the small decisions of the bridge, apart from its calls.
pub mod Preview
use Prim.Native.String
use mathlib.Core.Option
use matrix_bridge_discord.Prelude.{
  ℕ, suc, String, Bool, true, false, not, Option, none, some, if◌then◌else◌, ◌&&◌, is_some,
}
use matrix_bridge_discord.Text.{is_empty}
use matrix_bridge_discord.MessageFlow.{OutboundMatrixMessage}

-- `RoomMapping` and `MessageMapping` of db/models.rs, where a time is a number.
pub record RoomMapping : Type 0 where
  pub id : ℕ
  pub matrix_room_id : String
  pub discord_channel_id : String
  pub discord_channel_name : String
  pub discord_guild_id : String
  pub created_at : ℕ
  pub updated_at : ℕ

pub record MessageMapping : Type 0 where
  pub id : ℕ
  pub discord_message_id : String
  pub matrix_room_id : String
  pub matrix_event_id : String
  pub created_at : ℕ
  pub updated_at : ℕ

pub record RedactionRequest : Type 0 where
  pub room_id : String
  pub event_id : String
  pub reason : String

pub record TypingRequest : Type 0 where
  pub room_id : String
  pub discord_user_id : String
  pub typing : Bool
  pub timeout_ms : Option ℕ

abbrev pub discord_typing_timeout_ms : ℕ
discord_typing_timeout_ms = 4000

abbrev pub max_preview_chars : ℕ
max_preview_chars = 120

-- `take` over `chars`, and what the iterator has left.
abbrev pub take : ℕ → String → String
take n String.[] = String.[]
take ℕ.zero (String.◌∷◌ c s) = String.[]
take (ℕ.suc n) (String.◌∷◌ c s) = String.◌∷◌ c (take n s)

abbrev pub drop : ℕ → String → String
drop n String.[] = String.[]
drop ℕ.zero (String.◌∷◌ c s) = String.◌∷◌ c s
drop (ℕ.suc n) (String.◌∷◌ c s) = drop n s

unfoldable pub preview_text : String → String
preview_text value =
    if not (is_empty (drop max_preview_chars value))
    then String.◌++◌ (take max_preview_chars value) "…"
    else take max_preview_chars value

abbrev pub linked : Option MessageMapping → Option String → Option String
linked none before = before
linked (some link) before = some link.matrix_event_id

unfoldable pub apply_message_relation_mappings :
    OutboundMatrixMessage → Option MessageMapping → Option MessageMapping → OutboundMatrixMessage
apply_message_relation_mappings outbound reply_mapping edit_mapping = record outbound {
  reply_to = linked reply_mapping outbound.reply_to;
  edit_of = linked edit_mapping outbound.edit_of;
}

unfoldable pub build_discord_delete_redaction_request : MessageMapping → RedactionRequest
build_discord_delete_redaction_request link = record {
  room_id = link.matrix_room_id;
  event_id = link.matrix_event_id;
  reason = "Deleted on Discord";
}

unfoldable pub discord_delete_redaction_request : Option MessageMapping → Option RedactionRequest
unfolding build_discord_delete_redaction_request
discord_delete_redaction_request link = Option.map build_discord_delete_redaction_request link

unfoldable pub build_discord_typing_request : String → String → TypingRequest
build_discord_typing_request matrix_room_id discord_user_id = record {
  room_id = matrix_room_id;
  discord_user_id = discord_user_id;
  typing = true;
  timeout_ms = some discord_typing_timeout_ms;
}

unfoldable pub should_forward_discord_typing : Bool → Option RoomMapping → Bool
should_forward_discord_typing disabled room_mapping = not disabled && is_some room_mapping
