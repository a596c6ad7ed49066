-- ===== src/Rooms/Tasks.antt =====
-- A task of the bridge: it reads and writes the store and the cache, calls Discord and the
-- homeserver, and stops at the first error.
use matrix_bridge_discord.Prelude.{
  ℕ, List, [], ◌∷◌, ◌++◌, String, Bool, Option, Result, ok, err, ◌≡◌, ◌⊎◌, inl, inr, refl, subst,
  arith,
}
use matrix_bridge_discord.HashMap.{string_eq}
use matrix_bridge_discord.TimedCache
use matrix_bridge_discord.TimedCache.{TimedCache}
use matrix_bridge_discord.BridgeLogic.{RoomMapping}
use matrix_bridge_discord.Provisioning.{ProvisioningError}

-- discord.rs
pub record DiscordChannel : Type 0 where
  pub id : String
  pub name : String
  pub guild_id : String
  pub topic : Option String

pub record DiscordUser : Type 0 where
  pub id : String
  pub username : String
  pub discriminator : String
  pub avatar : Option String

-- media.rs, where the data are the bytes.
pub record MediaInfo : Type 0 where
  pub bytes : List ℕ
  pub content_type : String
  pub filename : String
  pub size : ℕ

-- The calls that leave the bridge, in their order. A state event is named by room, kind and text.
pub data Call : Type 0 where
  get_channel : String → Call
  send_notice : String → String → Call
  get_room_state_event : String → String → Call
  send_state_event : String → String → String → Call
  delete_room_alias : String → Call
  create_room : String → String → Option String → Call
  send_message : String → String → Call
  ask_bridge_permission : String → String → Call
  leave_room : String → Call
  join_room : String → Call
  get_room_text : String → String → Call
  set_room_text : String → String → String → Call
  get_user : String → Call
  get_user_profile : String → Call
  check_permission : String → String → Call
  ensure_ghost_user_registered : String → Option String → Call
  set_discord_user_typing : String → String → Bool → Option ℕ → Call
  redact_message : String → String → String → Call
  download : String → Call
  upload_media : MediaInfo → Call
  -- To Matrix: room, sender, body, the event that is replied to, the event that is edited.
  send_message_with_metadata : String → String → String → Option String → Option String → Call
  send_media_message : String → String → String → String → String → Option String → Call
  -- To Discord: channel, content, attachments, reply, edit, and the name and avatar to show.
  send_as_user :
      String → String → List String → Option String → Option String → String → Option String → Call
  send_file_as_user : String → MediaInfo → String → Option String → Call
  kick_user_from_room : String → String → Option String → Call
  ban_user_from_room : String → String → Option String → Call
  unban_user_from_room : String → String → Call
  invite_user_to_room : String → String → Call
  set_ghost_room_roles : String → String → List String → Call
  set_ghost_displayname : String → String → Call
  set_ghost_avatar : String → String → Call
  set_ghost_room_displayname : String → String → String → Call
  set_ghost_room_avatar : String → String → String → Call
  deny_channel_member_permissions : String → String → Call
  -- After so many milliseconds.
  clear_channel_member_overwrite : ℕ → String → String → Call

pub record World (S : Type 0) : Type 0 where
  pub db : S
  pub room_cache : TimedCache String RoomMapping
  pub now : ℕ
  pub calls : List Call

-- What the calls answer, given those before. While the bridge waits for a permission, other tasks
-- change the world: `others`.
pub record Outside (S : Type 0) : Type 0 where
  pub channel : List Call → String → Result String (Option DiscordChannel)
  pub done : List Call → Call → Result String (Unit {0})
  -- The text of a state event, if the event is there and has one.
  pub state_text : List Call → String → String → Option String
  pub new_room : List Call → String → Result String String
  pub permission : List Call → String → Result ProvisioningError (Unit {0})
  pub others : World S → World S
  -- The identifier that a call which sends something answers with.
  pub sent : List Call → Call → Result String String
  pub room_text : List Call → String → String → Result String (Option String)
  pub user : List Call → String → Result String (Option DiscordUser)
  pub profile : List Call → String → Result String (Option (String × Option String))
  pub allowed : List Call → String → String → Result String Bool
  pub media : List Call → String → Result String MediaInfo
  pub uploaded : List Call → MediaInfo → Result String String

abbrev pub Task : Type 0 → Type 0 → Type 0
Task S A = World S → Result String A × World S

module _ {S : Type 0} where
  abbrev pub give : {A : Type 0} → A → Task S A
  give a w = (ok a, w)

  abbrev pub follow :
      {A B : Type 0} → Result String A → World S → (A → Task S B) → Result String B × World S
  follow (ok a) w k = k a w
  follow (err e) w k = (err e, w)

  infixl 5 ◌>>=◌
  abbrev pub ◌>>=◌ : {A B : Type 0} → Task S A → (A → Task S B) → Task S B
  (m >>= k) w = let (a, w') = m w in follow a w' k

  infixl 5 ◌>>◌
  abbrev pub ◌>>◌ : {A B : Type 0} → Task S A → Task S B → Task S B
  (m >> n) = m >>= λ _. n

  abbrev pub query : {A : Type 0} → (S → Result String A) → Task S A
  query f w = (f w.db, w)

  abbrev pub execute : (S → Result String (Unit {0}) × S) → Task S (Unit {0})
  execute f w = let (a, s) = f w.db in (a, record w { db = s })

  -- A call, and its answer by the calls before it.
  abbrev pub ask : {A : Type 0} → Call → (List Call → A) → Task S A
  ask c answer w = (ok (answer w.calls), record w { calls = w.calls ++ c ∷ [] })

  abbrev pub call : {A : Type 0} → Call → (List Call → Result String A) → Task S A
  call c answer w = (answer w.calls, record w { calls = w.calls ++ c ∷ [] })

  -- A call whose failure is a value, and one that only succeeds or fails.
  abbrev pub attempt :
      {A : Type 0} → Call → (List Call → Result String A) → Task S (Result String A)
  attempt c answer w = (ok (answer w.calls), record w { calls = w.calls ++ c ∷ [] })

  abbrev pub perform : (List Call → Call → Result String (Unit {0})) → Call → Task S (Unit {0})
  perform done c w = (done w.calls c, record w { calls = w.calls ++ c ∷ [] })

  abbrev pub cache_get : String → Task S (Option RoomMapping)
  cache_get room w = (ok (TimedCache.get w.room_cache room w.now), w)

  abbrev pub cache_insert : String → RoomMapping → Task S (Unit {0})
  cache_insert room m w =
      (ok tt, record w { room_cache = TimedCache.insert w.room_cache room m w.now })

  abbrev pub cache_remove : String → Task S (Unit {0})
  cache_remove room w = (ok tt, record w { room_cache = (TimedCache.remove w.room_cache room).1 })

  abbrev pub meanwhile : (World S → World S) → Task S (Unit {0})
  meanwhile others w = (ok tt, others w)

  abbrev pub clock : Task S ℕ
  clock w = (ok w.now, w)

-- What holds when a task has ended: `Q` of its result, or `R` if it stopped at an error.
abbrev pub After :
    {S A : Type 0}
    → (A → World S → Type 0)
    → (World S → Type 0)
    → Result String A × World S
    → Type 0
After Q R (ok a, w) = Q a w
After Q R (err e, w) = R w

module _ {S A B : Type 0} (P : A → World S → Type 0) (Q : B → World S → Type 0)
    (R : World S → Type 0) where
  pub follow-After :
      (x : Result String A) (w : World S) (k : A → Task S B)
      → After P R (x, w)
      → ((a : A) (w' : World S) → P a w' → After Q R (k a w'))
      → After Q R (follow x w k)
  follow-After (ok a) w k h next = next a w h
  follow-After (err e) w k h next = h

module _ {S A : Type 0} (P : A → World S → Type 0) (R : World S → Type 0) where
  pub After-either :
      (x : Result String A) (w : World S) → R w → ((a : A) → x ≡ ok a → P a w) → After P R (x, w)
  After-either (ok a) w r p = p a refl
  After-either (err e) w r p = r

module _ {S A : Type 0} (P : A → World S → Type 0) (R : World S → Type 0) where
  pub After-cases :
      (x : Result String A) (w : World S)
      → ((a : A) → x ≡ ok a → P a w)
      → ((e : String) → x ≡ err e → R w)
      → After P R (x, w)
  After-cases (ok a) w p r = p a refl
  After-cases (err e) w p r = r e refl

  pub After-weaken :
      (Q : A → World S → Type 0) (x : Result String A × World S)
      → After P R x
      → ((a : A) (w : World S) → P a w → Q a w)
      → After Q R x
  After-weaken Q (ok a, w) h next = next a w h
  After-weaken Q (err e, w) h next = h

module _ {S A : Type 0} (P : A → World S → Type 0) (R : World S → Type 0) where
  pub After-both :
      (Q : A → World S → Type 0) (R' : World S → Type 0) (x : Result String A × World S)
      → After P R x
      → ((a : A) (w : World S) → P a w → Q a w)
      → ((w : World S) → R w → R' w)
      → After Q R' x
  After-both Q R' (ok a, w) h next failed = next a w h
  After-both Q R' (err e, w) h next failed = failed w h

-- A result is a value or an error.
pub Result-cases :
    {A : Type 0} (x : Result String A) → ((a : A) × (x ≡ ok a)) ⊎ ((e : String) × (x ≡ err e))
Result-cases (ok a) = inl (a, refl)
Result-cases (err e) = inr (e, refl)

module _ {S A : Type 0} (P : A → World S → Type 0) (R : World S → Type 0) where
  pub After-ok : (x : Result String A × World S) (a : A) → After P R x → x.0 ≡ ok a → P a x.1
  After-ok (ok b, w) a h e = let same : b ≡ a = ground arith in subst (λ c. P c w) same h
  After-ok (err text, w) a h e = ground arith
