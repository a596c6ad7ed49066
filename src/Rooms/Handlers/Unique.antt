-- ===== src/Rooms/Handlers/Unique.antt =====
-- Rows with numbers and channels of their own, taken away by the one or the other.
use matrix_bridge_discord.Prelude.{
  List, [], ◌∷◌, String, Bool, true, false, not, none, some, ◌≡◌, refl, sym, ◌∙◌, subst, arith, ℤ,
  ◌==◌, ◌&&◌, eq_iff, eq_refl, eqb, eqb_iff, find, retain, any, All, All-imp, All-retain,
  Bool-cases, inl, inr,
}
use matrix_bridge_discord.BridgeLogic.{RoomMapping}
use matrix_bridge_discord.Rooms.Store.{RoomStore}
use matrix_bridge_discord.Rooms.Tasks.{Outside}
use matrix_bridge_discord.Rooms.{Options}
use matrix_bridge_discord.Rooms.Handlers.{channels_of}

-- No two rows have the number or the channel in common, as the tables' constraints demand.
abbrev pub Apart : RoomMapping → RoomMapping → Type 0
Apart r q = (eqb q.id r.id ≡ false) × ((q.discord_channel_id == r.discord_channel_id) ≡ false)

abbrev pub Unique : List RoomMapping → Type 0
Unique [] = Unit
Unique (r ∷ l) = All (Apart r) l × Unique l

pub retain-Unique : (p : RoomMapping → Bool) (l : List RoomMapping) → Unique l → Unique (retain p l)
retain-Unique p [] u = tt
retain-Unique p (r ∷ l) (h, u) = ground (arith, retain-Unique p l u, All-retain (Apart r) p l h)

abbrev pub off_channel : String → RoomMapping → Bool
off_channel channel r = not (r.discord_channel_id == channel)

pub retain-All :
    (p : RoomMapping → Bool) (l : List RoomMapping) → All (λ r. p r ≡ true) l → retain p l ≡ l
retain-All p [] h = refl
retain-All p (r ∷ l) (h, hs) = rw (h, retain-All p l hs)

All-both :
    (P Q R : RoomMapping → Type 0) (l : List RoomMapping)
    → ((r : RoomMapping) → P r → Q r → R r)
    → All P l
    → All Q l
    → All R l
All-both P Q R [] f h k = tt
All-both P Q R (r ∷ l) f (h, hs) (k, ks) = (f r h k, All-both P Q R l f hs ks)

All-find :
    (P : RoomMapping → Type 0) (p : RoomMapping → Bool) (l : List RoomMapping) (m : RoomMapping)
    → All P l
    → find p l ≡ some m
    → P m
All-find P p [] m h e = ground arith
All-find P p (r ∷ l) m (h, hs) e = elim (Bool-cases (p r)) [
  | inl hit ↦ let same : r ≡ m = ground (arith, rw hit at e) in subst P same h
  | inr miss ↦ All-find P p l m hs (rw miss at e)
]

pub find-none :
    (channel : String) (l : List RoomMapping)
    → find (λ r. r.discord_channel_id == channel) l ≡ none
    → retain (off_channel channel) l ≡ l
find-none channel [] e = refl
find-none channel (r ∷ l) e = ground (arith, find-none channel l)

first-retain :
    (r : RoomMapping) (l : List RoomMapping)
    → All (Apart r) l
    → retain (λ q. not (eqb q.id r.id)) (r ∷ l) ≡ retain (off_channel r.discord_channel_id) (r ∷ l)
first-retain r l h =
    rw ((eqb_iff r.id r.id).1 refl, eq_refl)
      (retain-All (λ q. not (eqb q.id r.id)) l
          (All-imp (Apart r) _ l (λ q a. ground (arith, a.0)) h)
        ∙ sym (
            retain-All (off_channel r.discord_channel_id) l
              (All-imp (Apart r) _ l (λ q a. ground (arith, a.1)) h)))

-- To take a row away by its number or by its channel is the same.
pub find-retain :
    (channel : String) (l : List RoomMapping) (m : RoomMapping)
    → Unique l
    → find (λ r. r.discord_channel_id == channel) l ≡ some m
    → retain (λ r. not (eqb r.id m.id)) l ≡ retain (off_channel channel) l
find-retain channel [] m u e = refl
find-retain channel (r ∷ l) m (h, u) e = elim (Bool-cases (r.discord_channel_id == channel)) [
  | inl hit ↦
      let same : r ≡ m = ground (arith, rw hit at e) in
      let here = (eq_iff r.discord_channel_id channel).0 hit in
      subst (λ x. retain (λ q. not (eqb q.id x.id)) (r ∷ l) ≡ retain (off_channel channel) (r ∷ l))
        same
        (subst (λ c. retain (λ q. not (eqb q.id r.id)) (r ∷ l) ≡ retain (off_channel c) (r ∷ l))
          here (first-retain r l h))
  | inr miss ↦
      let later = rw miss at e in
      let apart = All-find (Apart r) (λ q. q.discord_channel_id == channel) l m h later in
      ground (
        arith,
        find-retain channel l m u later,
        apart.0,
        miss,
        eqb_iff r.id m.id,
        eqb_iff m.id r.id,
      )
]

pub retain_congr :
    (p q : RoomMapping → Bool) (l : List RoomMapping)
    → All (λ r. p r ≡ q r) l
    → retain p l ≡ retain q l
retain_congr p q [] h = refl
retain_congr p q (r ∷ l) (h, hs) = rw (h, retain_congr p q l hs) refl

pub retain-retain :
    (p q : RoomMapping → Bool) (l : List RoomMapping)
    → retain p (retain q l) ≡ retain (λ r. q r && p r) l
retain-retain p q [] = refl
retain-retain p q (r ∷ l) = ground (arith, retain-retain p q l)

abbrev pub in_guild : String → RoomMapping → Bool
in_guild guild m = m.discord_guild_id == guild

pub any-channels_of :
    {S : Type 0} (store : RoomStore S) (to_string : ℤ → String) (outside : Outside S)
    (options : Options) (guild x : String) (l : List RoomMapping)
    → any (λ c. c == x) (channels_of store to_string outside options guild l)
      ≡ any (λ m. in_guild guild m && (m.discord_channel_id == x)) l
any-channels_of store to_string outside options guild x [] = refl
any-channels_of store to_string outside options guild x (m ∷ l) =
    ground (arith, any-channels_of store to_string outside options guild x l)

any-Apart :
    (guild : String) (r : RoomMapping) (l : List RoomMapping)
    → All (Apart r) l
    → any (λ m. in_guild guild m && (m.discord_channel_id == r.discord_channel_id)) l ≡ false
any-Apart guild r [] h = refl
any-Apart guild r (q ∷ l) (h, hs) = ground (arith, h.1, any-Apart guild r l hs)

-- A row's channel is that of a row of the guild exactly if the row is of the guild.
pub guild_channels :
    (guild : String) (l : List RoomMapping)
    → Unique l
    → All
        (λ r.
          any (λ m. in_guild guild m && (m.discord_channel_id == r.discord_channel_id)) l
          ≡ in_guild guild r)
        l
guild_channels guild [] u = tt
guild_channels guild (r ∷ l) (h, u) = (
  ground (arith, any-Apart guild r l h, eq_refl r.discord_channel_id),
  All-both (Apart r) _ _ l
      (λ q apart k. ground (
        arith,
        k,
        apart.1,
        eq_iff r.discord_channel_id q.discord_channel_id,
        eq_iff q.discord_channel_id r.discord_channel_id,
      ))
      h (guild_channels guild l u),
)
