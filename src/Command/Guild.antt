-- ===== src/Command/Guild.antt =====
-- What `parse_guild_and_channel` reads.
use Prim.Native.String
use mathlib.Core.Option
use mathlib.Core.Option.{some-injective}
use text.Mathlib.TextLemmas.{nil-append, cons-append, cons-ne-nil}
use matrix_bridge_discord.Prelude.{
  ◌≡◌, ◌≢◌, refl, sym, ap, ◌∙◌, ◌⊎◌, inl, inr, false, List, [], ◌∷◌, String, Char, Option, none,
  some, Option-cases, Bool-cases,
}
use matrix_bridge_discord.Text.{char_eq, char_eq-eq, split_once}
use matrix_bridge_discord.Text.Laws.{char_eq_refl}
use matrix_bridge_discord.Command.{check_nonempty, split_guild, parse_guild_and_channel}

-- The separator does not occur.
abbrev pub Lacks : Char → String → Type 0
Lacks sep String.[] = Unit
Lacks sep (String.◌∷◌ c s) = (char_eq c sep ≡ false) × Lacks sep s

split_once-append :
    (sep : Char) (s t : String)
    → Lacks sep s
    → split_once sep (String.◌++◌ s (String.◌∷◌ sep t)) ≡ some (s, t)
unfolding split_once
split_once-append sep String.[] t _ = rw nil-append (rw (char_eq_refl sep))
split_once-append sep (String.◌∷◌ c s) t (hc, hs) =
    rw cons-append (rw (split_once-append sep s t hs, hc))

pair_of {ℓ} :
    {A B : Type ℓ} {a c : A} {b d : B}
    → Path (Option (A × B)) (some (a, b)) (some (c, d))
    → (a ≡ c) × (b ≡ d)
pair_of e = let p = some-injective _ _ e in (ap (λ q. q.0) p, ap (λ q. q.1) p)

split_once-eq-some :
    (sep : Char) (s before behind : String)
    → split_once sep s ≡ some (before, behind)
    → s ≡ String.◌++◌ before (String.◌∷◌ sep behind)
unfolding split_once
split_once-eq-some sep String.[] before behind e = cc
split_once-eq-some sep (String.◌∷◌ c s) before behind e = elim (Bool-cases (char_eq c sep)) [
  | inl same ↦
      let found = pair_of (rw (same, split_once) at e) in
      rw (← found.0, nil-append, char_eq-eq c sep same, found.1)
  | inr other ↦
      let (p, later, same) = (Option.map-eq-some_iff _ _).0 (rw (other, split_once) at e) in
      let parts = split_once-eq-some sep s p.0 p.1 later in
      rw (← ap (λ q. q.0) same, cons-append, parts, ap (λ q. q.1) same)
]

check_nonempty-eq-some :
    (guild channel g c : String)
    → check_nonempty guild channel ≡ some (g, c)
    → (guild ≡ g) × (channel ≡ c) × (g ≢ "") × (c ≢ "")
check_nonempty-eq-some String.[] channel g c e = cc
check_nonempty-eq-some (String.◌∷◌ x guild) String.[] g c e = cc
check_nonempty-eq-some (String.◌∷◌ x guild) (String.◌∷◌ y channel) g c e =
    let parts = pair_of e in
    (parts.0, parts.1, rw (← parts.0) (cons-ne-nil _ _), rw (← parts.1) (cons-ne-nil _ _))

check_nonempty_of_ne :
    (guild channel : String)
    → guild ≢ ""
    → channel ≢ ""
    → check_nonempty guild channel ≡ some (guild, channel)
check_nonempty_of_ne String.[] channel h k = absurd (h refl)
check_nonempty_of_ne (String.◌∷◌ x guild) String.[] h k = absurd (k refl)
check_nonempty_of_ne (String.◌∷◌ x guild) (String.◌∷◌ y channel) h k = refl

split_guild-cases :
    (f : String)
    → (split_guild f ≡ (f, none))
      ⊎ ((g : String) × (rest : String) × (split_guild f ≡ (g, some rest))
          × (f ≡ String.◌++◌ g (String.◌∷◌ "/" rest)))
split_guild-cases f = elim (Option-cases (split_once "/" f)) [
  | inl e ↦ inl (rw e)
  | inr (p, e) ↦ inr (p.0, p.1, rw e, split_once-eq-some "/" f p.0 p.1 e)
]

-- The forms in which the arguments can name a channel: as a second argument, or behind the slash
-- of the only one.
abbrev pub Names : List String → String → String → Type 0
Names [] g c = ⊥
Names (only ∷ []) g c = only ≡ String.◌++◌ g (String.◌∷◌ "/" c)
Names (guild ∷ explicit ∷ _) g c =
    (explicit ≡ c)
    × ((guild ≡ g) ⊎ ((rest : String) × (guild ≡ String.◌++◌ g (String.◌∷◌ "/" rest))))

names_guild :
    (f g : String)
    → (split_guild f).0 ≡ g
    → (f ≡ g) ⊎ ((rest : String) × (f ≡ String.◌++◌ g (String.◌∷◌ "/" rest)))
names_guild f g h = elim (split_guild-cases f) [
  | inl whole ↦ inl (ap (λ p. p.0) (sym whole) ∙ h)
  | inr (guild, rest, parts, spelt) ↦
      let same : guild ≡ g = ap (λ p. p.0) (sym parts) ∙ h in inr (rest, rw (← same) spelt)
]

-- What is read is not empty, and the arguments name it in one of the two forms.
pub parse_guild_and_channel-Names :
    (args : List String) (g c : String)
    → parse_guild_and_channel args ≡ some (g, c)
    → (g ≢ "") × (c ≢ "") × Names args g c
unfolding parse_guild_and_channel
parse_guild_and_channel-Names [] g c e = cc
parse_guild_and_channel-Names (only ∷ []) g c e = elim (split_guild-cases only) [
  | inl whole ↦ cc (rw (whole, parse_guild_and_channel) at e)
  | inr (guild, channel, parts, spelt) ↦
      let (hg, hc, g_ne, c_ne) =
        check_nonempty-eq-some guild channel g c (rw (parts, parse_guild_and_channel) at e) in
      (g_ne, c_ne, rw (spelt, hg, hc))
]
parse_guild_and_channel-Names (first_arg ∷ explicit ∷ _) g c e =
    let (hg, hc, g_ne, c_ne) = check_nonempty-eq-some (split_guild first_arg).0 explicit g c e in
    (g_ne, c_ne, (hc, names_guild first_arg g hg))

-- `guild/channel`, where the guild holds no slash and neither part is empty.
pub parse_guild_and_channel-slash :
    (g c : String)
    → Lacks "/" g
    → g ≢ ""
    → c ≢ ""
    → parse_guild_and_channel (String.◌++◌ g (String.◌∷◌ "/" c) ∷ []) ≡ some (g, c)
unfolding parse_guild_and_channel
parse_guild_and_channel-slash g c h hg hc =
    rw (split_once-append "/" g c h) (check_nonempty_of_ne g c hg hc)

-- `guild channel`: a second argument goes before what stands behind a slash in the first.
pub parse_guild_and_channel_explicit :
    (g first_arg c : String) (more : List String)
    → (split_guild first_arg).0 ≡ g
    → g ≢ ""
    → c ≢ ""
    → parse_guild_and_channel (first_arg ∷ c ∷ more) ≡ some (g, c)
unfolding parse_guild_and_channel
parse_guild_and_channel_explicit g first_arg c more h hg hc = rw h (check_nonempty_of_ne g c hg hc)

split_once-none : (sep : Char) (s : String) → Lacks sep s → split_once sep s ≡ none
unfolding split_once
split_once-none sep String.[] _ = refl
split_once-none sep (String.◌∷◌ c s) (hc, hs) = rw (hc, split_once-none sep s hs)

-- `guild channel`, as two arguments, where the guild holds no slash.
pub parse_guild_and_channel_two :
    (g c : String) (more : List String)
    → Lacks "/" g
    → g ≢ ""
    → c ≢ ""
    → parse_guild_and_channel (g ∷ c ∷ more) ≡ some (g, c)
parse_guild_and_channel_two g c more h hg hc =
    parse_guild_and_channel_explicit g g c more (rw (split_once-none "/" g h)) hg hc
