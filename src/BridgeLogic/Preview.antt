-- ===== src/BridgeLogic/Preview.antt =====
-- How long a preview is, and what it shows.
use Prim.Native.String
use text.Mathlib.TextLemmas.{nil-append, cons-append}
use matrix_bridge_discord.Prelude.{
  ℕ, suc, ◌+◌, String, false, not, ◌≡◌, refl, ap, arith, ltb, if◌then◌else◌, Bool-cases, inl, inr,
}
use matrix_bridge_discord.Text.{is_empty}
use matrix_bridge_discord.BridgeLogic.{max_preview_chars, take, drop, preview_text}

-- The number of characters.
abbrev pub count : String → ℕ
count String.[] = 0
count (String.◌∷◌ c s) = suc (count s)

count-append : (s t : String) → count (String.◌++◌ s t) ≡ count s + count t
count-append String.[] t = rw nil-append (omega arith)
count-append (String.◌∷◌ c s) t = rw cons-append (omega (arith, count-append s t))

count-take : (n : ℕ) (s : String) → count (take n s) ≡ (if ltb n (count s) then n else count s)
count-take n String.[] = ground arith
count-take ℕ.zero (String.◌∷◌ c s) = ground arith
count-take (ℕ.suc n) (String.◌∷◌ c s) = ground (arith, count-take n s)

drop-is_empty : (n : ℕ) (s : String) → not (is_empty (drop n s)) ≡ ltb n (count s)
drop-is_empty n String.[] = ground arith
drop-is_empty ℕ.zero (String.◌∷◌ c s) = ground arith
drop-is_empty (ℕ.suc n) (String.◌∷◌ c s) = ground (arith, drop-is_empty n s)

take_all : (n : ℕ) (s : String) → ltb n (count s) ≡ false → take n s ≡ s
take_all n String.[] h = refl
take_all ℕ.zero (String.◌∷◌ c s) h = ground arith
take_all (ℕ.suc n) (String.◌∷◌ c s) h = ap (String.◌∷◌ c) (take_all n s (ground arith))

-- A preview is the text itself if that has at most 120 characters, and else its first 120 with an
-- ellipsis, 121 characters.
pub preview_text_lem :
    (value : String)
    → (preview_text value ≡ (
        if ltb max_preview_chars (count value)
        then String.◌++◌ (take max_preview_chars value) "…"
        else value))
      × (count (preview_text value)
          ≡ (if ltb max_preview_chars (count value) then suc max_preview_chars else count value))
unfolding preview_text
preview_text_lem value = elim (Bool-cases (ltb max_preview_chars (count value))) [
  | inl long ↦ rw (drop-is_empty, long) (refl, rw (count-append, count-take, long) refl)
  | inr short ↦
      rw (drop-is_empty, short)
        (take_all max_preview_chars value short, ap count (take_all max_preview_chars value short))
]
