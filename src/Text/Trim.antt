-- ===== src/Text/Trim.antt =====
-- `char::is_whitespace`, `trim`, `strip_prefix` and `split_once`.
use Prim.Native.String.{[], ◌∷◌}
use mathlib.Core.Option
use text.Mathlib.TextEquality.{Char-path}
use matrix_bridge_discord.Prelude.{
  ℕ, ◌≡◌, ◌≢◌, Bool, true, false, ◌&&◌, ◌||◌, Option, none, some, String, Char, code, leb, eqb,
  eqb_iff, if◌then◌else◌, is_some,
}

abbrev pub char_eq : Char → Char → Bool
char_eq c d = eqb (code c) (code d)

pub char_eq-eq : (c d : Char) → char_eq c d ≡ true → c ≡ d
char_eq-eq c d h = Char-path c d ((eqb_iff (code c) (code d)).0 h)

-- The characters with the Unicode property White_Space.
pub is_space_code : ℕ → Bool
is_space_code n =
    (leb 0x9 n && leb n 0xd)
    || eqb n 0x20
    || eqb n 0x85
    || eqb n 0xa0
    || eqb n 0x1680
    || (leb 0x2000 n && leb n 0x200a)
    || eqb n 0x2028
    || eqb n 0x2029
    || eqb n 0x202f
    || eqb n 0x205f
    || eqb n 0x3000

unfoldable pub is_whitespace : Char → Bool
unfolding is_space_code
is_whitespace c = is_space_code (code c)

abbrev pub is_empty : String → Bool
is_empty [] = true
is_empty (c ∷ s) = false

unfoldable pub trim_start : String → String
trim_start [] = []
trim_start (c ∷ s) = let rest = trim_start s in if is_whitespace c then rest else c ∷ s

unfoldable pub trim_end : String → String
trim_end [] = []
trim_end (c ∷ s) =
    let rest = trim_end s in if is_whitespace c && is_empty rest then [] else c ∷ rest

unfoldable pub trim : String → String
trim s = trim_end (trim_start s)

-- What is left of the text behind the prefix.
unfoldable pub strip_prefix : String → String → Option String
strip_prefix [] s = some s
strip_prefix (c ∷ p) [] = none
strip_prefix (c ∷ p) (d ∷ s) = if char_eq c d then strip_prefix p s else none

unfoldable pub starts_with : String → String → Bool
starts_with s p = is_some (strip_prefix p s)

-- The parts before and behind the first occurrence of the separator.
unfoldable pub split_once : Char → String → Option (String × String)
split_once sep [] = none
split_once sep (c ∷ s) =
    let rest = Option.map (λ p. (c ∷ p.0, p.1)) (split_once sep s) in
    if char_eq c sep then some ([], s) else rest

-- No character is white space.
abbrev pub NoSpace : String → Type 0
NoSpace [] = Unit
NoSpace (c ∷ s) = (is_whitespace c ≡ false) × NoSpace s

-- A word as `split_whitespace` yields it.
abbrev pub IsWord : String → Type 0
IsWord w = NoSpace w × (w ≢ [])
