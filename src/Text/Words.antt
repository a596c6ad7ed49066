-- ===== src/Text/Words.antt =====
-- `split_whitespace` and `join`.
use Prim.Native.String
use matrix_bridge_discord.Prelude.{List, [], ◌∷◌, String, Char, if◌then◌else◌, Bool, ◌||◌}
use matrix_bridge_discord.Text.Trim.{is_whitespace, is_empty, starts_with}

abbrev pub push : String → Char → String
push s c = String.◌++◌ s (String.◌∷◌ c String.[])

-- The words of the text, where `cur` has been read of the first.
unfoldable pub words_from : String → String → List String
words_from cur String.[] = if is_empty cur then [] else cur ∷ []
words_from cur (String.◌∷◌ c s) =
    let later = words_from "" s in
    let longer = words_from (push cur c) s in
    if is_whitespace c then (if is_empty cur then later else cur ∷ later) else longer

unfoldable pub split_whitespace : String → List String
unfolding words_from
split_whitespace s = words_from "" s

unfoldable pub join : List String → String → String
join [] sep = ""
join (x ∷ []) sep = x
join (x ∷ y ∷ xs) sep = String.◌++◌ x (String.◌++◌ sep (join (y ∷ xs) sep))

-- `str::contains` of a text.
unfoldable pub contains : String → String → Bool
contains String.[] needle = starts_with String.[] needle
contains (String.◌∷◌ c s) needle = starts_with (String.◌∷◌ c s) needle || contains s needle
