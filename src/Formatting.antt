-- ===== src/Formatting.antt =====
-- src/utils/formatting.rs: the variables of a pattern are replaced by their values, one after the
-- other.
use Prim.Native.String
use matrix_bridge_discord.Prelude.{ℕ, ◌-◌, List, [], ◌∷◌, String, if◌then◌else◌}
use matrix_bridge_discord.Text.{starts_with}
use matrix_bridge_discord.BridgeLogic.Preview.{count}

-- `str::replace` for a needle that is not empty; `skip` characters belong to the last match.
abbrev pub replace_from : String → String → ℕ → String → String
replace_from needle value skip String.[] = String.[]
replace_from needle value ℕ.zero (String.◌∷◌ c s) =
    let matched = replace_from needle value (count needle - 1) s in
    let later = replace_from needle value 0 s in
    if starts_with (String.◌∷◌ c s) needle then String.◌++◌ value matched else String.◌∷◌ c later
replace_from needle value (ℕ.suc n) (String.◌∷◌ c s) = replace_from needle value n s

unfoldable pub apply_pattern_string : String → List (String × String) → String
apply_pattern_string pattern [] = pattern
apply_pattern_string pattern ((key, value) ∷ vars) =
    apply_pattern_string (replace_from (String.◌++◌ ":" key) value 0 pattern) vars
