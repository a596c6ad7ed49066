-- ===== src/TimedCache/Tests.antt =====
-- The cache, run.
use matrix_bridge_discord.Prelude.{ℕ, List, [], ◌∷◌, String, ◌≡◌, refl, arith, ◌>>=◌, none}
use matrix_bridge_discord.HashMap.{string_eq}
use matrix_bridge_discord.TimedCache.{
  TimedCache, Op, inserts, removes, cleans, new, get, run, fresh_value,
}
use matrix_bridge_discord.TimedCache.Lookup.{IsValid}
use matrix_bridge_discord.TimedCache.History.{history, get-run}

abbrev day : List (ℕ × Op String ℕ)
day = (1, inserts "a" 7) ∷ (2, inserts "b" 8) ∷ (3, removes "a") ∷ (4, cleans) ∷ []

get-run_example : get (run (new 5) day) "b" 6 ≡ (history (λ _. none) day "b" >>= fresh_value 5 6)
get-run_example =
    get-run 5 day "b" 6 (omega arith, (omega arith, (omega arith, (omega arith, omega arith))))

abbrev two_entries : TimedCache String ℕ
two_entries = record {
  entries =
      ("a", record { value = 7; inserted_at = 1 })
      ∷ ("b", record { value = 8; inserted_at = 4 })
      ∷ [];
  ttl = 5;
}

two_entries-IsValid : IsValid two_entries
two_entries-IsValid = ((refl, tt), (tt, tt))
