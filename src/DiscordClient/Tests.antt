-- ===== src/DiscordClient/Tests.antt =====
-- The connection to Discord, run.
use matrix_bridge_discord.Prelude.{ℕ, ◌<◌, List, [], ◌∷◌, ◌≡◌, refl, arith, true, false, some}
use matrix_bridge_discord.DiscordClient.{
  Attempt, ready, silent, exited, DiscordClient, new, start, Event, logs_in, stops, gateway_ends,
  run,
}
use matrix_bridge_discord.DiscordClient.Login.{IsValid, Fails, run-IsValid, start-waits}

abbrev reconnects : List Event
reconnects =
    logs_in silent
    ∷ logs_in (ready true)
    ∷ gateway_ends 1
    ∷ logs_in (ready true)
    ∷ stops
    ∷ logs_in (ready false)
    ∷ []

run-IsValid_example : IsValid (run new reconnects)
run-IsValid_example = run-IsValid new reconnects refl

abbrev third_time : ℕ → Attempt
third_time ℕ.zero = silent
third_time (ℕ.suc ℕ.zero) = exited
third_time (ℕ.suc (ℕ.suc n)) = ready true

two_fail : (j : ℕ) → j < 2 → Fails (third_time j)
two_fail ℕ.zero h = tt
two_fail (ℕ.suc ℕ.zero) h = tt
two_fail (ℕ.suc (ℕ.suc n)) h = let none_left : ⊥ = omega (arith, h) in elim none_left [ ]

start-waits_example :
    (c' : DiscordClient) × (start 3 third_time new ≡ some (c', 2 ∷ 4 ∷ []))
    × (c'.is_logged_in ≡ true)
start-waits_example = start-waits third_time 2 new refl tt two_fail
