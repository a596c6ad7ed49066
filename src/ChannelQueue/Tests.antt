-- ===== src/ChannelQueue/Tests.antt =====
-- Three tasks of two channels, of which two run.
use matrix_bridge_discord.Prelude.{◌≤◌, List, [], ◌∷◌, String, ◌≡◌, any, length, retain, All}
use matrix_bridge_discord.ChannelQueue.{new, is_held, Event, enqueues, begins, run}
use matrix_bridge_discord.ChannelQueue.Exclusion.{runs_in}
use matrix_bridge_discord.ChannelQueue.Channels.{run-Exclusive}

abbrev three_tasks : List Event
three_tasks = enqueues "1" ∷ enqueues "1" ∷ enqueues "2" ∷ begins 1 ∷ begins 0 ∷ begins 2 ∷ []

run-Exclusive_example :
    ((channel : String) → length (retain (runs_in channel) (run new three_tasks).tasks) ≤ 1)
    × All
        (λ t.
          is_held t.mutex (run new three_tasks).tasks
          ≡ any (runs_in t.channel) (run new three_tasks).tasks)
        (run new three_tasks).tasks
run-Exclusive_example = run-Exclusive three_tasks
