-- ===== src/Blocker/Tests.antt =====
-- The blocker, run.
use matrix_bridge_discord.Prelude.{ℕ, String, false, not, ◌&&◌, none, ◌≡◌, refl, arith, ok, ltb}
use matrix_bridge_discord.Blocker.{
  BridgeBlocker, active, check_and_update, pause, is_blocked, should_accept_new_user, checks,
  run_op,
}
use matrix_bridge_discord.Blocker.Limits.{
  IsValid, run_op-IsValid, is_paused, should_accept_new_user-check_and_update, pause_lost,
}

abbrev fresh : BridgeBlocker
fresh = record {
  state = record {
    state = active;
    active_users = 0;
    total_rooms = 0;
    messages_sent = 0;
    messages_received = 0;
    last_check = 0;
    pause_reason = none;
  };
  user_limit = 2;
}

fresh-IsValid : IsValid fresh
unfolding is_blocked
fresh-IsValid = record { reason = refl; over = λ e. ground arith }

abbrev some_text : ℕ → String
some_text _ = "3"

run_op-IsValid_example : IsValid (run_op some_text fresh (checks (ok 3) (ok 1) 60))
run_op-IsValid_example = run_op-IsValid some_text fresh (checks (ok 3) (ok 1) 60) fresh-IsValid

should_accept_new_user-check_and_update_example :
    should_accept_new_user (check_and_update some_text fresh (ok 1) (ok 1) 60).1
    ≡ (ltb 1 2 && not (is_paused active))
should_accept_new_user-check_and_update_example =
    should_accept_new_user-check_and_update some_text fresh 1 1 60

abbrev checked_twice : BridgeBlocker
checked_twice =
    run_op some_text (run_op some_text (pause fresh "upkeep") (checks (ok 3) (ok 1) 60))
      (checks (ok 2) (ok 1) 120)

pause_lost_example : (is_blocked checked_twice ≡ false) × (checked_twice.state.pause_reason ≡ none)
pause_lost_example = pause_lost some_text fresh "upkeep" 3 2 1 1 60 120 (omega arith) (omega arith)
