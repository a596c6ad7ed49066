-- ===== src/Blocker.antt =====
-- src/bridge/blocker.rs: the count of users and rooms, and whether the bridge is blocked. The two
-- counts of the database are arguments, and so are the clock and the decimal text of a number.
pub mod Limits
mod Tests
use Prim.Native.String
use matrix_bridge_discord.Prelude.{
  ℕ, ◌+◌, ◌%◌, ◌^◌, String, Bool, true, false, not, Option, none, some, Result, ok, err, ltb, leb,
  unwrap_or, if◌then◌else◌, ◌&&◌,
}

abbrev pub default_user_limit : ℕ
default_user_limit = 100

pub data BridgeState : Type 0 where
  active paused limited : BridgeState

pub record BridgeStatus : Type 0 where
  pub state : BridgeState
  pub active_users : ℕ
  pub total_rooms : ℕ
  pub messages_sent : ℕ
  pub messages_received : ℕ
  pub last_check : ℕ
  pub pause_reason : Option String

pub record BridgeBlocker : Type 0 where
  pub state : BridgeStatus
  pub user_limit : ℕ

-- The option `bridge.user_limit`, and the clock.
unfoldable pub new : Option ℕ → ℕ → BridgeBlocker
new user_limit now = record {
  state = record {
    state = active;
    active_users = 0;
    total_rooms = 0;
    messages_sent = 0;
    messages_received = 0;
    last_check = now;
    pause_reason = none;
  };
  user_limit = unwrap_or user_limit default_user_limit;
}

abbrev pub is_active : BridgeState → Bool
is_active active = true
is_active paused = false
is_active limited = false

abbrev pub is_limited : BridgeState → Bool
is_limited active = false
is_limited paused = false
is_limited limited = true

module _ (to_string : ℕ → String) where
  abbrev pub limit_reason : ℕ → ℕ → String
  limit_reason users limit =
      String.◌++◌ "User limit exceeded: "
        (String.◌++◌ (to_string users) (String.◌++◌ " > " (to_string limit)))

  -- What is written behind the lock when both counts are known.
  unfoldable pub update : BridgeBlocker → ℕ → ℕ → ℕ → BridgeBlocker
  update b users rooms now =
      if ltb b.user_limit users
      then record b {
        state = record b.state {
          active_users = users;
          total_rooms = rooms;
          last_check = now;
          state = limited;
          pause_reason = some (limit_reason users b.user_limit);
        };
      }
      else if is_limited b.state.state && leb users b.user_limit
      then record b {
        state = record b.state {
          active_users = users;
          total_rooms = rooms;
          last_check = now;
          state = active;
          pause_reason = none;
        };
      }
      else record b {
        state = record b.state { active_users = users; total_rooms = rooms; last_check = now };
      }

  unfoldable pub check_and_update :
      BridgeBlocker
      → Result String ℕ
      → Result String ℕ
      → ℕ
      → Result String BridgeState × BridgeBlocker
  check_and_update b (err e) rooms now = (err e, b)
  check_and_update b (ok users) (err e) now = (err e, b)
  check_and_update b (ok users) (ok rooms) now =
      let b' = update b users rooms now in (ok b'.state.state, b')

unfoldable pub pause : BridgeBlocker → String → BridgeBlocker
pause b reason = record b { state = record b.state { state = paused; pause_reason = some reason } }

unfoldable pub resume : BridgeBlocker → BridgeBlocker
resume b = record b { state = record b.state { state = active; pause_reason = none } }

unfoldable pub is_blocked : BridgeBlocker → Bool
is_blocked b = not (is_active b.state.state)

-- The counters are 64 bits wide, and wrap around in a release build.
unfoldable pub record_message_sent : BridgeBlocker → BridgeBlocker
record_message_sent b = record b {
  state = record b.state { messages_sent = (b.state.messages_sent + 1) % 2 ^ 64 };
}

unfoldable pub record_message_received : BridgeBlocker → BridgeBlocker
record_message_received b = record b {
  state = record b.state { messages_received = (b.state.messages_received + 1) % 2 ^ 64 };
}

unfoldable pub should_accept_new_user : BridgeBlocker → Bool
should_accept_new_user b =
    if not (is_active b.state.state) then false else ltb b.state.active_users b.user_limit

-- The calls of a running bridge.
pub data Op : Type 0 where
  checks : Result String ℕ → Result String ℕ → ℕ → Op
  pauses : String → Op
  resumes sends receives : Op

module _ (to_string : ℕ → String) where
  unfoldable pub run_op : BridgeBlocker → Op → BridgeBlocker
  run_op b (checks users rooms now) = (check_and_update to_string b users rooms now).1
  run_op b (pauses reason) = pause b reason
  run_op b resumes = resume b
  run_op b sends = record_message_sent b
  run_op b receives = record_message_received b
