-- ===== src/Blocker/Limits.antt =====
-- When the bridge is blocked, and why.
use matrix_bridge_discord.Prelude.{
  none, ℕ, ◌≤◌, ◌<◌, String, Bool, true, false, not, Option, ◌≡◌, refl, arith, Result, ok, err, ltb,
  is_some, ◌&&◌, ◌⊎◌, inl, inr,
}
use matrix_bridge_discord.Blocker.{
  BridgeState, active, paused, limited, BridgeBlocker, new, is_limited, update, check_and_update,
  pause, resume, is_blocked, record_message_sent, record_message_received, should_accept_new_user,
  Op, checks, pauses, resumes, sends, receives, run_op,
}

-- A reason is given exactly while the bridge is blocked, and it is limited only over the limit.
pub record IsValid (b : BridgeBlocker) : Type 0 where
  pub reason : is_some b.state.pause_reason ≡ is_blocked b
  pub over : is_limited b.state.state ≡ true → b.user_limit < b.state.active_users

-- A new bridge has a reason exactly while it is blocked, and is not limited.
pub new-IsValid : (user_limit : Option ℕ) (now : ℕ) → IsValid (new user_limit now)
unfolding new is_blocked
new-IsValid user_limit now = record { reason = refl; over = λ e. ground arith }

abbrev pub is_paused : BridgeState → Bool
is_paused active = false
is_paused paused = true
is_paused limited = false

State-cases : (s : BridgeState) → (s ≡ active) ⊎ (s ≡ paused) ⊎ (s ≡ limited)
State-cases active = inl refl
State-cases paused = inr (inl refl)
State-cases limited = inr (inr refl)

module _ (to_string : ℕ → String) where
  update-IsValid :
      (b : BridgeBlocker) (users rooms now : ℕ)
      → IsValid b
      → IsValid (update to_string b users rooms now)
  unfolding is_blocked update
  update-IsValid b users rooms now v = record {
    reason = ground (arith, v.reason);
    over = ground (arith, v.over);
  }

  -- Every call keeps this: a reason is given exactly while the bridge is blocked, and the bridge is
  -- limited only while the last count of users is over the limit.
  pub run_op-IsValid : (b : BridgeBlocker) (op : Op) → IsValid b → IsValid (run_op to_string b op)
  unfolding run_op check_and_update pause resume is_blocked record_message_sent
      record_message_received
  run_op-IsValid b (checks (err e) rooms now) v = v
  run_op-IsValid b (checks (ok users) (err e) now) v = v
  run_op-IsValid b (checks (ok users) (ok rooms) now) v = update-IsValid b users rooms now v
  run_op-IsValid b (pauses reason) v = record { reason = refl; over = λ e. ground arith }
  run_op-IsValid b resumes v = record { reason = refl; over = λ e. ground arith }
  run_op-IsValid b sends v = record { reason = v.reason; over = v.over }
  run_op-IsValid b receives v = record { reason = v.reason; over = v.over }

  -- After a check with both counts, the bridge takes new users exactly if they are fewer than the
  -- limit and it was not paused before.
  pub should_accept_new_user-check_and_update :
      (b : BridgeBlocker) (users rooms now : ℕ)
      → should_accept_new_user (check_and_update to_string b (ok users) (ok rooms) now).1
        ≡ (ltb users b.user_limit && not (is_paused b.state.state))
  unfolding check_and_update update should_accept_new_user
  should_accept_new_user-check_and_update b users rooms now = elim (State-cases b.state.state) [
    | inl e ↦ ground (arith, e)
    | inr (inl e) ↦ ground (arith, e)
    | inr (inr e) ↦ ground (arith, e)
  ]

  -- A check without one of the counts answers with the error and changes nothing.
  pub check_and_update_err :
      (b : BridgeBlocker) (users rooms : Result String ℕ) (now : ℕ) (e : String)
      → (users ≡ err e) ⊎ ((n : ℕ) × (users ≡ ok n) × (rooms ≡ err e))
      → check_and_update to_string b users rooms now ≡ (err e, b)
  unfolding check_and_update
  check_and_update_err b users rooms now e (inl h) = rw h refl
  check_and_update_err b users rooms now e (inr (n, h, k)) = rw (h, k) refl

  -- A pause does not outlive the limit: after a check over the limit and then one within it, a
  -- bridge that was paused is not blocked, and its reason is gone.
  pub pause_lost :
      (b : BridgeBlocker) (reason : String) (many few rooms rooms' t t' : ℕ)
      → b.user_limit < many
      → few ≤ b.user_limit
      → (is_blocked (
            run_op to_string
              (run_op to_string (pause b reason) (checks (ok many) (ok rooms) t))
              (checks (ok few) (ok rooms') t'))
          ≡ false)
        × ((run_op to_string
              (run_op to_string (pause b reason) (checks (ok many) (ok rooms) t))
              (checks (ok few) (ok rooms') t')).state.pause_reason
            ≡ none)
  unfolding run_op check_and_update update pause is_blocked
  pause_lost b reason many few rooms rooms' t t' over within = (ground arith, ground arith)
