-- ===== src/X30/Executor.antt =====
-- src/x30/action_executor.cpp: the commands that wait for the robot to follow. The bridge passes
-- in `control_warmup_` and `command_sender_`; they are the `Callbacks` of this file.
pub mod Rules
pub mod Steps
pub mod Commands
pub mod Actions
pub mod Stand
pub mod Lie
pub mod Force
use nav_bridge.Prelude.{
  ℕ, zero, suc, ◌+◌, ◌-◌, ◌*◌, ◌/◌, ◌≤◌, ◌<◌, ◌≡◌, min, Bool, true, false, List, ltb, leb, ◌==◌,
  if◌then◌else◌,
}
use nav_bridge.Prelude.Exec.{pure, starve, lift, act, ◌>>=◌, ◌>>◌}
use nav_bridge.X30.Protocol.{BasicState}
use nav_bridge.X30.Platform.{Platform, World, Act, tick, read_clock, look, wait_for_basic_state}
use nav_bridge.X30.Control.{control_warmup_ms, control_warmup_pulse_ms}

-- The two `std::function` members. A warm-up takes its time and its pulse in milliseconds.
pub record Callbacks : Type 0 where
  pub control_warmup : ℕ → ℕ → Act Unit
  pub command_sender : ℕ → World → World

abbrev pub single_command_timeout_ms : ℕ
single_command_timeout_ms = 5000

abbrev pub gait_switch_timeout_ms : ℕ
gait_switch_timeout_ms = 5000

abbrev pub stand_target_gait_timeout_ms : ℕ
stand_target_gait_timeout_ms = 12000

abbrev pub stepping_entry_timeout_ms : ℕ
stepping_entry_timeout_ms = 4000

abbrev pub stand_start_motion_timeout_ms : ℕ
stand_start_motion_timeout_ms = 8000

abbrev pub stand_start_motion_resend_ms : ℕ
stand_start_motion_resend_ms = 3000

abbrev pub stand_transition_ms : ℕ
stand_transition_ms = 16000

abbrev pub stand_resend_interval_ms : ℕ
stand_resend_interval_ms = 4000

abbrev pub stop_motion_timeout_ms : ℕ
stop_motion_timeout_ms = 12000

abbrev pub stop_motion_resend_ms : ℕ
stop_motion_resend_ms = 4000

module _ (p : Platform) (c : Callbacks) where
  unfoldable pub ensure_control_takeover : ℕ → ℕ → Act Unit
  ensure_control_takeover warmup_ms pulse_ms = c.control_warmup warmup_ms pulse_ms

  -- `state_store_.basicState()`
  unfoldable pub basic_state_now : World → ℕ × World
  basic_state_now = look p (λ r. r.basic_state)

  unfoldable pub gait_state_now : World → ℕ × World
  gait_state_now = look p (λ r. r.gait_state)

  -- The `for` loop over the attempts that are left.
  single_command_loop : ℕ → ℕ → List BasicState → ℕ → ℕ → Act Bool
  single_command_loop zero command targets timeout_ms warmup_ms = pure false
  single_command_loop (suc attempts) command targets timeout_ms warmup_ms = do
    ensure_control_takeover warmup_ms control_warmup_pulse_ms
    act (c.command_sender command)
    answered ← lift (wait_for_basic_state p targets timeout_ms)
    let again = single_command_loop attempts command targets timeout_ms warmup_ms
    if answered then pure true else again

  -- kMaxCommandAttempts is 2.
  unfoldable pub send_single_command_and_wait : ℕ → List BasicState → ℕ → ℕ → Act Bool
  unfolding single_command_loop
  send_single_command_and_wait = single_command_loop 2

  -- One round of the `while` loop; `again` is the rounds that follow.
  toggle_round : ℕ → ℕ → List BasicState → ℕ → Act Bool → Act Bool
  toggle_round deadline command targets resend_interval_ms again = do
    start ← lift (read_clock p)
    let round = do
      act (c.command_sender command)
      now ← lift (read_clock p)
      let wait_ms = min resend_interval_ms ((deadline - now) / tick)
      let wait = do
        answered ← lift (wait_for_basic_state p targets wait_ms)
        let retry = do
          later ← lift (read_clock p)
          let takeover = ensure_control_takeover control_warmup_ms control_warmup_pulse_ms
          if ltb later deadline then takeover else pure tt
          again
        if answered then pure true else retry
      if wait_ms == 0 then pure false else wait
    if leb deadline start then pure false else round

  -- The `while` loop. `starved` is an end that the code does not have: the fuel is enough.
  toggle_loop : ℕ → ℕ → ℕ → List BasicState → ℕ → Act Bool
  toggle_loop zero deadline command targets resend_interval_ms = starve
  toggle_loop (suc fuel) deadline command targets resend_interval_ms =
      let again = toggle_loop fuel deadline command targets resend_interval_ms in
      toggle_round deadline command targets resend_interval_ms again

  unfoldable pub send_toggle_command_with_retries : ℕ → List BasicState → ℕ → ℕ → ℕ → Act Bool
  unfolding toggle_loop toggle_round
  send_toggle_command_with_retries command targets overall_ms resend_ms warmup_ms = do
    now ← lift (read_clock p)
    ensure_control_takeover warmup_ms control_warmup_pulse_ms
    toggle_loop (overall_ms + 2) (now + overall_ms * tick) command targets resend_ms
