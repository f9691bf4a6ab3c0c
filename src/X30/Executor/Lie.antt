-- ===== src/X30/Executor/Lie.antt =====
-- `ActionExecutor::lieDown`. The settle loop has no bound in the code (a robot that keeps stepping
-- keeps it going), so the number of polls that are followed is an argument.
pub mod Reaches
use nav_bridge.Prelude.{
  ℕ, zero, suc, ◌+◌, ◌*◌, Bool, true, false, ◌&&◌, ◌||◌, [], ◌∷◌, leb, if◌then◌else◌,
}
use nav_bridge.Prelude.Exec.{pure, starve, lift, act, require, leave, ◌>>=◌, ◌>>◌}
use nav_bridge.X30.Protocol.{
  lying_down, initial_stand, force_stand, stepping, going_down, soft_estop, rl_mode,
  cmd_stand_up_down, cmd_motion,
}
use nav_bridge.X30.Store.{is_basic}
use nav_bridge.X30.Platform.{
  Platform, Act, ActionResult, result, tick, read_clock, sleep_for, wait_for_basic_state,
}
use nav_bridge.X30.Control.{control_warmup_ms}
use nav_bridge.X30.Executor.{
  Callbacks, basic_state_now, send_single_command_and_wait, send_toggle_command_with_retries,
  single_command_timeout_ms,
}

abbrev pub lie_transition_timeout_ms : ℕ
lie_transition_timeout_ms = 6000

abbrev pub lie_final_wait_ms : ℕ
lie_final_wait_ms = 7000

abbrev pub lie_resend_interval_ms : ℕ
lie_resend_interval_ms = 3000

abbrev pub lie_overall_timeout_ms : ℕ
lie_overall_timeout_ms = 12000

abbrev pub lie_stand_settle_ms : ℕ
lie_stand_settle_ms = 3000

abbrev pub lie_stand_settle_poll_ms : ℕ
lie_stand_settle_poll_ms = 100

abbrev pub lie_stop_motion_timeout_ms : ℕ
lie_stop_motion_timeout_ms = 8000

abbrev pub lie_stop_motion_resend_ms : ℕ
lie_stop_motion_resend_ms = 3000

abbrev lied : ActionResult
lied = result true "Robot has lied down."

module _ (p : Platform) (c : Callbacks) where
  -- Wait for the ground and return what the wait says.
  await_ground : {A : Type 0} → ℕ → Act A
  await_ground timeout_ms = do
    down ← lift (wait_for_basic_state p (lying_down ∷ []) timeout_ms)
    require down (result false "Timeout waiting for robot to lie down.")
    leave lied

  stop_stepping : Act Unit
  stop_stepping = do
    stopped ←
        send_toggle_command_with_retries p c cmd_motion (force_stand ∷ initial_stand ∷ [])
          lie_stop_motion_timeout_ms lie_stop_motion_resend_ms control_warmup_ms
    require stopped (result false "Timeout stopping motion before lie down.")

  -- The states in which `lieDown` returns at once or after one wait.
  lie_at_once : ℕ → Act Unit
  lie_at_once state = do
    let wait = do
      down ← lift (wait_for_basic_state p (lying_down ∷ []) 5000)
      require down (result false "Timeout waiting for lie down.")
      leave lied
    let recover = do
      down ←
          send_single_command_and_wait p c cmd_stand_up_down (lying_down ∷ [])
            single_command_timeout_ms control_warmup_ms
      require down (result false "Timeout recovering from estop.")
      leave (result true "Robot recovered and lied down.")
    if is_basic lying_down state
        then leave (result true "Robot is already lying down.")
        else if is_basic going_down state
        then wait
        else if is_basic soft_estop state
        then recover
        else pure tt

  -- Out of RL mode, which may already bring the robot down.
  leave_rl : ℕ → Act Unit
  unfolding await_ground
  leave_rl state = do
    let exit_rl = do
      left ←
          send_single_command_and_wait p c cmd_stand_up_down
            (force_stand ∷ initial_stand ∷ stepping ∷ going_down ∷ lying_down ∷ [])
            lie_transition_timeout_ms control_warmup_ms
      require left (result false "Timeout exiting motion state before lie down.")
      now ← lift (basic_state_now p c)
      if is_basic lying_down now
          then leave lied
          else if is_basic going_down now
          then await_ground lie_final_wait_ms
          else pure tt
    if is_basic rl_mode state then exit_rl else pure tt

  -- One round of the loop that lets the stance settle; `again` is the rounds that follow.
  settle_round : ℕ → (ℕ → Act Unit) → Act Unit
  unfolding await_ground
  settle_round deadline again = do
    now ← lift (read_clock p)
    let poll = do
      state ← lift (basic_state_now p c)
      if is_basic lying_down state
          then leave lied
          else if is_basic going_down state
          then await_ground lie_final_wait_ms
          else pure tt
      let restart = do
        stop_stepping
        later ← lift (read_clock p)
        pure (later + lie_stand_settle_ms * tick)
      deadline' ← if is_basic stepping state then restart else pure deadline
      act (sleep_for p lie_stand_settle_poll_ms)
      again deadline'
    if leb deadline now then pure tt else poll

  -- `polls` are the rounds that are followed.
  settle_loop : ℕ → ℕ → Act Unit
  settle_loop zero deadline = starve
  settle_loop (suc polls) deadline = let again = settle_loop polls in settle_round deadline again

  settle : ℕ → ℕ → Act Unit
  unfolding settle_loop settle_round
  settle polls state = do
    let wait = do now ← lift (read_clock p); settle_loop polls (now + lie_stand_settle_ms * tick)
    if is_basic force_stand state || is_basic initial_stand state then wait else pure tt

  -- The last toggle, and the wait for the ground.
  go_down : Act ActionResult
  unfolding await_ground
  go_down = do
    responded ←
        send_toggle_command_with_retries p c cmd_stand_up_down (going_down ∷ lying_down ∷ [])
          lie_overall_timeout_ms lie_resend_interval_ms control_warmup_ms
    require responded (result false "Timeout waiting for robot to lie down.")
    await_ground lie_final_wait_ms

  unfoldable pub lie_down : ℕ → Act ActionResult
  unfolding lie_at_once leave_rl stop_stepping settle go_down
  lie_down polls = do
    state ← lift (basic_state_now p c)
    lie_at_once state
    leave_rl state
    moving ← lift (basic_state_now p c)
    if is_basic stepping moving then stop_stepping else pure tt
    standing ← lift (basic_state_now p c)
    settle polls standing
    go_down
