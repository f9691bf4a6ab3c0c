-- ===== src/X30/Executor/Force.antt =====
-- `ActionExecutor::forceStand`.
pub mod Reaches
use nav_bridge.Prelude.{ℕ, Bool, true, false, ◌||◌, [], ◌∷◌, if◌then◌else◌}
use nav_bridge.Prelude.Exec.{pure, lift, act, require, leave, ◌>>=◌, ◌>>◌}
use nav_bridge.Prelude.Text.{to_string}
use nav_bridge.X30.Protocol.{
  lying_down, standing_up, initial_stand, force_stand, stepping, going_down, soft_estop, rl_mode,
  walk, basic_code, cmd_stand_up_down, cmd_force_control, cmd_motion, cmd_gait_walk,
}
use nav_bridge.X30.Store.{is_basic}
use nav_bridge.X30.Platform.{
  Platform, Act, ActionResult, result, wait_for_basic_state, wait_for_gait_state,
}
use nav_bridge.X30.Control.{control_warmup_ms, control_warmup_pulse_ms}
use nav_bridge.X30.Executor.{
  Callbacks, ensure_control_takeover, basic_state_now, send_single_command_and_wait,
  send_toggle_command_with_retries, single_command_timeout_ms, gait_switch_timeout_ms,
  stepping_entry_timeout_ms, stand_transition_ms, stand_resend_interval_ms, stop_motion_timeout_ms,
  stop_motion_resend_ms,
}
use Prim.Native.String.{String, ◌++◌}

module _ (p : Platform) (c : Callbacks) where
  -- The value is the state that the next step tests: after a soft stop the code does not read it
  -- again, and goes on with LYING_DOWN.
  recover_lying : ℕ → Act ℕ
  recover_lying state = do
    let recover = do
      ok ←
          send_single_command_and_wait p c cmd_stand_up_down (lying_down ∷ [])
            single_command_timeout_ms control_warmup_ms
      require ok (result false "Timeout recovering from soft estop to lying down.")
      pure (basic_code lying_down)
    if is_basic soft_estop state then recover else pure state

  rise_from_ground : ℕ → Act Unit
  rise_from_ground state = do
    let up = do
      responded ←
          send_toggle_command_with_retries p c cmd_stand_up_down
            (standing_up ∷ initial_stand ∷ force_stand ∷ stepping ∷ []) stand_transition_ms
            stand_resend_interval_ms control_warmup_ms
      require responded (result false "No response after stand-up command.")
      risen ← lift (wait_for_basic_state p (initial_stand ∷ force_stand ∷ stepping ∷ []) 6500)
      require risen (result false "Timeout waiting for robot to stand up.")
      seen ← lift (basic_state_now p c)
      pure tt
    if is_basic lying_down state || is_basic going_down state then up else pure tt

  back_to_walk : ℕ → Act ℕ
  back_to_walk state = do
    let switch = do
      ensure_control_takeover p c control_warmup_ms control_warmup_pulse_ms
      act (c.command_sender cmd_gait_walk)
      walking ← lift (wait_for_gait_state p (walk ∷ []) gait_switch_timeout_ms)
      require walking (result false "Timeout switching gait back to walk before stand.")
      steps ← lift (wait_for_basic_state p (stepping ∷ []) stepping_entry_timeout_ms)
      require steps (result false "Timeout waiting for stepping state after switching to walk.")
      lift (basic_state_now p c)
    if is_basic rl_mode state then switch else pure state

  stop_motion : ℕ → Act ℕ
  stop_motion state = do
    let stop = do
      stopped ←
          send_toggle_command_with_retries p c cmd_motion (force_stand ∷ initial_stand ∷ [])
            stop_motion_timeout_ms stop_motion_resend_ms control_warmup_ms
      require stopped (result false "Timeout stopping motion before entering force stand.")
      lift (basic_state_now p c)
    if is_basic rl_mode state || is_basic stepping state then stop else pure state

  switch_to_force : ℕ → Act Unit
  switch_to_force state = do
    let switch = do
      ensure_control_takeover p c control_warmup_ms control_warmup_pulse_ms
      act (c.command_sender cmd_force_control)
      forced ← lift (wait_for_basic_state p (force_stand ∷ []) 5000)
      require forced (result false "Timeout entering force stand mode.")
    if is_basic initial_stand state then switch else pure tt

  -- What follows the test for a robot that is in force stand already.
  converge : ℕ → Act ActionResult
  unfolding recover_lying rise_from_ground back_to_walk stop_motion switch_to_force
  converge first = do
    state ← recover_lying first
    require
        (is_basic lying_down state
          || is_basic going_down state
          || is_basic initial_stand state
          || is_basic stepping state
          || is_basic rl_mode state)
        (result false (
          "Robot is not in a state that can enter force stand (current state="
          ++ to_string state
          ++ ")."))
    rise_from_ground state
    risen ← lift (basic_state_now p c)
    walking ← back_to_walk risen
    stopped ← stop_motion walking
    switch_to_force stopped
    final ← lift (basic_state_now p c)
    require (is_basic force_stand final) (result false "Robot failed to reach force stand state.")
    pure (result true "Robot is now in force stand mode.")

  unfoldable pub force_stand_up : Act ActionResult
  unfolding converge
  force_stand_up = do
    state ← lift (basic_state_now p c)
    let go_on = converge state
    if is_basic force_stand state
        then leave (result true "Robot is already in force stand mode.")
        else go_on
