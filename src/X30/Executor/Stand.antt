-- ===== src/X30/Executor/Stand.antt =====
-- `ActionExecutor::stand`, in the steps that its log numbers.
pub mod Reaches
use nav_bridge.Prelude.{
  ℕ, ◌≡◌, inl, inr, arith, Option-cases, Bool, true, false, ◌&&◌, ◌||◌, Option, none, some, [], ◌∷◌,
  ◌==◌, if◌then◌else◌,
}
use nav_bridge.Prelude.Exec.{pure, lift, act, require, leave, ◌>>=◌, ◌>>◌}
use nav_bridge.Prelude.Text.{to_string}
use nav_bridge.X30.Protocol.{
  lying_down, standing_up, initial_stand, force_stand, stepping, going_down, soft_estop, rl_mode,
  l_walk, mountain, silent, l_stair, gait_code, gait_of, GaitState, cmd_stand_up_down,
  cmd_force_control, cmd_motion, cmd_gait_l_walk, cmd_gait_mountain, cmd_gait_silent,
  cmd_gait_l_stair,
}
use nav_bridge.X30.Store.{is_basic}
use nav_bridge.X30.Platform.{
  Platform, Act, ActionResult, result, wait_for_basic_state, wait_for_state,
}
use nav_bridge.X30.Control.{control_warmup_ms, control_warmup_pulse_ms}
use nav_bridge.X30.Executor.{
  Callbacks, ensure_control_takeover, basic_state_now, gait_state_now, send_single_command_and_wait,
  send_toggle_command_with_retries, single_command_timeout_ms, stand_target_gait_timeout_ms,
  stand_start_motion_timeout_ms, stand_start_motion_resend_ms, stand_transition_ms,
  stand_resend_interval_ms,
}
use Prim.Native.String.{String, ◌++◌}

unfoldable pub is_stand_target_gait : ℕ → Bool
is_stand_target_gait gait =
    gait == gait_code l_walk
    || gait == gait_code mountain
    || gait == gait_code silent
    || gait == gait_code l_stair

-- The command and the name; `none` is the `default` label, which returns false.
unfoldable pub stand_target_gait_command : ℕ → Option (ℕ × String)
stand_target_gait_command gait = elim (gait_of gait) [
  | none ↦ none
  | some l_walk ↦ some (cmd_gait_l_walk, "L_WALK")
  | some mountain ↦ some (cmd_gait_mountain, "MOUNTAIN")
  | some silent ↦ some (cmd_gait_silent, "SILENT")
  | some l_stair ↦ some (cmd_gait_l_stair, "L_STAIR")
  | some other ↦ none
]

-- Every target gait has a command.
pub stand_target_gait_command-total :
    (gait : ℕ)
    → is_stand_target_gait gait ≡ true
    → (command : ℕ) × (name : String) × (stand_target_gait_command gait ≡ some (command, name))
unfolding is_stand_target_gait stand_target_gait_command
stand_target_gait_command-total gait h = elim (Option-cases (stand_target_gait_command gait)) [
  | inl e ↦ ground arith
  | inr (found, e) ↦ (found.0, found.1, e)
]

-- The state that `stand` is to reach.
abbrev pub in_target : ℕ → ℕ → ℕ → Bool
in_target target basic gait = is_basic rl_mode basic && gait == target

abbrev pub bad_target : ActionResult
bad_target =
    result false
      "Stand target gait must be one of L_WALK(32), MOUNTAIN(33), SILENT(34), or L_STAIR(36)."

module _ (p : Platform) (c : Callbacks) where
  -- [0/5] out of a soft stop. The value is the state that the next step tests.
  recover_from_estop : Act ℕ
  recover_from_estop = do
    state ← lift (basic_state_now p c)
    gait ← lift (gait_state_now p c)
    let recover = do
      ok ←
          send_single_command_and_wait p c cmd_stand_up_down (lying_down ∷ [])
            single_command_timeout_ms control_warmup_ms
      require ok (result false "Stand failed: timeout recovering from soft estop.")
      lift (basic_state_now p c)
    if is_basic soft_estop state then recover else pure state

  -- [1/5] up from the ground.
  rise : ℕ → Act Unit
  rise state = do
    let up = do
      responded ←
          send_toggle_command_with_retries p c cmd_stand_up_down
            (standing_up ∷ initial_stand ∷ force_stand ∷ stepping ∷ []) stand_transition_ms
            stand_resend_interval_ms control_warmup_ms
      require responded (result false "Stand failed: no response at step 1 (stand up).")
      risen ← lift (wait_for_basic_state p (initial_stand ∷ force_stand ∷ stepping ∷ []) 6500)
      require risen (result false "Stand failed: timeout at step 1 (stand up).")
    if is_basic lying_down state || is_basic going_down state
        then up
        else require
            (is_basic initial_stand state
              || is_basic force_stand state
              || is_basic stepping state
              || is_basic rl_mode state)
            (result false ("Stand failed: unexpected state=" ++ to_string state))

  -- [2/5] into force control.
  enter_force_stand : Act Unit
  enter_force_stand = do
    state ← lift (basic_state_now p c)
    let switch = do
      ensure_control_takeover p c control_warmup_ms control_warmup_pulse_ms
      act (c.command_sender cmd_force_control)
      forced ← lift (wait_for_basic_state p (force_stand ∷ []) 5000)
      require forced (result false "Stand failed: timeout at step 2 (force stand).")
    if is_basic initial_stand state
        then switch
        else require
            (is_basic force_stand state || is_basic rl_mode state || is_basic stepping state)
            (result false
              ("Stand failed: unexpected state for force stand (state=" ++ to_string state ++ ")."))

  -- [3/4] from force control to stepping.
  start_motion : ℕ → Act Unit
  start_motion state = do
    let start = do
      entered ←
          send_toggle_command_with_retries p c cmd_motion (stepping ∷ [])
            stand_start_motion_timeout_ms stand_start_motion_resend_ms control_warmup_ms
      require entered (result false "Stand failed: timeout entering stepping before target gait.")
      now ← lift (basic_state_now p c)
      gait ← lift (gait_state_now p c)
      pure tt
    if is_basic force_stand state then start else pure tt

  -- [3/4] the gait itself.
  switch_to_target : ℕ → ℕ → String → Act Unit
  unfolding start_motion
  switch_to_target target command name = do
    state ← lift (basic_state_now p c)
    gait ← lift (gait_state_now p c)
    let switch = do
      start_motion state
      ensure_control_takeover p c control_warmup_ms control_warmup_pulse_ms
      act (c.command_sender command)
      ready ← lift (wait_for_state p (in_target target) stand_target_gait_timeout_ms)
      require ready (result false ("Stand failed: timeout waiting for RL_MODE + " ++ name ++ "."))
    if in_target target state gait then pure tt else switch

  stand_with : ℕ → ℕ → String → Act ActionResult
  stand_with target command name = do
    state ← recover_from_estop
    rise state
    enter_force_stand
    switch_to_target target command name
    pure (result true ("Robot is standing in RL mode with " ++ name ++ " gait."))

  begin_stand : ℕ → Option (ℕ × String) → Act ActionResult
  unfolding stand_with
  begin_stand target none = leave bad_target
  begin_stand target (some (command, name)) = stand_with target command name

  unfoldable pub stand : ℕ → Act ActionResult
  unfolding begin_stand recover_from_estop rise enter_force_stand switch_to_target
  stand target =
      begin_stand target
        (if is_stand_target_gait target then stand_target_gait_command target else none)
