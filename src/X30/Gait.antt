-- ===== src/X30/Gait.antt =====
-- src/x30/x30_nav_bridge.cpp: `setNavigationGait`. Its warm-ups and its commands are those that the
-- bridge hands to the executor, so they are taken from the same record.
pub mod Loop
pub mod Reaches
use nav_bridge.Prelude.{
  ℕ, zero, suc, ◌+◌, ◌-◌, ◌*◌, ◌/◌, min, Bool, true, false, not, ◌&&◌, ◌||◌, Option, none, some, [],
  ◌∷◌, leb, ◌==◌, if◌then◌else◌,
}
use nav_bridge.Prelude.Exec.{pure, starve, lift, act, require, leave, ◌>>=◌, ◌>>◌}
use nav_bridge.X30.Protocol.{
  force_stand, stepping, rl_mode, GaitState, walk, obstacle, slope, run, stair_solid, stair_acc,
  stair45_acc, l_walk, mountain, silent, l_stair, gait_code, gait_of, crawl, height_code,
  cmd_motion, cmd_gait_walk, cmd_gait_slope, cmd_gait_obstacle, cmd_gait_stair, cmd_gait_stair_acc,
  cmd_gait_stair45_acc, cmd_gait_mountain, cmd_gait_l_walk, cmd_gait_silent, cmd_gait_l_stair,
  cmd_gait_run,
}
use nav_bridge.X30.Store.{Store, is_basic}
use nav_bridge.X30.Platform.{
  Platform, Act, ActionResult, result, refuse, tick, read_clock, look, wait_for_basic_state,
  wait_for_gait_state, wait_for_state,
}
use nav_bridge.X30.Control.{
  control_warmup_ms, control_warmup_pulse_ms, is_supported_navigation_gait,
  is_crawl_compatible_gait, is_rl_gait,
}
use nav_bridge.X30.Executor.{Callbacks, ensure_control_takeover}
use Prim.Native.String.{String, ◌++◌}

abbrev pub gait_switch_timeout_ms : ℕ
gait_switch_timeout_ms = 8000

abbrev pub non_rl_gait_switch_timeout_ms : ℕ
non_rl_gait_switch_timeout_ms = 12000

abbrev pub cmd_vel_state_wait_ms : ℕ
cmd_vel_state_wait_ms = 4000

abbrev pub motion_start_retry_ms : ℕ
motion_start_retry_ms = 1500

-- The `switch` over the gait: its command and its name.
abbrev pub gait_switch : GaitState → ℕ × String
gait_switch walk = (cmd_gait_walk, "WALK")
gait_switch obstacle = (cmd_gait_obstacle, "OBSTACLE")
gait_switch slope = (cmd_gait_slope, "SLOPE")
gait_switch run = (cmd_gait_run, "RUN")
gait_switch stair_solid = (cmd_gait_stair, "STAIR_SOLID")
gait_switch stair_acc = (cmd_gait_stair_acc, "STAIR_ACC")
gait_switch stair45_acc = (cmd_gait_stair45_acc, "STAIR45_ACC")
gait_switch l_walk = (cmd_gait_l_walk, "L_WALK")
gait_switch mountain = (cmd_gait_mountain, "MOUNTAIN")
gait_switch silent = (cmd_gait_silent, "SILENT")
gait_switch l_stair = (cmd_gait_l_stair, "L_STAIR")

abbrev pub expected_basic_state : ℕ → ℕ → Bool
expected_basic_state gait basic =
    if is_rl_gait gait then is_basic rl_mode basic else is_basic stepping basic

-- The guards on the snapshot, in their order: the message of the first that refuses.
gait_refusal : ℕ → Store → Option String
gait_refusal gait s =
    if not s.connected
    then some "Robot is not connected."
    else if s.body_height_state == height_code crawl && not (is_crawl_compatible_gait gait)
    then some "只有「行走WALK」和「斜坡SLOPE」模式允许机身高度为「匍匐CRAWL」。"
    else if not (is_basic rl_mode s.basic_state)
        && not (is_basic stepping s.basic_state)
        && not (is_basic force_stand s.basic_state)
    then some "Gait switching is only allowed in RL_MODE, STEPPING, or FORCE_STAND."
    else none

module _ (p : Platform) (c : Callbacks) where
  -- One round of a loop that starts the motion: `arrived` is what it is to reach, `await` its wait,
  -- and `again` the rounds that follow. Both loops of the source have this form.
  motion_round : ℕ → (ℕ → ℕ → Bool) → (ℕ → Act Bool) → Act Bool → Act Bool
  motion_round deadline arrived await again = do
    start ← lift (read_clock p)
    let round = do
      snap ← lift (look p (λ r. r.store))
      let push = do
        let command = act (c.command_sender cmd_motion)
        if is_basic force_stand snap.basic_state then command else pure tt
        now ← lift (read_clock p)
        let remaining = (deadline - now) / tick
        let wait = do
          answered ← await (min motion_start_retry_ms remaining)
          if answered then pure true else again
        if leb remaining 0 then pure false else wait
      if arrived snap.basic_state snap.gait_state then pure true else push
    if leb deadline start then pure false else round

  motion_loop : ℕ → ℕ → (ℕ → ℕ → Bool) → (ℕ → Act Bool) → Act Bool
  motion_loop zero deadline arrived await = starve
  motion_loop (suc fuel) deadline arrived await =
      let again = motion_loop fuel deadline arrived await in
      motion_round deadline arrived await again

  pub start_motion_until : (ℕ → ℕ → Bool) → (ℕ → Act Bool) → Act Bool
  unfolding motion_loop motion_round
  start_motion_until arrived await = do
    start ← lift (read_clock p)
    motion_loop (cmd_vel_state_wait_ms + 2) (start + cmd_vel_state_wait_ms * tick) arrived await

  await_stepping : ℕ → Act Bool
  await_stepping d = lift (wait_for_basic_state p (stepping ∷ []) d)

  abbrev target_stepping : ℕ → ℕ → ℕ → Bool
  target_stepping gait basic g = is_basic stepping basic && g == gait

  -- From force stand, the motion is started first.
  from_force_stand : ℕ → String → Act Unit
  unfolding start_motion_until await_stepping
  from_force_stand gait name = do
    entered ← start_motion_until (λ basic g. is_basic stepping basic) await_stepping
    require entered
        (result false ("Failed to start motion from FORCE_STAND for gait " ++ name ++ "."))
    snap ← lift (look p (λ r. r.store))
    let done = leave (result true ("Navigation gait switched to " ++ name ++ "."))
    if not (is_rl_gait gait) && snap.gait_state == gait then done else pure tt

  await_rl : ℕ → String → Act Unit
  await_rl gait name = do
    reached ←
        lift
          (wait_for_state p (λ basic g. is_basic rl_mode basic && g == gait) gait_switch_timeout_ms)
    require reached (result false ("Timeout waiting for RL_MODE + " ++ name ++ "."))

  await_non_rl : ℕ → GaitState → String → Act Unit
  unfolding start_motion_until
  await_non_rl gait g name = do
    seen ← lift (wait_for_gait_state p (g ∷ []) non_rl_gait_switch_timeout_ms)
    require seen (result false ("Timeout waiting for gait state: " ++ name ++ "."))
    entered ←
        start_motion_until (target_stepping gait)
          (λ d. lift (wait_for_state p (target_stepping gait) d))
    require entered (
        result false ("Gait switched to " ++ name ++ ", but robot did not enter STEPPING in time."))

  switch_gait : ℕ → GaitState → Bool → Act ActionResult
  unfolding from_force_stand await_rl await_non_rl
  switch_gait gait g starts_from_force_stand = do
    let command = (gait_switch g).0
    let name = (gait_switch g).1
    ensure_control_takeover p c control_warmup_ms control_warmup_pulse_ms
    if starts_from_force_stand then from_force_stand gait name else pure tt
    act (c.command_sender command)
    if is_rl_gait gait then await_rl gait name else await_non_rl gait g name
    pure (result true ("Navigation gait switched to " ++ name ++ "."))

  -- The guards, for a gait that the switch knows.
  guarded_switch : ℕ → GaitState → Store → Act ActionResult
  unfolding gait_refusal switch_gait
  guarded_switch gait g snapshot = do
    refuse (gait_refusal gait snapshot)
    if snapshot.gait_state == gait && expected_basic_state gait snapshot.basic_state
        then leave (result true "Robot is already in the requested navigation gait.")
        else switch_gait gait g (is_basic force_stand snapshot.basic_state)

  -- `isSupportedNavigationGait` and the `switch` know the same gaits.
  begin_gait : ℕ → Option GaitState → Act ActionResult
  unfolding guarded_switch
  begin_gait gait none = leave (result false "Unsupported navigation gait.")
  begin_gait gait (some g) = do
    snapshot ← lift (look p (λ r. r.store))
    guarded_switch gait g snapshot

  unfoldable pub set_navigation_gait : ℕ → Act ActionResult
  unfolding begin_gait
  set_navigation_gait gait = begin_gait gait (gait_of gait)
