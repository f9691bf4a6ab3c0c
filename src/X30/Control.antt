-- ===== src/X30/Control.antt =====
-- src/x30/x30_nav_bridge.cpp: control ownership, the heartbeat, the warm-up before a command, and
-- the forwarding of /cmd_vel by the control timer.
pub mod Warmup
pub mod Forwarding
use nav_bridge.Prelude.{
  ℕ, zero, suc, ◌+◌, ◌-◌, ◌*◌, ◌/◌, min, Bool, true, false, not, ◌&&◌, ◌||◌, Option, none, some,
  ltb, leb, ◌==◌, if◌then◌else◌,
}
use nav_bridge.Prelude.Int.{ℤ, pos}
use nav_bridge.Prelude.Exec.{pure, starve, lift, act, ◌>>=◌, ◌>>◌}
use nav_bridge.X30.Protocol.{
  GaitState, l_walk, mountain, silent, l_stair, walk, slope, stepping, rl_mode, gait_code, gait_of,
  cmd_heartbeat, cmd_query_103, cmd_vel_forward, cmd_vel_lateral, cmd_vel_yaw, make_simple_command,
}
use nav_bridge.X30.Axis.{Floats, GaitSpeedLimit, get_gait_speed_limit, velocity_to_axis_value}
use nav_bridge.X30.Store.{is_basic}
use nav_bridge.X30.Platform.{
  Platform, Reading, World, Act, Link, motion, tick, read_clock, look, sleep_for, send,
}

-- The node's parameters that the handlers read.
pub record Config : Type 0 where
  pub heartbeat_interval_ms : ℕ
  pub cmd_vel_timeout_ms : ℕ
  pub stand_target_gait : ℕ

abbrev pub control_warmup_ms : ℕ
control_warmup_ms = 400

abbrev pub control_warmup_pulse_ms : ℕ
control_warmup_pulse_ms = 100

pub record ControlPulse : Type 0 where
  pub session_started : Bool
  pub session_stopped : Bool
  pub send_heartbeat : Bool
  pub send_query : Bool
  pub send_zero_velocity : Bool
  pub active : Bool

abbrev no_pulse : ControlPulse
no_pulse = record {
  session_started = false;
  session_stopped = false;
  send_heartbeat = false;
  send_query = false;
  send_zero_velocity = false;
  active = false;
}

unfoldable pub acquire_control : World → World
acquire_control w = record w { control_latched = true }

-- The result says whether there was anything to release.
unfoldable pub release_control_ownership : World → Bool × World
release_control_ownership w = (
  w.control_latched || w.control_session_started,
  record w {
    control_latched = false;
    control_session_started = false;
    control_query_sent = false;
    last_heartbeat_sent = none;
  },
)

unfoldable pub enter_cmd_vel_suppression : World → World
enter_cmd_vel_suppression w = record w {
  cmd_vel_suppression_depth = w.cmd_vel_suppression_depth + 1;
}

-- `fetch_sub`; an underflow is stored back as 0, which is what `-` gives.
unfoldable pub exit_cmd_vel_suppression : World → World
exit_cmd_vel_suppression w = record w {
  cmd_vel_suppression_depth = w.cmd_vel_suppression_depth - 1;
}

unfoldable pub is_cmd_vel_suppressed : World → Bool
is_cmd_vel_suppressed w = ltb 0 w.cmd_vel_suppression_depth

unfoldable pub is_supported_navigation_gait : ℕ → Bool
is_supported_navigation_gait gait = elim (gait_of gait) [ none ↦ false | some g ↦ true ]

unfoldable pub is_crawl_compatible_gait : ℕ → Bool
is_crawl_compatible_gait gait = gait == gait_code walk || gait == gait_code slope

-- The lambda `is_rl_gait`, which the code writes out in three places.
unfoldable pub is_rl_gait : ℕ → Bool
is_rl_gait g =
    g == gait_code l_walk
    || g == gait_code mountain
    || g == gait_code silent
    || g == gait_code l_stair

unfoldable pub is_body_height_switch_allowed_gait : ℕ → Bool
is_body_height_switch_allowed_gait gait =
    not (gait == gait_code l_walk)
    && not (gait == gait_code mountain)
    && not (gait == gait_code silent)
    && not (gait == gait_code l_stair)

unfoldable pub is_cmd_vel_compatible_state : ℕ → ℕ → Bool
unfolding is_supported_navigation_gait is_rl_gait
is_cmd_vel_compatible_state basic gait =
    if is_basic stepping basic && is_supported_navigation_gait gait
    then true
    else is_basic rl_mode basic && is_rl_gait gait

-- Whether a heartbeat is due.
heartbeat_due : Config → ℕ → Option ℕ → Bool
heartbeat_due cfg now none = true
heartbeat_due cfg now (some last) = leb (cfg.heartbeat_interval_ms * tick) (now - last)

unfoldable pub evaluate_control_pulse : Config → ℕ → Bool → World → ControlPulse × World
unfolding heartbeat_due
evaluate_control_pulse cfg now force w =
    let started = not w.control_session_started in
    let beat = force || started || heartbeat_due cfg now w.last_heartbeat_sent in
    let query = not w.control_query_sent in
    if not w.control_latched then (no_pulse, w) else (
      record no_pulse {
        session_started = started;
        send_heartbeat = beat;
        send_query = query;
        active = true;
      },
      record w {
        control_session_started = true;
        last_heartbeat_sent = if beat then some now else w.last_heartbeat_sent;
        control_query_sent = true;
      },
    )

-- The velocities of /cmd_vel and when they came; `none` is `time_point::min()`.
pub record Target (fl : Floats) : Type 0 where
  pub vx : fl.Value
  pub vy : fl.Value
  pub vyaw : fl.Value
  pub last_active_time : Option ℕ

module _ (p : Platform) where
  -- `motion_udp_.send` of a simple command, its result dropped.
  unfoldable pub send_code : ℕ → ℤ → World → World
  send_code code value w = (send p motion (make_simple_command code value) w).1

  unfoldable pub send_gait_command : ℕ → World → World
  unfolding send_code
  send_gait_command code = send_code code (pos 0)

  module _ (fl : Floats) where
    open fl use {Value, hundredths, le, negate, narrow}

    unfoldable pub send_velocity_command : Value → Value → Value → World → World
    unfolding send_code
    send_velocity_command vx vy vyaw w =
        let (gait, w1) = look p (λ r. r.gait_state) w in
        let limits = get_gait_speed_limit gait in
        let max_vx = if le (hundredths 0) vx then limits.max_forward else limits.max_backward in
        let raw_vx = velocity_to_axis_value fl (narrow vx) max_vx in
        let raw_vy = velocity_to_axis_value fl (narrow (negate vy)) limits.max_lateral in
        let raw_vyaw = velocity_to_axis_value fl (narrow (negate vyaw)) limits.max_yaw in
        let w2 = send_code cmd_vel_forward raw_vx w1 in
        let w3 = send_code cmd_vel_lateral raw_vy w2 in send_code cmd_vel_yaw raw_vyaw w3

    unfoldable pub apply_control_actions : ControlPulse → World → World
    unfolding send_code
    apply_control_actions a w =
        let w1 = if a.send_heartbeat then send_code cmd_heartbeat (pos 0) w else w in
        let w2 = if a.send_query then send_code cmd_query_103 (pos 0) w1 else w1 in
        if a.send_zero_velocity
        then send_velocity_command (hundredths 0) (hundredths 0) (hundredths 0) w2
        else w2

    module _ (cfg : Config) where
      -- One round of the loop of `warmupControl`; `again` is the rounds that follow.
      warmup_round : ℕ → ℕ → Act Unit → Act Unit
      warmup_round deadline pulse_ms again = do
        now ← lift (read_clock p)
        pulse ← lift (evaluate_control_pulse cfg now true)
        act (apply_control_actions pulse)
        let sleep_ms = min pulse_ms ((deadline - now) / tick)
        let rest = do if ltb 0 sleep_ms then act (sleep_for p sleep_ms) else pure tt; again
        if leb deadline now then pure tt else rest

      warmup_loop : ℕ → ℕ → ℕ → Act Unit
      warmup_loop zero deadline pulse_ms = starve
      warmup_loop (suc fuel) deadline pulse_ms =
          let again = warmup_loop fuel deadline pulse_ms in warmup_round deadline pulse_ms again

      unfoldable pub warmup_control : ℕ → ℕ → Act Unit
      unfolding warmup_loop warmup_round
      warmup_control warmup_ms pulse_ms = do
        act acquire_control
        start ← lift (read_clock p)
        warmup_loop (warmup_ms * tick + 1) (start + warmup_ms * tick) pulse_ms

      unfoldable pub is_control_input_fresh : ℕ → Option ℕ → Bool
      is_control_input_fresh now none = false
      is_control_input_fresh now (some last) = ltb (now - last) (cfg.cmd_vel_timeout_ms * tick)

      unfoldable pub is_cmd_vel_forwarding_allowed : World → Bool × World
      unfolding is_cmd_vel_suppressed is_cmd_vel_compatible_state
      is_cmd_vel_forwarding_allowed w =
          if is_cmd_vel_suppressed w
          then (false, w)
          else look p (λ r. is_cmd_vel_compatible_state r.basic_state r.gait_state) w

      -- The forwarding at the end of `sendCmdVelTick`.
      forward_velocity : Target fl → ℕ → World → World
      unfolding is_control_input_fresh
      forward_velocity target now w =
          if is_control_input_fresh now target.last_active_time
          then send_velocity_command target.vx target.vy target.vyaw w
          else send_velocity_command (hundredths 0) (hundredths 0) (hundredths 0) w

      -- The control timer. The flag says that the connection was found lost, on which the code
      -- writes `connected = false` to the store.
      unfoldable pub send_cmd_vel_tick : Target fl → World → Bool × World
      unfolding forward_velocity
      send_cmd_vel_tick target w =
          let (now, w1) = read_clock p w in
          let (last_recv, w1') = look p (λ r. r.last_receive_time) w1 in
          let (connected, w2) = look p (λ r. r.connected) w1' in
          let lost = connected && ltb 2000 ((now - last_recv) / tick) in
          let (pulse, w3) = evaluate_control_pulse cfg now false w2 in
          let w4 = apply_control_actions pulse w3 in
          let (allowed, w5) = is_cmd_vel_forwarding_allowed w4 in
          (
            lost,
            if not pulse.active
                then w4
                else if not allowed
                then w5
                else forward_velocity target now w5,
          )
