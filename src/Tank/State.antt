-- ===== src/Tank/State.antt =====
-- src/tank/tank_backend.cpp: the state that the threads share, and the sections of code that hold
-- its mutex. A section is one step; it sees one instant of the clock, in nanoseconds.
pub mod Sections
pub mod Commands
pub mod Failures
use nav_bridge.Prelude.{
  ℕ, suc, ◌+◌, ◌-◌, ◌*◌, Bool, true, false, not, ◌&&◌, ◌||◌, Option, none, some, List, [], ◌∷◌,
  ◌++◌, ltb, leb, ◌==◌, if◌then◌else◌,
}
use nav_bridge.Backend.{
  Doubles, clamp, BackendResult, ok, failed, BackendMotionState, unknown, standing, moving, locked,
  estop, BackendState,
}
use Prim.Native.String.{String}

-- Milliseconds in the ticks of the clock.
abbrev pub tick : ℕ
tick = 1000000

pub record Options (d : Doubles) : Type 0 where
  pub enable_motion_output : Bool
  pub startup_acquire_control : Bool
  pub max_linear_speed : d.Value
  pub max_angular_speed : d.Value
  pub cmd_vel_timeout_ms : ℕ
  pub telemetry_timeout_ms : ℕ
  pub move_failure_limit : ℕ
  pub state_failure_limit : ℕ
  pub move_failure_timeout_ms : ℕ

-- `Impl`. The epoch (`uint64_t`) is taken not to wrap around, as the code takes it. A time of `none`
-- is `time_point{}`. The durations that are only reported are kept in ticks.
pub record Tank (d : Doubles) : Type 0 where
  pub running : Bool
  pub epoch : ℕ
  pub cached : BackendState d
  pub want_control : Bool
  pub local_estop : Bool
  pub brake : Bool
  pub brake_known : Bool
  pub initialized : Bool
  pub initialized_known : Bool
  pub operation : String
  pub last_error : String
  pub vx : d.Value
  pub wz : d.Value
  pub command_time : Option ℕ
  pub telemetry_time : ℕ
  pub move_failures : ℕ
  pub last_move_interval : ℕ
  pub last_request : ℕ
  pub consecutive_move_failures : ℕ
  pub consecutive_state_failures : ℕ
  pub last_move_ack_time : ℕ
  pub move_starts : List ℕ
  pub last_move_error : String
  pub last_state_error : String
  pub last_battery_error : String
  pub raw_velocity_time : Option ℕ
  pub raw_velocity_valid : Bool
  pub last_raw_velocity_error : String

-- The leading entries that the test holds of are dropped.
abbrev pub drop_old : (ℕ → Bool) → List ℕ → List ℕ
drop_old old [] = []
drop_old old (x ∷ xs) = if old x then drop_old old xs else x ∷ xs

module _ (d : Doubles) (o : Options d) where
  open d use {Value, nought, minus_one, is_finite, equal, negate}

  -- The members' initializers, and `want_control` as the constructor sets it.
  abbrev pub initial : Tank d
  initial = record {
    running = false;
    epoch = 0;
    cached = record {
      connected = false;
      control_owned = false;
      motion_state = unknown;
      mode = 0;
      vx = nought;
      vy = nought;
      vyaw = nought;
      battery_percent = minus_one;
    };
    want_control = o.startup_acquire_control;
    local_estop = false;
    brake = false;
    brake_known = false;
    initialized = false;
    initialized_known = false;
    operation = "";
    last_error = "";
    vx = nought;
    wz = nought;
    command_time = none;
    telemetry_time = 0;
    move_failures = 0;
    last_move_interval = 0;
    last_request = 0;
    consecutive_move_failures = 0;
    consecutive_state_failures = 0;
    last_move_ack_time = 0;
    move_starts = [];
    last_move_error = "";
    last_state_error = "";
    last_battery_error = "";
    raw_velocity_time = none;
    raw_velocity_valid = false;
    last_raw_velocity_error = "";
  }

  abbrev pub clear_command : Tank d → Tank d
  clear_command t = record t {
    vx = nought;
    wz = nought;
    cached = record t.cached { vx = nought; vy = nought; vyaw = nought };
    command_time = none;
  }

  -- The section of `inhibit`; the ticket is the new epoch.
  abbrev pub inhibit : Bool → Tank d → Tank d
  inhibit emergency t =
      let stopped = t.local_estop || emergency in
      clear_command (record t {
        epoch = suc t.epoch;
        want_control = false;
        local_estop = stopped;
        cached = record t.cached {
          control_owned = false;
          motion_state = if stopped then estop else locked;
        };
      })

  -- The section of `linkFailed`, which does nothing for an old ticket.
  abbrev pub link_failed : ℕ → Tank d → Tank d
  link_failed ticket t =
      if not (ticket == t.epoch)
      then t
      else (let cut = clear_command (record t {
        brake_known = false;
        cached = record t.cached {
          connected = false;
          control_owned = false;
          battery_percent = minus_one;
          motion_state = if t.local_estop then estop else unknown;
        };
      }) in
          record cut { epoch = suc t.epoch })

  -- The section at the end of `prepare`; the value says whether the preparation was in time.
  abbrev pub prepared : Bool → ℕ → String → Bool → ℕ → Tank d → Bool × Tank d
  prepared explicit_ready ticket device_state device_brake now t =
      let want = t.want_control || explicit_ready in
      let stopped = t.local_estop && not explicit_ready in
      let owned = o.enable_motion_output && want && not device_brake && not stopped in
      let state = if device_brake || stopped then estop else if owned then standing else locked in
      if not t.running || not (ticket == t.epoch) then (false, t) else (
        true,
        clear_command (record t {
          operation = device_state;
          brake = device_brake;
          brake_known = true;
          local_estop = stopped;
          want_control = want;
          cached = record t.cached {
            connected = true;
            control_owned = owned;
            motion_state = state;
          };
          telemetry_time = now;
          last_error = "";
          consecutive_move_failures = 0;
          consecutive_state_failures = 0;
          last_move_error = "";
          last_state_error = "";
          last_move_ack_time = now;
        }),
      )

  -- `TankBackend::move`
  abbrev pub move : Value → Value → Value → ℕ → Tank d → BackendResult × Tank d
  move x y yaw now t =
      if not (is_finite x) || not (is_finite y) || not (is_finite yaw)
      then (failed "TANK rejected non-finite velocity; previous command cleared", clear_command t)
      else if not t.running
          || not t.cached.connected
          || not t.cached.control_owned
          || t.local_estop
          || t.brake
      then (failed "TANK motion inhibited; call ready/stand before sending fresh cmd_vel", t)
      else (
        ok "TANK latest velocity cached (lateral velocity ignored)",
        record t {
          vx = clamp d x (negate o.max_linear_speed) o.max_linear_speed;
          wz = clamp d yaw (negate o.max_angular_speed) o.max_angular_speed;
          command_time = some now;
        },
      )

  -- `reportError`; the callback is not followed.
  abbrev pub report_error : String → Tank d → Tank d
  report_error message t = record t { last_error = message }

  -- What a round of the control loop reads under the mutex.
  pub record ControlView : Type 0 where
    pub ticket : ℕ
    pub active : Bool
    pub stale : Bool
    pub ack_expired : Bool
    pub linear : Value
    pub angular : Value

  abbrev pub is_fresh : ℕ → Option ℕ → Bool
  is_fresh now none = false
  is_fresh now (some at) = leb (now - at) (o.cmd_vel_timeout_ms * tick)

  abbrev pub control_view : ℕ → Tank d → ControlView
  control_view now t =
      let active =
        t.running
        && o.enable_motion_output
        && t.cached.connected
        && t.cached.control_owned
        && not t.local_estop
        && not t.brake in
      let fresh = is_fresh now t.command_time in
      record {
        ticket = t.epoch;
        active = active;
        stale = active && ltb (o.telemetry_timeout_ms * tick) (now - t.telemetry_time);
        ack_expired =
            active
            && ltb 0 t.consecutive_move_failures
            && leb (o.move_failure_timeout_ms * tick) (now - t.last_move_ack_time);
        linear = if fresh then t.vx else nought;
        angular = if fresh then t.wz else nought;
      }

  -- The samples of the last five seconds.
  abbrev pub move_started : ℕ → Tank d → Tank d
  move_started started t = record t {
    move_starts =
        drop_old (λ at. ltb (5000 * tick) (started - at)) (t.move_starts ++ (started ∷ []));
  }

  -- The section after a move; the value says whether the link is given up.
  abbrev pub move_answered :
      ControlView → ℕ → Option ℕ → BackendResult → Bool → ℕ → Tank d → Bool × Tank d
  move_answered view started previous answer transport_failure now t =
      let timed : Tank d = record t {
        last_request = now - started;
        last_move_interval = elim previous [ none ↦ t.last_move_interval | some at ↦ started - at ];
        move_failures = if answer.success then t.move_failures else suc t.move_failures;
      } in
      let current = view.ticket == t.epoch && t.cached.control_owned in
      let failures = suc t.consecutive_move_failures in
      let still = equal view.linear nought && equal view.angular nought in
      if not current
      then (false, timed)
      else if answer.success
      then (
        false,
        record timed {
          consecutive_move_failures = 0;
          last_move_error = "";
          last_move_ack_time = now;
          cached = record t.cached {
            vx = view.linear;
            vyaw = view.angular;
            motion_state = if still then standing else moving;
          };
        },
      )
      else (
        not transport_failure
            || leb o.move_failure_limit failures
            || leb (o.move_failure_timeout_ms * tick) (now - t.last_move_ack_time),
        (let cleared = clear_command (record timed {
          consecutive_move_failures = failures;
          last_move_error = answer.message;
        }) in
            record cleared { cached = record cleared.cached { motion_state = unknown } }),
      )

  -- A failed poll of the state: counted, and is the link given up?
  abbrev pub poll_failed : String → Bool → ℕ → Tank d → Bool × Tank d
  poll_failed message transport_failure now t =
      let failures = suc t.consecutive_state_failures in
      (
        not transport_failure
            || leb o.state_failure_limit failures
            || leb (o.telemetry_timeout_ms * tick) (now - t.telemetry_time),
        record t { consecutive_state_failures = failures; last_state_error = message },
      )

  -- A poll of the state that was answered.
  abbrev pub polled : ℕ → String → Bool → Bool → ℕ → Tank d → Tank d
  polled ticket device_state is_idle device_brake now t =
      let seen : Tank d = record t {
        operation = device_state;
        brake = device_brake;
        brake_known = true;
        telemetry_time = now;
        consecutive_state_failures = 0;
        last_state_error = "";
      } in
      if not (ticket == t.epoch)
      then t
      else if device_brake || not is_idle
      then clear_command (record seen {
        want_control = false;
        cached = record t.cached {
          control_owned = false;
          motion_state = if device_brake then estop else locked;
        };
      })
      else seen

  abbrev pub battery_polled : ℕ → Value → String → Tank d → Tank d
  battery_polled ticket percentage error t =
      if ticket == t.epoch && t.cached.connected
      then record t {
        cached = record t.cached { battery_percent = percentage };
        last_battery_error = error;
      }
      else t

  abbrev pub raw_velocity_polled : BackendResult → ℕ → Tank d → Tank d
  raw_velocity_polled result now t = record t {
    raw_velocity_valid = result.success;
    last_raw_velocity_error = if result.success then "" else result.message;
    raw_velocity_time = if result.success then some now else t.raw_velocity_time;
  }
