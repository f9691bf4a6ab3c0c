-- ===== src/Backend.antt =====
-- include/nav_bridge/robot_backend.hpp: what the backends report, and the floating point that they
-- compute with, which is a parameter.
use nav_bridge.Prelude.{ℕ, Bool, true, false, if◌then◌else◌}
use Prim.Native.String.{String}

-- The backends count time in the ticks of the steady clock.
abbrev pub nanoseconds_per_ms : ℕ
nanoseconds_per_ms = 1000000

-- `double`: 0.0, std::isfinite, `<`, unary minus, `==`.
pub record Doubles : Type 1 where
  pub Value : Type 0
  pub nought : Value
  pub minus_one : Value
  pub hundred : Value
  pub is_finite : Value → Bool
  pub lt : Value → Value → Bool
  pub equal : Value → Value → Bool
  pub negate : Value → Value

module _ (d : Doubles) where
  open d use {Value, lt}

  -- `std::clamp`
  abbrev pub clamp : Value → Value → Value → Value
  clamp v low high = if lt v low then low else if lt high v then high else v

pub record BackendResult : Type 0 where
  pub success : Bool
  pub message : String

abbrev pub ok : String → BackendResult
ok m = record { success = true; message = m }

abbrev pub failed : String → BackendResult
failed m = record { success = false; message = m }

pub data BackendMotionState : Type 0 where
  unknown lying_down standing_up standing moving locked estop : BackendMotionState

pub record BackendState (d : Doubles) : Type 0 where
  pub connected : Bool
  pub control_owned : Bool
  pub motion_state : BackendMotionState
  pub mode : ℕ
  pub vx : d.Value
  pub vy : d.Value
  pub vyaw : d.Value
  pub battery_percent : d.Value
