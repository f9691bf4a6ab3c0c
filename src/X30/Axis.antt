-- ===== src/X30/Axis.antt =====
-- The axis values of include/nav_bridge/x30/x30_protocol.hpp: the speed limit of each gait, and
-- the mapping of a velocity to an axis value. Floating point is a parameter.
pub mod Bounds
use nav_bridge.Prelude.{
  ℕ, ◌≤◌, ◌<◌, ◌≡◌, ◌⊎◌, Bool, true, false, Option, none, some, arith, ltb, leb, if◌then◌else◌,
}
use nav_bridge.Prelude.Int.{ℤ, pos, negsuc, abs}
use nav_bridge.X30.Protocol.{
  GaitState, walk, obstacle, slope, run, stair_solid, stair_acc, stair45_acc, l_walk, mountain,
  silent, l_stair, gait_of,
}

-- What the code does with `float` and `double`. `hundredths n` is the literal n / 100;
-- `narrow` is the cast to `float`; `times x n` is the product with the integer n, which is converted
-- to `float`; `truncate` is the cast to `int32_t`.
pub record Floats : Type 1 where
  pub Value : Type 0
  pub hundredths : ℕ → Value
  pub lt : Value → Value → Bool
  pub le : Value → Value → Bool
  pub negate : Value → Value
  pub divide : Value → Value → Value
  pub narrow : Value → Value
  pub times : Value → ℕ → Value
  pub truncate : Value → ℤ

abbrev pub axis_value_max : ℕ
axis_value_max = 32767

abbrev pub axis_dead_zone : ℕ
axis_dead_zone = 655

-- The limits, in hundredths.
pub record GaitSpeedLimit : Type 0 where
  pub max_forward : ℕ
  pub max_backward : ℕ
  pub max_lateral : ℕ
  pub max_yaw : ℕ

abbrev limit : ℕ → ℕ → ℕ → ℕ → GaitSpeedLimit
limit f b l y = record { max_forward = f; max_backward = b; max_lateral = l; max_yaw = y }

gait_limit : Option GaitState → GaitSpeedLimit
gait_limit (some walk) = limit 120 70 75 50
gait_limit (some obstacle) = limit 30 30 15 45
gait_limit (some slope) = limit 30 30 10 50
gait_limit (some stair_solid) = limit 30 30 20 80
gait_limit (some stair_acc) = limit 30 30 20 80
gait_limit (some stair45_acc) = limit 30 30 20 80
gait_limit (some l_walk) = limit 100 100 50 120
gait_limit (some mountain) = limit 100 100 80 120
gait_limit (some run) = limit 60 25 40 50
gait_limit (some silent) = limit 100 100 80 120
gait_limit (some l_stair) = limit 100 100 80 120
gait_limit none = limit 50 30 20 50

unfoldable pub get_gait_speed_limit : ℕ → GaitSpeedLimit
unfolding gait_limit
get_gait_speed_limit gait = gait_limit (gait_of gait)

module _ (fl : Floats) where
  open fl use {Value, hundredths, lt, negate, divide, times, truncate}

  -- The two clamping `if`s, in their order.
  clamp_ratio : Value → Value
  clamp_ratio ratio =
      let upper = if lt (hundredths 100) ratio then hundredths 100 else ratio in
      if lt upper (negate (hundredths 100)) then negate (hundredths 100) else upper

  -- `max_vel <= 0.0f`: a limit of the table is never NaN, so `<=` is the negation of `0.0f <`.
  unfoldable pub velocity_to_axis_value : Value → ℕ → ℤ
  unfolding clamp_ratio
  velocity_to_axis_value velocity max_vel =
      if leb max_vel 0
      then pos 0
      else let raw_val =
          truncate (times (clamp_ratio (divide velocity (hundredths max_vel))) axis_value_max) in
        if ltb (abs raw_val) axis_dead_zone then pos 0 else raw_val
