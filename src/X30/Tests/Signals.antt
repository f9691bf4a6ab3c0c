-- ===== src/X30/Tests/Signals.antt =====
-- The theorems on the control timer, the axis values and the numbers, at inputs.
use nav_bridge.Prelude.{
  ℕ, ◌+◌, ◌-◌, ◌*◌, ◌/◌, zero, suc, ◌≤◌, ◌≡◌, refl, ◌⊎◌, inr, some, true, false, arith, leb, ap,
  ◌∙◌, Bool, not, ltb→le,
}
use native.Mathlib.Nat.{mul-le-mul_right}
use nav_bridge.Prelude.Int.{ℤ, pos, negsuc, abs}
use nav_bridge.X30.Protocol.{l_walk}
use nav_bridge.X30.Axis.{axis_value_max, axis_dead_zone, velocity_to_axis_value}
use nav_bridge.X30.Axis.Bounds.{IsFloats, velocity_to_axis_value-bound}
use nav_bridge.X30.Platform.{World, tick}
use nav_bridge.X30.Control.{
  acquire_control, release_control_ownership, evaluate_control_pulse, send_cmd_vel_tick, Target,
}
use nav_bridge.X30.Control.Warmup.{beat_codes}
use nav_bridge.X30.Control.Forwarding.{pulse-release, pulse-twice, Allowed, tick-Allowed}
use nav_bridge.X30.Executor.Rules.{IsLater}
use nav_bridge.X30.Gait.{gait_switch}
use nav_bridge.X30.Services.{parse_gait, text}
use nav_bridge.X30.Services.Balance.{parse_gait-name}
use nav_bridge.Prelude.Text.{is_name}
use nav_bridge.X30.Charge.{parse_charge_command, charge_switch}
use nav_bridge.X30.Charge.Commands.{parse_charge_command-known}
use nav_bridge.X30.Tests.{
  robot, robot-IsPlatform, trotting, fixed, fixed_lt, fixed_negate, opposite, scaled, product,
  config, start,
}

abbrev busy : World
busy = record start { control_latched = true; cmd_vel_suppression_depth = 1 }

-- Control is held, and four seconds after the start the robot trots.
abbrev driving : World
driving = record start { now = 4000 * tick; control_latched = true }

abbrev target : Target fixed
target = record { vx = pos 50; vy = pos 0; vyaw = pos 0; last_active_time = some (3900 * tick) }

tick-Allowed_example :
    IsLater beat_codes driving (send_cmd_vel_tick (robot trotting) fixed config target driving).1
    ⊎ Allowed
        (robot trotting)
        driving
        (send_cmd_vel_tick (robot trotting) fixed config target driving).1
tick-Allowed_example =
    tick-Allowed (robot trotting) (robot-IsPlatform trotting) fixed config target driving

pulse-release_example :
    ((evaluate_control_pulse config 7 true (release_control_ownership busy).1).0.active ≡ false)
    × ((evaluate_control_pulse config 7 true (release_control_ownership busy).1).1
        ≡ (release_control_ownership busy).1)
    × ((evaluate_control_pulse config 7 true
          (acquire_control (release_control_ownership busy).1)).0.send_heartbeat
        ≡ true)
    × ((evaluate_control_pulse config 7 true
          (acquire_control (release_control_ownership busy).1)).0.send_query
        ≡ true)
pulse-release_example = pulse-release config 7 true busy

pulse-twice_example :
    ((evaluate_control_pulse config 900 false
        (evaluate_control_pulse config 7 true busy).1).0.send_query
      ≡ false)
    × ((evaluate_control_pulse config 900 false
          (evaluate_control_pulse config 7 true busy).1).0.send_heartbeat
        ≡ leb (300 * tick) (900 - 7))
pulse-twice_example = pulse-twice config 7 900 busy refl

parse_gait-name_example : parse_gait (text (gait_switch l_walk).1) ≡ inr 32
parse_gait-name_example = parse_gait-name l_walk

-- Fixed point has no NaN.
fixed_lt_irrefl : (x : ℤ) → fixed_lt x x ≡ false
fixed_lt_irrefl (pos n) = ground arith
fixed_lt_irrefl (negsuc n) = ground arith

fixed_lt_asym : (x y : ℤ) → fixed_lt x y ≡ true → fixed_lt y x ≡ false
fixed_lt_asym (pos m) (pos n) h = ground arith
fixed_lt_asym (pos m) (negsuc n) h = absurd (cc h)
fixed_lt_asym (negsuc m) (pos n) h = refl
fixed_lt_asym (negsuc m) (negsuc n) h = ground arith

abs-opposite : (n : ℕ) → abs (opposite n) ≡ n
abs-opposite zero = refl
abs-opposite (suc n) = omega arith

pos_above-opposite : (m n : ℕ) → fixed_lt (pos m) (opposite n) ≡ false
pos_above-opposite m zero = ground arith
pos_above-opposite m (suc n) = refl

opposite_above-opposite : (m n : ℕ) → m ≤ n → fixed_lt (opposite m) (opposite n) ≡ false
opposite_above-opposite zero n h = pos_above-opposite 0 n
opposite_above-opposite (suc m) zero h = absurd (omega (arith, h))
opposite_above-opposite (suc m) (suc n) h = ground arith

opposite-below : (k m : ℕ) → fixed_lt (negsuc k) (opposite m) ≡ false → suc k ≤ m
opposite-below k zero h = absurd (cc h)
opposite-below k (suc m) h = ground arith

scaled-opposite : (k : ℕ) → scaled 1 100 (opposite k) ≡ opposite (k * 1 / 100)
scaled-opposite zero = refl
scaled-opposite (suc k) = ap opposite (omega arith)

product_monotone :
    (x y : ℤ) (n : ℕ) → fixed_lt y x ≡ false → fixed_lt (product y n) (product x n) ≡ false
product_monotone (pos a) (pos b) n h = let le = mul-le-mul_right n (ltb→le b a h) in ground arith
product_monotone (pos a) (negsuc b) n h = absurd (cc h)
product_monotone (negsuc a) (pos b) n h = pos_above-opposite (b * n) ((a + 1) * n)
product_monotone (negsuc a) (negsuc b) n h =
    opposite_above-opposite ((b + 1) * n) ((a + 1) * n)
      (mul-le-mul_right n (omega (arith, ltb→le a b h)))

truncate_bound :
    (x : ℤ) (n : ℕ)
    → fixed_lt x (opposite (n * 100)) ≡ false
    → fixed_lt (pos (n * 100)) x ≡ false
    → abs (scaled 1 100 x) ≤ n
truncate_bound (pos k) n low high = let h = ltb→le _ _ high in omega arith
truncate_bound (negsuc k) n low high =
    let h = opposite-below k (n * 100) low in
    let e = abs-opposite ((k + 1) * 1 / 100) in omega arith

denied : (b : Bool) → not b ≡ true → b ≡ false
denied true e = absurd (cc e)
denied false e = refl

fixed-IsFloats : IsFloats fixed
fixed-IsFloats = record {
  le_refl = λ n. cc (fixed_lt_irrefl (pos n));
  negate_le = λ x e. cc (fixed_lt_irrefl (fixed_negate x));
  le_total = λ x y e f h. cc h;
  lt_asym = fixed_lt_asym;
  negate_one_below = refl;
  times_le = λ x y n h k e. cc (product_monotone x y n (denied _ e));
  one_times = λ n h. ap pos (omega arith);
  minus_one_times = λ n h. ap opposite (omega arith);
  truncate_bound = λ x n h low high. truncate_bound x n (denied _ low) (denied _ high);
  truncate_positive = λ n h. ap pos (omega arith);
  truncate_negative = λ n h.
      let e : suc n * 100 * 1 / 100 ≡ suc n = omega arith in
      scaled-opposite (suc n * 100) ∙ ap opposite e;
}

-- 3 m/s forward, where 1.2 m/s is the limit.
velocity_to_axis_value-bound_example :
    (let a = velocity_to_axis_value fixed (pos 300) 120 in
      (abs a ≤ axis_value_max)
      × ((abs a ≡ 0) ⊎ (axis_dead_zone ≤ abs a))
      × ((fixed_lt (pos 100) (pos 250) ≡ false) ⊎ (a ≡ pos 32767))
      × ((fixed_lt (pos 100) (pos 250) ≡ true)
          ⊎ ((fixed_lt (pos 250) (negsuc 99) ≡ false) ⊎ (a ≡ negsuc 32766))))
velocity_to_axis_value-bound_example =
    velocity_to_axis_value-bound fixed fixed-IsFloats (pos 300) 120 (omega arith) refl

parsed_stop : parse_charge_command (text "Undock_Stop") ≡ inr 5
unfolding parse_charge_command is_name
parsed_stop = refl

parse_charge_command-known_example : (head : ℕ × ℤ) × (charge_switch 5 ≡ some head)
parse_charge_command-known_example = parse_charge_command-known (text "Undock_Stop") 5 parsed_stop
