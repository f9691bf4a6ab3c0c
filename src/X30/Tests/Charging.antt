-- ===== src/X30/Tests/Charging.antt =====
-- A stop of the charging: the charge manager answers after five seconds that it is idle, and the robot
-- leaves the navigation mode after fourteen.
use nav_bridge.Prelude.{
  ℕ, ◌*◌, ◌≡◌, refl, Bool, true, false, Option, none, some, arith, ltb, max, if◌then◌else◌,
}
use mathlib.Core.Path.{subst}
use nav_bridge.Prelude.Exec.{◌>>=◌}
use nav_bridge.X30.Platform.{World, Reading, tick, look, read_clock, sleep_for, send}
use nav_bridge.X30.Control.{
  acquire_control, evaluate_control_pulse, apply_control_actions, warmup_control,
}
use nav_bridge.X30.Executor.{ensure_control_takeover}
use nav_bridge.X30.Manual.{ensure_manual_mode}
use nav_bridge.X30.Bridge.{executor_callbacks}
use nav_bridge.X30.Charge.{
  charge_state_to_string, is_expected_charge_state_for_command, charge_switch,
}
use nav_bridge.X30.Charge.Service.{
  ChargeCommandResult, answered, wait_for_charge_response, switch_to_manual_mode_after_charge,
  accept, responded, with_response, charge_loop, charge_with, execute_charge_command,
}
use nav_bridge.X30.Charge.Service.Reported.{
  IsUntil, IsCounting, Reported, execute_charge_command-Reported,
}
use nav_bridge.X30.Tests.{robot, robot-IsPlatform, trotting, start, calls, calls-IsCallbacks}

abbrev charging : ℕ → Reading
charging t = record (trotting t) { charge_response_seq = if ltb t (5000 * tick) then 0 else 1 }

-- A waiting thread is woken after five seconds, or never.
abbrev woken_at : ℕ → (Reading → Bool) → Option ℕ
woken_at t q = let u = max t (5000 * tick) in if q (charging u) then some u else none

woken_some : (b : Bool) (u v : ℕ) → (if b then some u else none) ≡ some v → (u ≡ v) × (b ≡ true)
woken_some true u v e = (cc e, refl)
woken_some false u v e = absurd (cc e)

woken_at-IsUntil : IsUntil (robot charging) woken_at
woken_at-IsUntil = record {
  until_le = λ t q u e.
      let (same, seen) =
        woken_some (q (charging (max t (5000 * tick)))) (max t (5000 * tick)) u e in
      omega arith;
  until_seen = λ t q u e.
      let (same, seen) =
        woken_some (q (charging (max t (5000 * tick)))) (max t (5000 * tick)) u e in
      subst (λ v. q (charging v) ≡ true) same seen;
}

charging-IsCounting : IsCounting (robot charging)
charging-IsCounting s t le = ground arith

abbrev stopped : Option ChargeCommandResult × World
stopped = execute_charge_command (robot charging) (calls charging) woken_at 1 1 start

stopped_run :
    execute_charge_command (robot charging) (calls charging) woken_at 1 1 start
    ≡ (some (answered true 0 "Charge command accepted."), stopped.1)
unfolding execute_charge_command charge_with charge_switch charge_loop with_response responded
    accept switch_to_manual_mode_after_charge wait_for_charge_response
    is_expected_charge_state_for_command charge_state_to_string ◌>>=◌ look ensure_control_takeover
    executor_callbacks warmup_control read_clock acquire_control sleep_for apply_control_actions
    evaluate_control_pulse send ensure_manual_mode
stopped_run = refl

execute_charge_command-Reported_example :
    Reported (robot charging) 0 1 (answered true 0 "Charge command accepted.") stopped.1
execute_charge_command-Reported_example =
    execute_charge_command-Reported (robot charging) (calls charging) woken_at
      (robot-IsPlatform charging) (calls-IsCallbacks charging) woken_at-IsUntil charging-IsCounting
      1 1 start stopped.1 (answered true 0 "Charge command accepted.") stopped_run refl
