-- ===== src/X30/Control/Forwarding.antt =====
-- src/x30/x30_nav_bridge.cpp: the pulses of control, and the packets of the control timer.
use mathlib.Core.Path.{sym}
use nav_bridge.Prelude.{
  ℕ, ◌-◌, ◌*◌, ◌≤◌, ◌≡◌, ◌⊎◌, inl, inr, refl, Bool, true, false, not, arith, leb, if-elim,
}
use nav_bridge.X30.Axis.{Floats}
use nav_bridge.X30.Platform.{Platform, IsPlatform, Reading, World, tick, read_clock, look, send}
use nav_bridge.X30.Control.{
  Config, Target, acquire_control, release_control_ownership, evaluate_control_pulse, heartbeat_due,
  apply_control_actions, is_cmd_vel_suppressed, is_cmd_vel_forwarding_allowed, send_cmd_vel_tick,
  is_cmd_vel_compatible_state, send_velocity_command, forward_velocity, send_code,
  is_control_input_fresh,
}
use nav_bridge.X30.Control.Warmup.{beat_codes, apply-IsLater, evaluate_step}
use nav_bridge.X30.Executor.Rules.{IsLater, IsLater-refl, IsLater-trans, IsLater-quiet, Saw}

-- After control was released, a pulse is inactive and changes nothing, and the first one after
-- control is acquired again sends a heartbeat and a query, whatever came before.
pub pulse-release :
    (cfg : Config) (now : ℕ) (force : Bool) (w : World)
    → ((evaluate_control_pulse cfg now force (release_control_ownership w).1).0.active ≡ false)
      × ((evaluate_control_pulse cfg now force (release_control_ownership w).1).1
          ≡ (release_control_ownership w).1)
      × ((evaluate_control_pulse cfg now force
            (acquire_control (release_control_ownership w).1)).0.send_heartbeat
          ≡ true)
      × ((evaluate_control_pulse cfg now force
            (acquire_control (release_control_ownership w).1)).0.send_query
          ≡ true)
unfolding evaluate_control_pulse release_control_ownership acquire_control
pulse-release cfg now force w = (refl, refl, ground arith, refl)

-- Of two pulses while control is held, the first forced and the second not, the second sends no
-- query, and it sends a heartbeat just where the interval has passed since the first.
pub pulse-twice :
    (cfg : Config) (now later : ℕ) (w : World)
    → w.control_latched ≡ true
    → ((evaluate_control_pulse cfg later false
          (evaluate_control_pulse cfg now true w).1).0.send_query
        ≡ false)
      × ((evaluate_control_pulse cfg later false
            (evaluate_control_pulse cfg now true w).1).0.send_heartbeat
          ≡ leb (cfg.heartbeat_interval_ms * tick) (later - now))
unfolding evaluate_control_pulse heartbeat_due
pulse-twice cfg now later w e = (rw e refl, rw e refl)

abbrev pub is_compatible : Reading → Bool
is_compatible r = is_cmd_vel_compatible_state r.basic_state r.gait_state

-- Between `w` and `w'` a velocity may be sent.
abbrev pub Allowed : Platform → World → World → Type 0
Allowed p w w' =
    (w.control_latched ≡ true) × (is_cmd_vel_suppressed w ≡ false) × Saw p is_compatible w.now w'

negated : (b : Bool) → not b ≡ false → b ≡ true
negated true e = refl
negated false e = absurd (cc e)

evaluate-active :
    (cfg : Config) (now : ℕ) (w : World)
    → (evaluate_control_pulse cfg now false w).0.active ≡ true
    → w.control_latched ≡ true
unfolding evaluate_control_pulse
evaluate-active cfg now w e = ground arith

suppressed_same :
    {w u : World}
    → IsLater beat_codes w u
    → is_cmd_vel_suppressed u ≡ false
    → is_cmd_vel_suppressed w ≡ false
unfolding is_cmd_vel_suppressed
suppressed_same h e = rw (sym h.suppression) e

module _ (p : Platform) (ip : IsPlatform p) (fl : Floats) (cfg : Config) where
  -- The statements of the tick up to the forwarding.
  pulsed :
      (now : ℕ) (w : World)
      → IsLater beat_codes w (
          apply_control_actions p fl
            (evaluate_control_pulse cfg now false w).0
            (evaluate_control_pulse cfg now false w).1)
  pulsed now w =
      let step = evaluate_step p ip fl cfg now false w in
      IsLater-trans (IsLater-quiet beat_codes w _ (omega (arith, step.1)) step.2)
        (apply-IsLater p ip fl cfg _ _ step.0)

  allowed_now :
      (w : World)
      → (is_cmd_vel_forwarding_allowed p fl cfg w).0 ≡ true
      → (is_cmd_vel_suppressed w ≡ false)
        × ((is_cmd_vel_forwarding_allowed p fl cfg w).1.now ≡ p.after w.now)
        × (is_compatible (p.read w.now) ≡ true)
  unfolding is_cmd_vel_forwarding_allowed look
  allowed_now w =
      if-elim
        (λ (x : Bool × World).
          x.0 ≡ true
          → (is_cmd_vel_suppressed w ≡ false)
            × (x.1.now ≡ p.after w.now)
            × (is_compatible (p.read w.now) ≡ true))
        (is_cmd_vel_suppressed w) _ _ (λ _ e. absurd (cc e)) (λ h e. (h, refl, e))

  refused-IsLater : (w : World) → IsLater beat_codes w (is_cmd_vel_forwarding_allowed p fl cfg w).1
  unfolding is_cmd_vel_forwarding_allowed look
  refused-IsLater w =
      if-elim (λ (x : Bool × World). IsLater beat_codes w x.1) (is_cmd_vel_suppressed w) _ _
        (λ _. IsLater-refl beat_codes w)
        (λ _. IsLater-quiet beat_codes w _ (omega (arith, ip.after_lt w.now)) refl)

  velocity_later :
      (vx vy vyaw : fl.Value) (w : World) → w.now ≤ (send_velocity_command p fl vx vy vyaw w).now
  unfolding send_velocity_command look send_code send
  velocity_later vx vy vyaw w =
      let t1 = p.after w.now in
      let t2 = p.after t1 in
      let t3 = p.after t2 in
      omega (arith, ip.after_lt w.now, ip.after_lt t1, ip.after_lt t2, ip.after_lt t3)

  forward_later :
      (target : Target fl) (now : ℕ) (w : World)
      → w.now ≤ (forward_velocity p fl cfg target now w).now
  unfolding forward_velocity
  forward_later target now w =
      if-elim (λ (u : World). w.now ≤ u.now)
        (is_control_input_fresh p fl cfg now target.last_active_time) _ _
        (λ _. velocity_later target.vx target.vy target.vyaw w)
        (λ _. velocity_later (fl.hundredths 0) (fl.hundredths 0) (fl.hundredths 0) w)

  -- With a platform whose clock moves on with every statement and whose waits and sleeps take
  -- their time: a run of the control timer sends nothing but heartbeats and queries, or else
  -- control is held, no action suppresses /cmd_vel, and during the run the store has held a state
  -- and a gait in which the robot may be driven.
  pub tick-Allowed :
      (target : Target fl) (w : World)
      → IsLater beat_codes w (send_cmd_vel_tick p fl cfg target w).1
        ⊎ Allowed p w (send_cmd_vel_tick p fl cfg target w).1
  unfolding send_cmd_vel_tick read_clock look
  tick-Allowed target w =
      let late = ip.after_lt w.now in
      let later = ip.after_lt (p.after w.now) in
      let latest = ip.after_lt (p.after (p.after w.now)) in
      let w3 : World = record w { now = p.after (p.after (p.after w.now)) } in
      let read : IsLater beat_codes w w3 =
        IsLater-quiet beat_codes w w3 (omega (arith, late, later, latest)) refl in
      let pulse = (evaluate_control_pulse cfg w.now false w3).0 in
      let w4 = apply_control_actions p fl pulse (evaluate_control_pulse cfg w.now false w3).1 in
      let sent : IsLater beat_codes w w4 = IsLater-trans read (pulsed w.now w3) in
      let allowed = is_cmd_vel_forwarding_allowed p fl cfg w4 in
      let Fits = λ (u : World). IsLater beat_codes w u ⊎ Allowed p w u in
      if-elim Fits (not pulse.active) w4 _ (λ _. inl sent)
        λ active.
          if-elim Fits (not allowed.0) _ _ (λ _. inl (IsLater-trans sent (refused-IsLater w4)))
            λ k.
              let (free, time, seen) = allowed_now w4 (negated allowed.0 k) in
              let forwarded = forward_later target w.now allowed.1 in
              inr (
                evaluate-active cfg w.now w3 (negated pulse.active active),
                suppressed_same sent free,
                record {
                  at = w4.now;
                  not_before = sent.not_before;
                  not_after = omega (arith, ip.after_lt w4.now, time, forwarded);
                  seen = seen;
                },
              )
