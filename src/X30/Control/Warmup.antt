-- ===== src/X30/Control/Warmup.antt =====
-- src/x30/x30_nav_bridge.cpp: runs of `warmupControl`, and the packets that it sends.
use mathlib.Core.Path.{subst, sym}
use nav_bridge.Prelude.{
  ℕ, zero, suc, ◌+◌, ◌-◌, ◌*◌, ◌/◌, ◌≤◌, ◌<◌, ◌≡◌, refl, min, Bool, true, false, List, [], ◌∷◌,
  arith, ltb, leb, leb→lt, if◌then◌else◌,
}
use nav_bridge.Prelude.Int.{ℤ, pos}
use nav_bridge.Prelude.Exec.{
  Holds, Runs, lift, act, pure, Runs-pure, Runs-lift, Runs-act, Runs-if, Runs-bind, Runs-pre,
  Runs-starve, Keeps-bind,
}
use nav_bridge.X30.Protocol.{cmd_heartbeat, cmd_query_103}
use nav_bridge.X30.Axis.{Floats}
use nav_bridge.X30.Platform.{
  Platform, IsPlatform, World, ActionResult, tick, read_clock, sleep_for, send,
}
use nav_bridge.X30.Control.{
  Config, ControlPulse, acquire_control, evaluate_control_pulse, send_code, send_velocity_command,
  apply_control_actions, warmup_round, warmup_loop, warmup_control,
}
use nav_bridge.X30.Executor.Rules.{
  times, output, IsLater, IsLater-refl, IsLater-trans, IsLater-mono, IsLater-quiet, Includes,
}

abbrev pub beat_codes : List ℕ
beat_codes = cmd_heartbeat ∷ cmd_query_103 ∷ []

-- A packet moves only the clock and the list of what was sent.
pub send_code-IsLater :
    (p : Platform)
    → IsPlatform p
    → (code : ℕ) (value : ℤ) (w : World) → IsLater (code ∷ []) w (send_code p code value w)
unfolding send_code send
send_code-IsLater p ip code value w = record {
  not_before = omega (arith, ip.after_lt w.now);
  only = λ other e. ground arith;
  suppression = refl;
}

pub send_code-times :
    (p : Platform) (code : ℕ) (value : ℤ) (w : World)
    → times code (send_code p code value w).sent ≡ suc (times code w.sent)
unfolding send_code send
send_code-times p code value w = ground arith

heartbeat_code : Includes (cmd_heartbeat ∷ []) beat_codes
heartbeat_code code e = ground arith

query_code : Includes (cmd_query_103 ∷ []) beat_codes
query_code code e = ground arith

if-IsLater :
    {codes : List ℕ} (b : Bool) (w u v : World)
    → IsLater codes w u
    → IsLater codes w v
    → IsLater codes w (if b then u else v)
if-IsLater true w u v h k = h
if-IsLater false w u v h k = k

module _ (p : Platform) (ip : IsPlatform p) (fl : Floats) (cfg : Config) where
  pub apply-IsLater :
      (pulse : ControlPulse) (w : World)
      → pulse.send_zero_velocity ≡ false
      → IsLater beat_codes w (apply_control_actions p fl pulse w)
  unfolding apply_control_actions
  apply-IsLater pulse w e =
      let w1 = if pulse.send_heartbeat then send_code p cmd_heartbeat (pos 0) w else w in
      let w2 = if pulse.send_query then send_code p cmd_query_103 (pos 0) w1 else w1 in
      let h1 : IsLater beat_codes w w1 =
        if-IsLater pulse.send_heartbeat w _ _
          (IsLater-mono heartbeat_code (send_code-IsLater p ip _ (pos 0) w)) (IsLater-refl _ w) in
      let h2 : IsLater beat_codes w w2 =
        if-IsLater pulse.send_query w _ _
          (IsLater-trans h1 (IsLater-mono query_code (send_code-IsLater p ip _ (pos 0) w1))) h1 in
      subst
        (λ b. IsLater beat_codes w (
          if b
          then send_velocity_command p fl (fl.hundredths 0) (fl.hundredths 0) (fl.hundredths 0) w2
          else w2))
        (sym e) h2

  -- A pulse never asks for a zero velocity, and evaluating one sends nothing.
  pub evaluate_step :
      (now : ℕ) (force : Bool) (w : World)
      → ((evaluate_control_pulse cfg now force w).0.send_zero_velocity ≡ false)
        × ((evaluate_control_pulse cfg now force w).1.now ≡ w.now)
        × (output (evaluate_control_pulse cfg now force w).1 ≡ output w)
  unfolding evaluate_control_pulse
  evaluate_step now force w = ground arith

  module _ (w₀ : World) (lo : ℕ) (X : Type 0) where
    -- Since the instant `lo`, with `X` known.
    abbrev Since : World → Type 0
    Since w = IsLater beat_codes w₀ w × (lo ≤ w.now) × X

    evaluate-Keeps :
        {S : Type 0} {E : ActionResult → World → Type 0} (now : ℕ) (force : Bool)
        → Runs S E Since
            (lift (evaluate_control_pulse cfg now force))
            (λ pulse w. Since w × (pulse.send_zero_velocity ≡ false))
    evaluate-Keeps now force = Runs-lift (evaluate_control_pulse cfg now force) λ w h.
        let step = evaluate_step now force w in
        (
          (
            IsLater-trans h.0 (IsLater-quiet beat_codes w _ (omega (arith, step.1)) step.2),
            omega (arith, step.1, h.1),
            h.2,
          ),
          step.0,
        )

    apply-Keeps :
        {S : Type 0} {E : ActionResult → World → Type 0} (pulse : ControlPulse)
        → Runs S E
            (λ w. Since w × (pulse.send_zero_velocity ≡ false))
            (act (apply_control_actions p fl pulse))
            (λ _. Since)
    apply-Keeps pulse = Runs-act (apply_control_actions p fl pulse) λ w h.
        let sent = apply-IsLater pulse w h.1 in
        (IsLater-trans h.0.0 sent, omega (arith, sent.not_before, h.0.1), h.0.2)

    pause-Keeps :
        {S : Type 0} {E : ActionResult → World → Type 0} (ms : ℕ)
        → Runs S E Since (if ltb 0 ms then act (sleep_for p ms) else pure tt) (λ _. Since)
    unfolding sleep_for
    pause-Keeps ms =
        Runs-if (ltb 0 ms) _ _
          (λ _. Runs-act (sleep_for p ms) λ w h. (
            IsLater-trans h.0
                (IsLater-quiet beat_codes w _ (omega (arith, ip.slept_le w.now ms)) refl),
            omega (arith, ip.slept_le w.now ms, h.1),
            h.2,
          ))
          λ _. Runs-pure tt λ w h. h

  module _ (w₀ : World) (deadline pulse_ms : ℕ) where
    -- The fuel is above the ticks that are left.
    abbrev Fueled : ℕ → World → Type 0
    Fueled fuel w = IsLater beat_codes w₀ w × (0 < fuel) × (deadline < w.now + fuel)

    warmup_loop-ends :
        (fuel : ℕ)
        → Runs ⊥
            (λ _ _. ⊥)
            (Fueled fuel)
            (warmup_loop p fl cfg fuel deadline pulse_ms)
            (λ _. IsLater beat_codes w₀)
    unfolding warmup_loop warmup_round read_clock
    warmup_loop-ends zero = Runs-starve λ w h. omega (arith, h.1)
    warmup_loop-ends (suc fuel) =
        Runs-bind (λ now. Since w₀ (suc now) (deadline < now + suc fuel)) _ _
          (Runs-lift (read_clock p) λ w h.
            let later = ip.after_lt w.now in
            (
              IsLater-trans h.0 (IsLater-quiet beat_codes w _ (omega (arith, later)) refl),
              omega (arith, later),
              omega (arith, h.2),
            ))
          λ now.
            Runs-bind _ _ _ (evaluate-Keeps w₀ (suc now) (deadline < now + suc fuel) now true)
              λ pulse.
                Runs-bind _ _ _ (apply-Keeps w₀ (suc now) (deadline < now + suc fuel) pulse) λ _.
                  Runs-if (leb deadline now) _ _ (λ _. Runs-pure tt λ w h. h.0)
                    λ e.
                      Keeps-bind _ _
                        (pause-Keeps w₀ (suc now) (deadline < now + suc fuel)
                          (min pulse_ms ((deadline - now) / tick)))
                        λ _.
                          Runs-pre
                            (λ w h.
                              let busy = leb→lt deadline now e in
                              (h.0, omega (arith, busy, h.2), omega (arith, h.1, h.2)))
                            (warmup_loop-ends fuel)

  -- With a platform whose clock moves on with every statement and whose waits and sleeps take
  -- their time: warmupControl comes to its end, whatever the robot does, and it has sent nothing
  -- but heartbeats and queries, and left the suppression of /cmd_vel as it was.
  pub warmup_control-ends :
      (warmup_ms pulse_ms : ℕ) (w : World)
      → Holds ⊥
          (λ _ _. ⊥)
          (λ _. IsLater beat_codes w)
          (warmup_control p fl cfg warmup_ms pulse_ms w)
  unfolding warmup_control acquire_control read_clock
  warmup_control-ends warmup_ms pulse_ms w =
      (Runs-bind (λ _. IsLater beat_codes w) _ _
          (Runs-act acquire_control
            λ u h. IsLater-trans h (IsLater-quiet beat_codes u _ (omega arith) refl))
          λ _.
            Runs-bind (λ start u. IsLater beat_codes w u × (start < u.now)) _ _
              (Runs-lift (read_clock p) λ u h.
                let later = ip.after_lt u.now in
                (IsLater-trans h (IsLater-quiet beat_codes u _ (omega (arith, later)) refl), later))
              λ start.
                Runs-pre (λ u h. (h.0, omega arith, omega (arith, h.1)))
                  (warmup_loop-ends w (start + warmup_ms * tick) pulse_ms
                    (warmup_ms * tick + 1))).at
        w (IsLater-refl beat_codes w)
