-- ===== src/X30/Manual/Reaches.antt =====
-- src/x30/x30_nav_bridge.cpp: runs of `ensureManualMode`.
use nav_bridge.Prelude.{
  ℕ, zero, suc, ◌+◌, ◌*◌, ◌≤◌, ◌<◌, refl, Bool, true, false, not, List, [], ◌∷◌, arith, leb, leb→lt,
}
use nav_bridge.Prelude.Int.{pos}
use nav_bridge.Prelude.Exec.{
  Runs, act, Runs-pure, Runs-lift, Runs-act, Runs-if, Runs-bind, Runs-pre, Keeps-bind, Runs-starve,
}
use nav_bridge.X30.Protocol.{cmd_heartbeat, cmd_query_103, cmd_manual_mode, make_simple_command}
use nav_bridge.X30.Platform.{
  Platform, IsPlatform, Reading, World, ActionResult, motion, tick, read_clock, sleep_for, send,
}
use nav_bridge.X30.Executor.Rules.{IsLater, IsLater-mono, IsLater-quiet, Includes, IsCallbacks}
use nav_bridge.X30.Executor.Steps.{IsFrame, Answered, clock_step, look-Saw, takeover-Keeps}
use nav_bridge.X30.Executor.{Callbacks}
use nav_bridge.X30.Manual.{
  manual_round, manual_loop, ensure_manual_mode, charge_manual_mode_timeout_ms,
  charge_manual_mode_retry_ms,
}

-- Not in navigation mode.
abbrev pub is_manual : Reading → Bool
is_manual r = not r.is_nav_mode

send_manual-IsLater :
    (p : Platform)
    → IsPlatform p
    → (w : World)
    → IsLater
        (cmd_manual_mode ∷ [])
        w
        (send p motion (make_simple_command cmd_manual_mode (pos 0)) w).1
unfolding send
send_manual-IsLater p ip w = record {
  not_before = omega (arith, ip.after_lt w.now);
  only = λ other e. ground arith;
  suppression = refl;
}

module _ (p : Platform) (c : Callbacks) (ip : IsPlatform p) (ic : IsCallbacks c) (S : Type 0)
    (E : ActionResult → World → Type 0) (codes : List ℕ) (lo : ℕ)
    (base : Includes (cmd_heartbeat ∷ cmd_query_103 ∷ []) codes)
    (inc : Includes (cmd_manual_mode ∷ []) codes) (P : World → Type 0)
    (frame : IsFrame codes lo P) where
  abbrev Reached : Bool → World → Type 0
  Reached = Answered p lo P is_manual

  module _ (deadline : ℕ) where
    -- The fuel is above the milliseconds that are left.
    abbrev Fueled : ℕ → World → Type 0
    Fueled fuel w = P w × (0 < fuel) × (deadline + tick < w.now + fuel * tick)

    -- Within a round that began at `start`.
    abbrev Since : ℕ → ℕ → World → Type 0
    Since start fuel w =
        P w × (start ≤ w.now) × (start < deadline) × (deadline + tick < start + suc fuel * tick)

    Since-frame : (start fuel : ℕ) → IsFrame codes lo (Since start fuel)
    Since-frame start fuel = record {
      stable = λ u v h x. (frame.stable u v h x.0, omega (arith, h.not_before, x.1), x.2, x.3);
      low = λ w x. frame.low w x.0;
    }

    slept :
        (start fuel : ℕ)
        → Runs S E
            (Since start fuel)
            (act (sleep_for p charge_manual_mode_retry_ms))
            (λ _. Fueled fuel)
    unfolding sleep_for
    slept start fuel = Runs-act (sleep_for p charge_manual_mode_retry_ms) λ w h.
        let late = ip.slept_le w.now charge_manual_mode_retry_ms in
        (
          frame.stable w _ (IsLater-quiet codes w _ (omega (arith, late)) refl) h.0,
          omega (arith, late, h.1, h.2, h.3),
          omega (arith, late, h.1, h.2, h.3),
        )

    manual_loop-Reached :
        (fuel : ℕ) → Runs S E (Fueled fuel) (manual_loop p c fuel deadline) Reached
    unfolding manual_loop manual_round
    manual_loop-Reached zero = Runs-starve λ w h. absurd (omega arith)
    manual_loop-Reached (suc fuel) =
        Runs-bind (λ start w. P w × (start ≤ w.now) × (deadline + tick < start + suc fuel * tick)) _
          _
          (Runs-lift (read_clock p) λ w h.
            let step = clock_step p c ip S E codes lo P frame w h.0 in
            (step.0, step.2, omega (arith, step.1, h.2)))
          λ start.
            Runs-if (leb deadline start) _ _
              (λ e.
                Runs-pre (λ w h. h.0)
                  (Runs-bind (λ nav. Answered p lo P is_manual (not nav)) _ _
                    (look-Saw p c ip S E codes lo P frame (λ r. r.is_nav_mode) not)
                    λ nav. Runs-pure (not nav) λ w h. h))
              λ e.
                Runs-pre {P = Since start fuel} (λ w h. (h.0, h.1, leb→lt _ _ e, h.2))
                  (Runs-bind (λ nav. Answered p lo (Since start fuel) is_manual (not nav)) _ _
                    (look-Saw p c ip S E codes lo _ (Since-frame start fuel) (λ r. r.is_nav_mode)
                      not)
                    λ nav.
                      Runs-if (not nav) _ _ (λ e'. Runs-pure true λ w h. (h.0.0, λ _. h.1 e'))
                        λ e'.
                          Runs-pre {P = Since start fuel} (λ w h. h.0)
                            (Keeps-bind _ _
                              (Runs-lift
                                (send p motion (make_simple_command cmd_manual_mode (pos 0)))
                                λ w h.
                                  (Since-frame start fuel).stable w _
                                    (IsLater-mono inc (send_manual-IsLater p ip w)) h)
                              λ sent.
                                Runs-if (not sent) _ _ (λ _. Runs-pure false λ w h. (h.0, λ e. cc))
                                  λ _.
                                    Runs-bind (λ _. Fueled fuel) _ _ (slept start fuel)
                                      λ _. manual_loop-Reached fuel))

  pub ensure_manual_mode-Answered : Runs S E P (ensure_manual_mode p c) (Answered p lo P is_manual)
  unfolding ensure_manual_mode
  ensure_manual_mode-Answered =
      Runs-bind (λ nav. Answered p lo P is_manual (not nav)) _ _
        (look-Saw p c ip S E codes lo P frame (λ r. r.is_nav_mode) not)
        λ nav.
          Runs-if (not nav) _ _ (λ e. Runs-pure true λ w h. (h.0, λ _. h.1 e))
            λ e.
              Runs-bind (λ start w. P w × (start ≤ w.now)) _ _
                (Runs-lift (read_clock p) λ w h.
                  let step = clock_step p c ip S E codes lo P frame w h.0 in (step.0, step.2))
                λ start.
                  Keeps-bind _ _ (takeover-Keeps p c ip S E codes lo _ (started start) ic base _ _)
                    λ _.
                      Runs-pre (λ w h. (h.0, omega arith, omega (arith, h.1)))
                        (manual_loop-Reached (start + charge_manual_mode_timeout_ms * tick)
                          (charge_manual_mode_timeout_ms + 2))
    where
      started : (start : ℕ) → IsFrame codes lo (λ w. P w × (start ≤ w.now))
      started start = record {
        stable = λ u v h x. (frame.stable u v h x.0, omega (arith, h.not_before, x.1));
        low = λ w x. frame.low w x.0;
      }
