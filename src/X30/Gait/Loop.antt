-- ===== src/X30/Gait/Loop.antt =====
-- src/x30/x30_nav_bridge.cpp: the loops of `setNavigationGait` that start the motion.
use nav_bridge.Prelude.{
  ℕ, zero, suc, ◌+◌, ◌-◌, ◌*◌, ◌/◌, ◌≤◌, ◌<◌, min, Bool, true, false, List, [], ◌∷◌, arith, leb,
  if◌then◌else◌, leb→lt,
}
use nav_bridge.Prelude.Exec.{
  Runs, pure, lift, ◌>>=◌, Runs-pure, Runs-lift, Runs-if, Runs-bind, Keeps-bind, Runs-pre,
  Runs-starve,
}
use nav_bridge.X30.Protocol.{cmd_motion, force_stand}
use nav_bridge.X30.Store.{is_basic}
use nav_bridge.X30.Platform.{
  Platform, IsPlatform, Reading, World, Act, ActionResult, tick, read_clock,
}
use nav_bridge.X30.Executor.Rules.{Includes, IsCallbacks}
use nav_bridge.X30.Executor.Steps.{
  IsFrame, Answered, Timed, clock_step, read_clock-Keeps, look-Saw, sender-Keeps,
}
use nav_bridge.X30.Executor.{Callbacks}
use nav_bridge.X30.Gait.{
  motion_round, motion_loop, start_motion_until, cmd_vel_state_wait_ms, motion_start_retry_ms,
}

module _ (p : Platform) (c : Callbacks) (ip : IsPlatform p) (ic : IsCallbacks c) (S : Type 0)
    (E : ActionResult → World → Type 0) (codes : List ℕ) (lo : ℕ)
    (inc : Includes (cmd_motion ∷ []) codes) (arrived : ℕ → ℕ → Bool) (await : ℕ → Act Bool)
    (P : World → Type 0) (frame : IsFrame codes lo P) where
  abbrev seen : Reading → Bool
  seen r = arrived r.basic_state r.gait_state

  abbrev Reached : Bool → World → Type 0
  Reached = Answered p lo P seen

  module _ (deadline : ℕ) where
    -- The fuel is above the milliseconds that are left.
    abbrev Fueled : ℕ → World → Type 0
    Fueled fuel w = P w × (0 < fuel) × (deadline + tick < w.now + fuel * tick)

    -- Within a round that began at `start`.
    abbrev Since : ℕ → ℕ → World → Type 0
    Since start fuel w =
        P w × (start ≤ w.now) × (start < deadline) × (deadline + tick < start + suc fuel * tick)

    pub Since-frame : (start fuel : ℕ) → IsFrame codes lo (Since start fuel)
    Since-frame start fuel = record {
      stable = λ u v h x. (frame.stable u v h x.0, omega (arith, h.not_before, x.1), x.2, x.3);
      low = λ w x. frame.low w x.0;
    }

    -- What a wait of this loop says.
    abbrev Awaits : Type 0
    Awaits =
        (start fuel d : ℕ)
        → Runs S E (λ w. Since start fuel w × (start ≤ w.now)) (await d)
            (Timed p c ip S E codes lo (Since start fuel) (Since-frame start fuel) seen start d)

    module _ (awaits : Awaits) where
      push-Reached :
          (start fuel : ℕ) (again : Act Bool)
          → Runs S E (Fueled fuel) again Reached
          → Runs S E
              (Since start fuel)
              (lift (read_clock p) >>= λ now.
                if leb ((deadline - now) / tick) 0
                then pure false
                else await (min motion_start_retry_ms ((deadline - now) / tick)) >>= λ answered.
                    if answered then pure true else again)
              Reached
      push-Reached start fuel again ih =
          Keeps-bind _ _ (read_clock-Keeps p c ip S E codes lo _ (Since-frame start fuel)) λ now.
            Runs-if (leb ((deadline - now) / tick) 0) _ _
              (λ e. Runs-pure false λ w h. (h.0, λ e. cc))
              λ e.
                Runs-bind
                  (Timed p c ip S E codes lo (Since start fuel) (Since-frame start fuel) seen start
                    (min motion_start_retry_ms ((deadline - now) / tick)))
                  _ _ (Runs-pre (λ w h. (h, h.1)) (awaits start fuel _))
                  λ answered.
                    Runs-if answered _ _ (λ e'. Runs-pure true λ w h. (h.0.0.0, λ _. h.0.1 e'))
                      λ e'.
                        Runs-pre
                          (λ w h.
                            let some_time : 0
                                < min motion_start_retry_ms ((deadline - now) / tick) =
                              ground arith in
                            let enough : start + tick ≤ w.now = grind (arith, some_time, h.1 e') in
                            (h.0.0.0, omega arith, omega arith))
                          ih

      motion_loop-Reached :
          (fuel : ℕ) → Runs S E (Fueled fuel) (motion_loop p c fuel deadline arrived await) Reached
      unfolding motion_loop motion_round
      motion_loop-Reached zero = Runs-starve λ w h. absurd (omega arith)
      motion_loop-Reached (suc fuel) =
          Runs-bind (λ start w. P w × (start ≤ w.now) × (deadline + tick < start + suc fuel * tick))
            _ _
            (Runs-lift (read_clock p) λ w h.
              let step = clock_step p c ip S E codes lo P frame w h.0 in
              (step.0, step.2, omega (arith, step.1, h.2)))
            λ start.
              Runs-if (leb deadline start) _ _ (λ e. Runs-pure false λ w h. (h.0, λ e. cc))
                λ e.
                  Runs-pre {P = Since start fuel} (λ w h. (h.0, h.1, leb→lt _ _ e, h.2))
                    (Runs-bind
                      (λ snap.
                        Answered p lo (Since start fuel) seen
                          (arrived snap.basic_state snap.gait_state))
                      _ _
                      (look-Saw p c ip S E codes lo _ (Since-frame start fuel) (λ r. r.store)
                        (λ s. arrived s.basic_state s.gait_state))
                      λ snap.
                        Runs-if (arrived snap.basic_state snap.gait_state) _ _
                          (λ e'. Runs-pure true λ w h. (h.0.0, λ _. h.1 e'))
                          λ e'.
                            Runs-pre {P = Since start fuel} (λ w h. h.0)
                              (Keeps-bind _ _
                                (Runs-if (is_basic force_stand snap.basic_state) _ _
                                  (λ _.
                                    sender-Keeps p c ip S E codes lo _ (Since-frame start fuel) ic
                                      cmd_motion inc)
                                  (λ _. Runs-pure tt λ w h. h))
                                λ _. push-Reached start fuel _ (motion_loop-Reached fuel)))

  pub start_motion_until-Answered :
      ((deadline : ℕ) → Awaits deadline)
      → Runs S E P (start_motion_until p c arrived await) (Answered p lo P seen)
  unfolding start_motion_until
  start_motion_until-Answered awaits =
      Runs-bind (λ start w. P w × (start ≤ w.now)) _ _
        (Runs-lift (read_clock p)
          λ w h. let step = clock_step p c ip S E codes lo P frame w h in (step.0, step.2))
        λ start.
          Runs-pre (λ w h. (h.0, omega arith, omega (arith, h.1)))
            (motion_loop-Reached (start + cmd_vel_state_wait_ms * tick) (awaits _)
              (cmd_vel_state_wait_ms + 2))
