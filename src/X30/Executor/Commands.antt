-- ===== src/X30/Executor/Commands.antt =====
-- src/x30/action_executor.cpp: triples for `sendSingleCommandAndWait` and
-- `sendToggleCommandWithRetries`.
use nav_bridge.Prelude.{
  ℕ, zero, suc, ◌+◌, ◌-◌, ◌*◌, ◌/◌, ◌≤◌, ◌<◌, ◌≡◌, min, Bool, true, false, List, [], ◌∷◌, arith,
  ltb, leb, ◌==◌, if◌then◌else◌, leb→lt,
}
use nav_bridge.Prelude.Exec.{
  Runs, pure, lift, ◌>>=◌, ◌>>◌, Runs-pure, Runs-lift, Runs-if, Runs-bind, Keeps-bind, Runs-pre,
  Runs-starve,
}
use nav_bridge.X30.Protocol.{BasicState, cmd_heartbeat, cmd_query_103}
use nav_bridge.X30.Platform.{
  Platform, IsPlatform, World, Act, ActionResult, tick, read_clock, wait_for_basic_state,
}
use nav_bridge.X30.Store.{basic_matches}
use nav_bridge.X30.Control.{control_warmup_ms, control_warmup_pulse_ms}
use nav_bridge.X30.Executor.Rules.{Includes, IsCallbacks}
use nav_bridge.X30.Executor.Steps.{
  IsFrame, Answered, clock_step, read_clock-Keeps, basic_wait-Answered, basic_wait-time,
  takeover-Keeps, sender-Keeps,
}
use nav_bridge.X30.Executor.{
  Callbacks, ensure_control_takeover, single_command_loop, send_single_command_and_wait,
  toggle_round, toggle_loop, send_toggle_command_with_retries,
}

module _ (p : Platform) (c : Callbacks) (ip : IsPlatform p) (ic : IsCallbacks c) (S : Type 0)
    (E : ActionResult → World → Type 0) (codes : List ℕ) (lo : ℕ)
    (base : Includes (cmd_heartbeat ∷ cmd_query_103 ∷ []) codes) (command : ℕ)
    (inc : Includes (command ∷ []) codes) (targets : List BasicState) where
  module _ (P : World → Type 0) (frame : IsFrame codes lo P) where
    abbrev Reached : Bool → World → Type 0
    Reached = Answered p lo P (λ r. basic_matches targets r.store)

    single_command_loop-Answered :
        (attempts timeout_ms warmup_ms : ℕ)
        → Runs S E P (single_command_loop p c attempts command targets timeout_ms warmup_ms) Reached
    unfolding single_command_loop
    single_command_loop-Answered zero timeout_ms warmup_ms = Runs-pure false λ w h. (h, λ e. cc)
    single_command_loop-Answered (suc attempts) timeout_ms warmup_ms =
        Keeps-bind _ _ (takeover-Keeps p c ip S E codes lo P frame ic base _ _) λ _.
          Keeps-bind _ _ (sender-Keeps p c ip S E codes lo P frame ic command inc) λ _.
            Runs-bind Reached _ _
              (basic_wait-Answered p c ip S E codes lo P frame targets timeout_ms)
              λ answered.
                Runs-if answered _ _ (λ e. Runs-pure true λ w h. (h.0, λ _. h.1 e))
                  λ e.
                    Runs-pre (λ w h. h.0)
                      (single_command_loop-Answered attempts timeout_ms warmup_ms)

    pub single_command-Answered :
        (timeout_ms warmup_ms : ℕ)
        → Runs S E P
            (send_single_command_and_wait p c command targets timeout_ms warmup_ms)
            (Answered p lo P (λ r. basic_matches targets r.store))
    unfolding send_single_command_and_wait
    single_command-Answered = single_command_loop-Answered 2

    module _ (deadline resend_ms : ℕ) where
      -- The fuel is above the milliseconds that are left.
      abbrev Fueled : ℕ → World → Type 0
      Fueled fuel w = P w × (0 < fuel) × (deadline + tick < w.now + fuel * tick)

      Fueled-frame : (fuel : ℕ) → IsFrame codes lo (Fueled fuel)
      Fueled-frame fuel = record {
        stable = λ u v h x. (frame.stable u v h x.0, x.1, omega (arith, h.not_before, x.2));
        low = λ w x. frame.low w x.0;
      }

      -- Within a round that began at `start`.
      abbrev Since : ℕ → ℕ → World → Type 0
      Since start fuel w =
          P w × (start ≤ w.now) × (start < deadline) × (deadline + tick < start + suc fuel * tick)

      Since-frame : (start fuel : ℕ) → IsFrame codes lo (Since start fuel)
      Since-frame start fuel = record {
        stable = λ u v h x. (frame.stable u v h x.0, omega (arith, h.not_before, x.1), x.2, x.3);
        low = λ w x. frame.low w x.0;
      }

      module _ (fuel : ℕ) (again : Act Bool) (ih : Runs S E (Fueled fuel) again Reached) where
        retry-Reached :
            Runs S E
              (Fueled fuel)
              (lift (read_clock p) >>= λ later.
                (if ltb later deadline
                  then ensure_control_takeover p c control_warmup_ms control_warmup_pulse_ms
                  else pure tt)
                >> again)
              Reached
        retry-Reached =
            Keeps-bind _ _ (read_clock-Keeps p c ip S E codes lo _ (Fueled-frame fuel)) λ later.
              Keeps-bind _ _
                (Runs-if (ltb later deadline) _ _
                  (λ _. takeover-Keeps p c ip S E codes lo _ (Fueled-frame fuel) ic base _ _)
                  (λ _. Runs-pure tt λ w h. h))
                λ _. ih

        -- The wait of a round, and what follows it.
        wait-Reached :
            (start wait_ms : ℕ)
            → 0 < wait_ms
            → Runs S E
                (Since start fuel)
                (lift (wait_for_basic_state p targets wait_ms) >>= λ answered.
                  if answered
                  then pure true
                  else (lift (read_clock p) >>= λ later.
                      (if ltb later deadline
                        then ensure_control_takeover p c control_warmup_ms control_warmup_pulse_ms
                        else pure tt)
                      >> again))
                Reached
        wait-Reached start wait_ms some_time =
            Runs-bind
              (λ b w.
                Answered p lo (Since start fuel) (λ r. basic_matches targets r.store) b w
                × (b ≡ false → start + wait_ms * tick ≤ w.now))
              _ _
              (Runs-pre (λ w h. (h, h.1))
                (basic_wait-time p c ip S E codes lo _ (Since-frame start fuel) targets wait_ms
                  start))
              λ answered.
                Runs-if answered _ _ (λ e. Runs-pure true λ w h. (h.0.0.0, λ _. h.0.1 e))
                  λ e.
                    Runs-pre
                      (λ w h.
                        let enough : start + tick ≤ w.now = grind (arith, some_time, h.1 e) in
                        (h.0.0.0, omega arith, omega arith))
                      retry-Reached

      toggle_loop-Reached :
          (fuel : ℕ)
          → Runs S E (Fueled fuel) (toggle_loop p c fuel deadline command targets resend_ms) Reached
      unfolding toggle_loop toggle_round
      toggle_loop-Reached zero = Runs-starve λ w h. absurd (omega arith)
      toggle_loop-Reached (suc fuel) =
          Runs-bind (λ start w. P w × (start ≤ w.now) × (deadline + tick < start + suc fuel * tick))
            _ _
            (Runs-lift (read_clock p) λ w h.
              let seen = clock_step p c ip S E codes lo P frame w h.0 in
              (seen.0, seen.2, omega (arith, seen.1, h.2)))
            λ start.
              Runs-if (leb deadline start) _ _ (λ e. Runs-pure false λ w h. (h.0, λ e. cc))
                λ e.
                  Runs-pre {P = Since start fuel} (λ w h. (h.0, h.1, leb→lt _ _ e, h.2))
                    (Keeps-bind _ _
                      (sender-Keeps p c ip S E codes lo _ (Since-frame start fuel) ic command inc)
                      λ _.
                        Keeps-bind _ _
                          (read_clock-Keeps p c ip S E codes lo _ (Since-frame start fuel))
                          λ now.
                            Runs-if (min resend_ms ((deadline - now) / tick) == 0) _ _
                              (λ e. Runs-pure false λ w h. (h.0, λ e. cc))
                              λ e.
                                wait-Reached fuel _ (toggle_loop-Reached fuel) start _
                                  (ground arith))

    -- After the clock was read as `start`, before the deadline is in force.
    abbrev After : ℕ → World → Type 0
    After start w = P w × (start ≤ w.now)

    After-frame : (start : ℕ) → IsFrame codes lo (After start)
    After-frame start = record {
      stable = λ u v h x. (frame.stable u v h x.0, omega (arith, h.not_before, x.1));
      low = λ w x. frame.low w x.0;
    }

    pub toggle_command-Answered :
        (overall_ms resend_ms warmup_ms : ℕ)
        → Runs S E P
            (send_toggle_command_with_retries p c command targets overall_ms resend_ms warmup_ms)
            (Answered p lo P (λ r. basic_matches targets r.store))
    unfolding send_toggle_command_with_retries
    toggle_command-Answered overall_ms resend_ms warmup_ms =
        Runs-bind After _ _
          (Runs-lift (read_clock p)
            λ w h. let seen = clock_step p c ip S E codes lo P frame w h in (seen.0, seen.2))
          λ start.
            Keeps-bind _ _ (takeover-Keeps p c ip S E codes lo _ (After-frame start) ic base _ _)
              λ _.
                Runs-pre (λ w h. (h.0, omega arith, omega (arith, h.1)))
                  (toggle_loop-Reached (start + overall_ms * tick) resend_ms (overall_ms + 2))
