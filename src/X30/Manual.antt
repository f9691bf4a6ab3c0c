-- ===== src/X30/Manual.antt =====
-- src/x30/x30_nav_bridge.cpp: `ensureManualMode`, which takes the robot out of navigation mode.
pub mod Reaches
use nav_bridge.Prelude.{ℕ, zero, suc, ◌+◌, ◌*◌, Bool, true, false, not, leb, if◌then◌else◌}
use nav_bridge.Prelude.Int.{ℤ, pos}
use nav_bridge.Prelude.Exec.{pure, starve, lift, act, ◌>>=◌, ◌>>◌}
use nav_bridge.X30.Protocol.{cmd_manual_mode, make_simple_command}
use nav_bridge.X30.Platform.{Platform, Act, motion, tick, read_clock, look, sleep_for, send}
use nav_bridge.X30.Control.{control_warmup_ms, control_warmup_pulse_ms}
use nav_bridge.X30.Executor.{Callbacks, ensure_control_takeover}

abbrev pub charge_manual_mode_timeout_ms : ℕ
charge_manual_mode_timeout_ms = 20000

abbrev pub charge_manual_mode_retry_ms : ℕ
charge_manual_mode_retry_ms = 200

module _ (p : Platform) (c : Callbacks) where
  -- One round of the `while` loop; `again` is the rounds that follow.
  manual_round : ℕ → Act Bool → Act Bool
  manual_round deadline again = do
    now ← lift (read_clock p)
    let last = do nav ← lift (look p (λ r. r.is_nav_mode)); pure (not nav)
    let round = do
      nav ← lift (look p (λ r. r.is_nav_mode))
      let retry = do
        sent ← lift (send p motion (make_simple_command cmd_manual_mode (pos 0)))
        let rest = do act (sleep_for p charge_manual_mode_retry_ms); again
        if not sent then pure false else rest
      if not nav then pure true else retry
    if leb deadline now then last else round

  manual_loop : ℕ → ℕ → Act Bool
  manual_loop zero deadline = starve
  manual_loop (suc fuel) deadline =
      let again = manual_loop fuel deadline in manual_round deadline again

  unfoldable pub ensure_manual_mode : Act Bool
  unfolding manual_loop manual_round
  ensure_manual_mode = do
    nav ← lift (look p (λ r. r.is_nav_mode))
    let switch = do
      start ← lift (read_clock p)
      ensure_control_takeover p c control_warmup_ms control_warmup_pulse_ms
      manual_loop (charge_manual_mode_timeout_ms + 2) (start + charge_manual_mode_timeout_ms * tick)
    if not nav then pure true else switch
