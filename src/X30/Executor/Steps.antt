-- ===== src/X30/Executor/Steps.antt =====
-- Triples for the statements of the executor: each keeps every fact that more time and more of the
-- allowed packets leave true.
use nav_bridge.Prelude.{ℕ, ◌+◌, ◌*◌, ◌≤◌, ◌<◌, ◌≡◌, refl, Bool, true, false, List, [], ◌∷◌, arith}
use nav_bridge.Prelude.Exec.{Runs, lift, act, Runs-lift, Runs-act, Holds-ended}
use nav_bridge.X30.Protocol.{BasicState, cmd_heartbeat, cmd_query_103}
use nav_bridge.X30.Platform.{
  Platform, IsPlatform, Reading, World, ActionResult, tick, read_clock, look, wait_for,
  wait_for_basic_state, wait_for_gait_state, wait_for_state, sleep_for,
}
use nav_bridge.X30.Store.{basic_matches, gait_matches}
use nav_bridge.X30.Protocol.{GaitState}
use nav_bridge.X30.Executor.Rules.{
  IsLater, output, IsLater-quiet, IsLater-mono, Includes, Saw, Saw-later, IsCallbacks,
}
use nav_bridge.X30.Executor.{Callbacks, ensure_control_takeover, basic_state_now, gait_state_now}

-- A fact that holds from the instant `lo` on, and that routines with these codes cannot undo.
pub record IsFrame (codes : List ℕ) (lo : ℕ) (P : World → Type 0) : Type 0 where
  pub stable : (u v : World) → IsLater codes u v → P u → P v
  pub low : (w : World) → P w → lo ≤ w.now

-- What an answer of true adds.
abbrev pub Answered : Platform → ℕ → (World → Type 0) → (Reading → Bool) → Bool → World → Type 0
Answered p lo P q b w = P w × (b ≡ true → Saw p q lo w)

-- What has been seen stays seen.
pub Answered-frame :
    {codes : List ℕ} {lo : ℕ} {P : World → Type 0} (p : Platform) (q : Reading → Bool) (b : Bool)
    → IsFrame codes lo P
    → IsFrame codes lo (Answered p lo P q b)
Answered-frame p q b frame = record {
  stable = λ u v h x. (frame.stable u v h x.0, λ e. Saw-later h (x.1 e));
  low = λ w x. frame.low w x.0;
}

module _ (p : Platform) (c : Callbacks) (ip : IsPlatform p) (S : Type 0)
    (E : ActionResult → World → Type 0) (codes : List ℕ) (lo : ℕ) (P : World → Type 0)
    (frame : IsFrame codes lo P) where
  quiet : (w w' : World) → w.now ≤ w'.now → output w' ≡ output w → P w → P w'
  quiet w w' h e x = frame.stable w w' (IsLater-quiet codes w w' h e) x

  pub read_clock-Keeps : Runs S E P (lift (read_clock p)) (λ _. P)
  unfolding read_clock
  read_clock-Keeps = Runs-lift (read_clock p) λ w. quiet w _ (omega (arith, ip.after_lt w.now)) refl

  -- What a reading of the clock says of its world.
  pub clock_step :
      (w : World)
      → P w
      → P (read_clock p w).1
        × ((read_clock p w).0 ≡ w.now)
        × ((read_clock p w).0 ≤ (read_clock p w).1.now)
  unfolding read_clock
  clock_step w h =
      (quiet w _ (omega (arith, ip.after_lt w.now)) refl h, refl, omega (arith, ip.after_lt w.now))

  pub look-Keeps : {A : Type 0} (f : Reading → A) → Runs S E P (lift (look p f)) (λ _. P)
  unfolding look
  look-Keeps f = Runs-lift (look p f) λ w. quiet w _ (omega (arith, ip.after_lt w.now)) refl

  pub basic_state-Keeps : Runs S E P (lift (basic_state_now p c)) (λ _. P)
  unfolding basic_state_now
  basic_state-Keeps = look-Keeps (λ r. r.basic_state)

  pub gait_state-Keeps : Runs S E P (lift (gait_state_now p c)) (λ _. P)
  unfolding gait_state_now
  gait_state-Keeps = look-Keeps (λ r. r.gait_state)

  -- What was read was there.
  pub look-Saw :
      {A : Type 0} (f : Reading → A) (test : A → Bool)
      → Runs S E P (lift (look p f)) (λ a w. P w × (test a ≡ true → Saw p (λ r. test (f r)) lo w))
  unfolding look
  look-Saw f test = Runs-lift (look p f) λ w h. (
    quiet w _ (omega (arith, ip.after_lt w.now)) refl h,
    λ e. record {
      at = w.now;
      not_before = frame.low w h;
      not_after = omega (arith, ip.after_lt w.now);
      seen = e;
    },
  )

  pub basic_state-Saw :
      (test : ℕ → Bool)
      → Runs S E P
          (lift (basic_state_now p c))
          (λ n. Answered p lo P (λ r. test r.basic_state) (test n))
  unfolding basic_state_now
  basic_state-Saw = look-Saw (λ r. r.basic_state)

  pub gait_state-Saw :
      (test : ℕ → Bool)
      → Runs S E P
          (lift (gait_state_now p c))
          (λ n. Answered p lo P (λ r. test r.gait_state) (test n))
  unfolding gait_state_now
  gait_state-Saw = look-Saw (λ r. r.gait_state)

  pub sleep_for-Keeps : (d : ℕ) → Runs S E P (act (sleep_for p d)) (λ _. P)
  unfolding sleep_for
  sleep_for-Keeps d =
      Runs-act (sleep_for p d) λ w. quiet w _ (omega (arith, ip.slept_le w.now d)) refl

  pub wait_for-Answered :
      (q : Reading → Bool) (d : ℕ) → Runs S E P (lift (wait_for p q d)) (Answered p lo P q)
  unfolding wait_for
  wait_for-Answered q d = Runs-lift (wait_for p q d) λ w h.
      let woken : w.now ≤ p.wake w.now d q = ip.wake_le w.now d q in
      let later : p.wake w.now d q < p.after (p.wake w.now d q) = ip.after_lt _ in
      (
        quiet w _ (omega arith) refl h,
        λ e. record {
          at = p.wake w.now d q;
          not_before = omega (arith, frame.low w h);
          not_after = omega arith;
          seen = e;
        },
      )

  pub basic_wait-Answered :
      (targets : List BasicState) (d : ℕ)
      → Runs S E P
          (lift (wait_for_basic_state p targets d))
          (Answered p lo P (λ r. basic_matches targets r.store))
  unfolding wait_for_basic_state
  basic_wait-Answered targets d = wait_for-Answered (λ r. basic_matches targets r.store) d

  pub gait_wait-Answered :
      (targets : List GaitState) (d : ℕ)
      → Runs S E P
          (lift (wait_for_gait_state p targets d))
          (Answered p lo P (λ r. gait_matches targets r.store))
  unfolding wait_for_gait_state
  gait_wait-Answered targets d = wait_for-Answered (λ r. gait_matches targets r.store) d

  pub state_wait-Answered :
      (q : ℕ → ℕ → Bool) (d : ℕ)
      → Runs S E P
          (lift (wait_for_state p q d))
          (Answered p lo P (λ r. q r.basic_state r.gait_state))
  unfolding wait_for_state
  state_wait-Answered q d = wait_for-Answered (λ r. q r.basic_state r.gait_state) d

  -- A wait that fails has taken its time.
  abbrev pub Timed : (Reading → Bool) → ℕ → ℕ → Bool → World → Type 0
  Timed q from d b w = Answered p lo P q b w × (b ≡ false → from + d * tick ≤ w.now)

  wait_for-time :
      (q : Reading → Bool) (d from : ℕ)
      → Runs S E (λ w. P w × (from ≤ w.now)) (lift (wait_for p q d)) (Timed q from d)
  unfolding wait_for
  wait_for-time q d from = Runs-lift (wait_for p q d) λ w h.
      let woken : w.now ≤ p.wake w.now d q = ip.wake_le w.now d q in
      let later : p.wake w.now d q < p.after (p.wake w.now d q) = ip.after_lt _ in
      (
        (
          quiet w _ (omega arith) refl h.0,
          λ e. record {
            at = p.wake w.now d q;
            not_before = omega (arith, frame.low w h.0);
            not_after = omega arith;
            seen = e;
          },
        ),
        λ e. omega (arith, ip.wake_timeout w.now d q e, h.1),
      )

  pub basic_wait-time :
      (targets : List BasicState) (d from : ℕ)
      → Runs S E
          (λ w. P w × (from ≤ w.now))
          (lift (wait_for_basic_state p targets d))
          (Timed (λ r. basic_matches targets r.store) from d)
  unfolding wait_for_basic_state
  basic_wait-time targets = wait_for-time (λ r. basic_matches targets r.store)

  pub state_wait-time :
      (q : ℕ → ℕ → Bool) (d from : ℕ)
      → Runs S E
          (λ w. P w × (from ≤ w.now))
          (lift (wait_for_state p q d))
          (Timed (λ r. q r.basic_state r.gait_state) from d)
  unfolding wait_for_state
  state_wait-time q = wait_for-time (λ r. q r.basic_state r.gait_state)

  module _ (ic : IsCallbacks c) where
    pub takeover-Keeps :
        Includes (cmd_heartbeat ∷ cmd_query_103 ∷ []) codes
        → (warmup_ms pulse_ms : ℕ)
        → Runs S E P (ensure_control_takeover p c warmup_ms pulse_ms) (λ _. P)
    unfolding ensure_control_takeover
    takeover-Keeps base warmup_ms pulse_ms = record {
      at = λ w h.
          Holds-ended S E (λ _. IsLater (cmd_heartbeat ∷ cmd_query_103 ∷ []) w) (λ _. P)
            (c.control_warmup warmup_ms pulse_ms w) (ic.warmup_ends warmup_ms pulse_ms w)
            (λ _ w' k. frame.stable w w' (IsLater-mono base k) h);
    }

    pub sender-Keeps :
        (command : ℕ)
        → Includes (command ∷ []) codes
        → Runs S E P (act (c.command_sender command)) (λ _. P)
    sender-Keeps command inc =
        Runs-act (c.command_sender command)
          λ w h. frame.stable w _ (IsLater-mono inc (ic.sender_later command w)) h
