-- ===== src/X30/Charge/Service/Reported.antt =====
-- What the charge manager has reported where the charge service answers with success.
use nav_bridge.Prelude.{
  ℕ, zero, suc, ◌≤◌, ◌≡◌, refl, sym, Bool, true, false, not, ◌&&◌, ◌||◌, Option, none, some, List,
  [], ◌∷◌, arith, ltb, ◌==◌, if◌then◌else◌,
}
use mathlib.Core.Path.{subst}
use nav_bridge.Prelude.Int.{ℤ}
use nav_bridge.Prelude.Exec.{
  Flow, next, exit, starved, Holds, Runs, lift, act, Runs-pure, Runs-lift, Runs-act, Runs-require,
  Runs-if, Runs-bind, Runs-pre, Runs-post, Keeps-bind, Runs-starve, Holds-call,
}
use nav_bridge.X30.Protocol.{cmd_heartbeat, cmd_query_103, cmd_manual_mode, CommandHead}
use nav_bridge.X30.Platform.{
  Platform, IsPlatform, Reading, World, ActionResult, Link, look, send, sleep_for,
}
use nav_bridge.X30.Executor.Rules.{Saw, Saw-until, IsCallbacks}
use nav_bridge.X30.Executor.Steps.{IsFrame}
use nav_bridge.X30.Executor.{Callbacks}
use nav_bridge.X30.Executor.Force.{force_stand_up}
use nav_bridge.X30.Executor.Force.Reaches.{force_stand_returns}
use nav_bridge.X30.Control.{enter_cmd_vel_suppression, exit_cmd_vel_suppression}
use nav_bridge.X30.Services.{execute_suppressed}
use nav_bridge.X30.Manual.{ensure_manual_mode}
use nav_bridge.X30.Manual.Reaches.{is_manual, ensure_manual_mode-Answered}
use nav_bridge.X30.Charge.{
  charge_state_idle, is_expected_charge_state_for_command, is_failure_charge_state, charge_switch,
}
use nav_bridge.X30.Charge.Service.{
  ChargeCommandResult, answered, failed_at, taken, settled, is_stop_command, is_answered, woken,
  wait_for_charge_response, prepare_start, switch_to_manual_mode_after_charge, accept,
  ask_charge_state, responded, with_response, charge_loop, charge_with, execute_charge_command,
}

-- A wait without a time limit ends after it began, when it sees what it waits for.
pub record IsUntil (p : Platform) (until : ℕ → (Reading → Bool) → Option ℕ) : Type 0 where
  pub until_le : (t : ℕ) (q : Reading → Bool) (u : ℕ) → until t q ≡ some u → t ≤ u
  pub until_seen : (t : ℕ) (q : Reading → Bool) (u : ℕ) → until t q ≡ some u → q (p.read u) ≡ true

-- The number of the responses does not go down.
abbrev pub IsCounting : Platform → Type 0
IsCounting p = (s t : ℕ) → s ≤ t → (p.read s).charge_response_seq ≤ (p.read t).charge_response_seq

-- A response with this state, newer than all there were at `lo`.
abbrev pub is_response : Platform → ℕ → ℕ → Reading → Bool
is_response p lo state r =
    r.running
    && (r.latest_charge_response_state == state)
    && ltb (p.read lo).charge_response_seq r.charge_response_seq

-- What success means: a new response with an expected state, and after a stop, no navigation mode.
pub record Reported (p : Platform) (lo command : ℕ) (r : ChargeCommandResult) (w : World)
    : Type 0 where
  pub expected : is_expected_charge_state_for_command command r.charge_state ≡ true
  pub response : Saw p (is_response p lo r.charge_state) lo w
  pub manual : is_stop_command command ≡ true → Saw p is_manual lo w

response_new :
    (running : Bool) (latest base previous now : ℕ)
    → running ≡ true
    → not running || ltb previous now ≡ true
    → base ≤ previous
    → running && (latest == latest) && ltb base now ≡ true
response_new running latest base previous now e h le = ground arith

alive_of :
    (running : Bool) (latest state : ℕ)
    → (if running then some latest else none) ≡ some state
    → (running ≡ true) × (latest ≡ state)
alive_of true latest state e = (refl, cc e)
alive_of false latest state e = absurd (cc e)

module _ (p : Platform) (c : Callbacks) (until : ℕ → (Reading → Bool) → Option ℕ)
    (ip : IsPlatform p) (ic : IsCallbacks c) (iu : IsUntil p until) (counting : IsCounting p)
    (lo command : ℕ) where
  abbrev Out : ChargeCommandResult → World → Type 0
  Out r w = r.success ≡ true → Reported p lo command r w

  abbrev Later : World → Type 0
  Later w = lo ≤ w.now

  -- The last of the responses when the command was sent.
  abbrev Asked : ℕ → World → Type 0
  Asked previous w = Later w × ((p.read lo).charge_response_seq ≤ previous)

  look-Later : {A : Type 0} (f : Reading → A) → Runs Unit Out Later (lift (look p f)) (λ _. Later)
  unfolding look
  look-Later f = Runs-lift (look p f) λ w h. omega (arith, h, ip.after_lt w.now)

  look-Asked : Runs Unit Out Later (lift (look p (λ r. r.charge_response_seq))) Asked
  unfolding look
  look-Asked =
      Runs-lift (look p (λ r. r.charge_response_seq))
        λ w h. (omega (arith, h, ip.after_lt w.now), counting lo w.now h)

  send-Asked :
      (previous : ℕ) (link : Link) (head : CommandHead)
      → Runs Unit Out (Asked previous) (lift (send p link head)) (λ _. Asked previous)
  unfolding send
  send-Asked previous link head =
      Runs-lift (send p link head) λ w h. (omega (arith, h.0, ip.after_lt w.now), h.1)

  look_on-Asked :
      (previous : ℕ)
      → Runs Unit Out (Asked previous) (lift (look p (λ r. r.running))) (λ _. Asked previous)
  unfolding look
  look_on-Asked previous =
      Runs-lift (look p (λ r. r.running)) λ w h. (omega (arith, h.0, ip.after_lt w.now), h.1)

  send-Later :
      (link : Link) (head : CommandHead)
      → Runs Unit Out Later (lift (send p link head)) (λ _. Later)
  unfolding send
  send-Later link head = Runs-lift (send p link head) λ w h. omega (arith, h, ip.after_lt w.now)

  sleep-Later : (d : ℕ) → Runs Unit Out Later (act (sleep_for p d)) (λ _. Later)
  unfolding sleep_for
  sleep-Later d = Runs-act (sleep_for p d) λ w h. omega (arith, h, ip.slept_le w.now d)

  -- What the answer to a wait tells.
  abbrev Woken : Option ℕ → World → Type 0
  Woken a w = Later w × ((state : ℕ) → a ≡ some state → Saw p (is_response p lo state) lo w)

  woken-Woken :
      (previous : ℕ) (w : World)
      → Asked previous w
      → (o : Option ℕ) → until w.now (is_answered previous) ≡ o
      → Holds Unit Out Woken (woken p c until o w)
  unfolding woken
  woken-Woken previous w h none e = tt
  woken-Woken previous w h (some t) e =
      let le = iu.until_le w.now (is_answered previous) t e in
      (
        omega (arith, le, h.0, ip.after_lt t),
        λ state same.
            let alive =
              alive_of (p.read t).running (p.read t).latest_charge_response_state state same in
            record {
              at = t;
              not_before = omega (arith, le, h.0);
              not_after = omega (arith, ip.after_lt t);
              seen =
                  subst (λ s. is_response p lo s (p.read t) ≡ true) alive.1
                    (response_new (p.read t).running (p.read t).latest_charge_response_state
                      (p.read lo).charge_response_seq previous (p.read t).charge_response_seq
                      alive.0 (iu.until_seen w.now (is_answered previous) t e) h.1);
            },
      )

  wait-Woken :
      (previous : ℕ)
      → Runs Unit Out (Asked previous) (wait_for_charge_response p c until previous) Woken
  unfolding wait_for_charge_response
  wait-Woken previous = record {
    at = λ w h. woken-Woken previous w h (until w.now (is_answered previous)) refl;
  }

  -- A response with this state was seen.
  abbrev Seen : ℕ → World → Type 0
  Seen state w = Later w × Saw p (is_response p lo state) lo w

  abbrev codes : List ℕ
  codes = cmd_heartbeat ∷ cmd_query_103 ∷ cmd_manual_mode ∷ []

  Seen-frame : (state : ℕ) → IsFrame codes lo (Seen state)
  Seen-frame state = record {
    stable = λ u v h x. (omega (arith, h.not_before, x.0), Saw-until h.not_before x.1);
    low = λ w x. x.0;
  }

  settled-Holds :
      (Q : Bool → World → Type 0) (x : Flow ActionResult Bool × World)
      → Holds Unit (λ r w. ⊥) Q x
      → Holds Unit Out Q (taken (settled x))
  unfolding taken settled
  settled-Holds Q (next b, w) h = h
  settled-Holds Q (exit r, w) h = absurd h
  settled-Holds Q (starved, w) h = tt

  switch-Answered :
      (state : ℕ)
      → Runs Unit Out
          (Seen state)
          (switch_to_manual_mode_after_charge p c until)
          (λ b w. Seen state w × (b ≡ true → Saw p is_manual lo w))
  unfolding switch_to_manual_mode_after_charge
  switch-Answered state = record {
    at = λ w h. settled-Holds _ (ensure_manual_mode p c w) (
        (ensure_manual_mode-Answered p c ip ic Unit (λ r w. ⊥) codes lo (λ code e. ground arith)
            (λ code e. ground arith) (Seen state) (Seen-frame state)).at
          w h);
  }

  accept-Out :
      (state : ℕ)
      → is_expected_charge_state_for_command command state ≡ true
      → Runs Unit Out (Seen state) (accept p c until command state) Out
  unfolding accept
  accept-Out state e =
      Runs-bind
        (λ b w. Seen state w × (b ≡ true → is_stop_command command ≡ true → Saw p is_manual lo w)) _
        _
        (Runs-if (is_stop_command command) _ _
          (λ f. Runs-post (λ b w h. (h.0, λ x y. h.1 x)) (switch-Answered state))
          (λ f. Runs-pure true λ w h. (h, λ x y. absurd (cc (f, y)))))
        λ manual.
          Runs-if manual _ _
            (λ f.
              Runs-pure (answered true state "Charge command accepted.")
                λ w h x. record { expected = e; response = h.0.1; manual = h.1 f })
            (λ f.
              Runs-pure
                (answered false state
                  "Charge STOP succeeded, but robot did not confirm manual mode.")
                λ w h x. absurd (cc x))

  module _ (again : ℕ → ℕ → World → Flow ChargeCommandResult ChargeCommandResult × World)
      (good : (previous state : ℕ)
        → Runs Unit Out (Asked previous) (again previous state) Out) where
    responded-Out :
        (state : ℕ) → Runs Unit Out (Seen state) (responded p c until command again state) Out
    unfolding responded ask_charge_state
    responded-Out state =
        Runs-if (is_expected_charge_state_for_command command state) _ _ (λ e. accept-Out state e)
          λ _.
            Runs-if (is_failure_charge_state state) _ _
              (λ _.
                Runs-pure (answered false state "Charge manager reported a failure state.")
                  λ w h x. absurd (cc x))
              λ _.
                Runs-if (command == 0 || is_stop_command command) _ _
                  (λ _.
                    Runs-pre (λ w h. h.0)
                      (Keeps-bind _ _ (sleep-Later _) λ _.
                        Runs-bind Asked _ _ look-Asked λ previous.
                          Keeps-bind _ _ (send-Asked previous _ _) λ sent.
                            Runs-if sent _ _ (λ _. good previous state)
                              (λ _.
                                Runs-pure
                                  (answered false state
                                    "Failed to query charge state after command.")
                                  λ w h x. absurd (cc x))))
                  (λ _.
                    Runs-pure
                      (answered false state
                        "Charge manager responded, but state did not match the command.")
                      λ w h x. absurd (cc x))

    with_response-Out :
        (a : Option ℕ) → Runs Unit Out (Woken a) (with_response p c until command again a) Out
    unfolding with_response
    with_response-Out none =
        Runs-pure (failed_at "interrupted" "Charge wait was interrupted by node shutdown.")
          λ w h x. absurd (cc x)
    with_response-Out (some state) = Runs-pre (λ w h. (h.0, h.1 state refl)) (responded-Out state)

  charge_loop-Out :
      (rounds previous state : ℕ)
      → Runs Unit Out (Asked previous) (charge_loop p c until rounds command previous state) Out
  unfolding charge_loop
  charge_loop-Out zero previous state = Runs-starve λ w h. tt
  charge_loop-Out (suc rounds) previous state =
      Runs-bind (λ _. Asked previous) _ _ (look_on-Asked previous)
        λ running.
          Runs-if running _ _
            (λ _.
              Runs-bind Woken _ _ (wait-Woken previous)
                (with_response-Out (charge_loop p c until rounds command) (charge_loop-Out rounds)))
            (λ _.
              Runs-pure (answered false state "Charge wait was interrupted.")
                λ w h x. absurd (cc x))

  suppressed-Later :
      Runs Unit Out Later (λ w. taken (execute_suppressed (force_stand_up p c) w)) (λ _. Later)
  unfolding execute_suppressed enter_cmd_vel_suppression exit_cmd_vel_suppression taken
  suppressed-Later = record {
    at = λ w h.
        let (r, w', e, later) = force_stand_returns p c ip ic (enter_cmd_vel_suppression w) in
        subst (λ x. Holds Unit Out (λ _. Later) (taken (x.0, exit_cmd_vel_suppression x.1))) (sym e)
          (omega (arith, h, later.not_before));
  }

  prepare_start-Later : Runs Unit Out Later (prepare_start p c until) (λ _. Later)
  unfolding prepare_start
  prepare_start-Later = Keeps-bind _ _ (look-Later _) λ rl.
      Keeps-bind _ _ (Runs-if rl _ _ (λ _. suppressed-Later) (λ _. Runs-pure _ λ w h. h)) λ left.
        Keeps-bind _ _ (Runs-require left.success _ (λ w e h. h) (λ w e h x. absurd (cc x))) λ _.
          Keeps-bind _ _ (send-Later _ _) λ sent.
            Keeps-bind _ _ (Runs-require sent _ (λ w e h. h) (λ w e h x. absurd (cc x)))
              λ _. sleep-Later _

  charge_with-Out :
      (rounds : ℕ) (o : Option (ℕ × ℤ))
      → Runs Unit Out Later (charge_with p c until rounds command o) Out
  unfolding charge_with
  charge_with-Out rounds none = Runs-pure _ λ w h x. absurd (cc x)
  charge_with-Out rounds (some (code, value)) =
      Keeps-bind _ _
        (Runs-if (command == 0) _ _ (λ _. prepare_start-Later) (λ _. Runs-pure tt λ w h. h))
        λ _. Runs-bind Asked _ _ look-Asked λ previous.
          Keeps-bind _ _ (send-Asked previous _ _) λ sent.
            Keeps-bind _ _ (Runs-require sent _ (λ w e h. h) (λ w e h x. absurd (cc x)))
              λ _. charge_loop-Out rounds previous charge_state_idle

-- With a platform whose clock moves on with every statement and whose waits and sleeps take their
-- time, and with callbacks that keep what the executor relies on: with waits that end when they
-- see what they wait for and responses that are counted up: where executeChargeCommand answers
-- with success, however many rounds are followed, the charge manager has sent a response that is
-- newer than all there were at the call, with a state that the command expects and that the answer
-- gives, and after a stop or an undock command the robot was seen out of navigation mode.
pub execute_charge_command-Reported :
    (p : Platform) (c : Callbacks) (until : ℕ → (Reading → Bool) → Option ℕ)
    → IsPlatform p
    → IsCallbacks c
    → IsUntil p until
    → IsCounting p
    → (rounds command : ℕ) (w w' : World) (r : ChargeCommandResult)
    → execute_charge_command p c until rounds command w ≡ (some r, w')
    → r.success ≡ true
    → Reported p w.now command r w'
unfolding execute_charge_command
execute_charge_command-Reported p c until ip ic iu counting rounds command w w' r e s =
    Holds-call Unit (Out p c until ip ic iu counting w.now command)
      (charge_with p c until rounds command (charge_switch command)) w
      ((charge_with-Out p c until ip ic iu counting w.now command rounds (charge_switch command)).at
        w (omega arith))
      e s
