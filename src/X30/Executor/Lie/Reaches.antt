-- ===== src/X30/Executor/Lie/Reaches.antt =====
-- src/x30/action_executor.cpp: runs of `ActionExecutor::lieDown`.
use nav_bridge.Prelude.{
  ℕ, zero, suc, ◌≡◌, Bool, true, false, ◌||◌, ◌+◌, ◌*◌, some, List, [], ◌∷◌, arith, leb,
  if◌then◌else◌,
}
use Prim.Native.String.{String}
use nav_bridge.Prelude.Exec.{
  Exec, Runs, ◌>>=◌, ◌>>◌, pure, lift, leave, require, Runs-pure, Runs-leave, Runs-starve, Runs-if,
  Runs-bind, Runs-pre, Keeps-bind, Holds-call, call,
}
use nav_bridge.X30.Protocol.{
  cmd_heartbeat, cmd_query_103, cmd_stand_up_down, cmd_motion, lying_down, going_down, soft_estop,
  rl_mode, initial_stand, force_stand, stepping,
}
use nav_bridge.X30.Store.{is_basic, basic_matches}
use nav_bridge.X30.Platform.{
  Platform, IsPlatform, Reading, World, ActionResult, result, tick, read_clock,
  wait_for_basic_state,
}
use nav_bridge.X30.Executor.Rules.{IsLater, IsLater-refl, Includes, Saw, Saw-map, IsCallbacks}
use nav_bridge.X30.Executor.Steps.{
  IsFrame, Answered, basic_state-Saw, read_clock-Keeps, basic_wait-Answered, sleep_for-Keeps,
}
use nav_bridge.X30.Executor.Commands.{single_command-Answered}
use nav_bridge.X30.Executor.Actions.{Ended, Proceeds, Later-frame, proceeds, require-Saw}
use nav_bridge.X30.Control.{control_warmup_ms}
use nav_bridge.X30.Executor.{Callbacks, send_single_command_and_wait, single_command_timeout_ms}
use nav_bridge.X30.Executor.Lie.{
  lie_down, lied, await_ground, stop_stepping, lie_at_once, leave_rl, settle_round, settle_loop,
  settle, go_down, lie_final_wait_ms, lie_stand_settle_ms, lie_stand_settle_poll_ms,
}

abbrev pub lie_codes : List ℕ
lie_codes = cmd_heartbeat ∷ cmd_query_103 ∷ cmd_stand_up_down ∷ cmd_motion ∷ []

base_codes : Includes (cmd_heartbeat ∷ cmd_query_103 ∷ []) lie_codes
base_codes code e = ground arith

stand_code : Includes (cmd_stand_up_down ∷ []) lie_codes
stand_code code e = ground arith

motion_code : Includes (cmd_motion ∷ []) lie_codes
motion_code code e = ground arith

ruleset lie_rules = (proceeds, base_codes, stand_code, motion_code)

-- Between `w` and `w'`, the robot was seen lying down.
abbrev pub Lying : Platform → World → World → Type 0
Lying p w w' = Saw p (λ r. is_basic lying_down r.basic_state) w.now w'

module _ (p : Platform) (c : Callbacks) (ip : IsPlatform p) (ic : IsCallbacks c) (S : Type 0)
    (w₀ : World) where
  abbrev Going : {A : Type 0} → Exec World ActionResult A → Type 0
  Going {A} m = Proceeds p c ip ic lie_codes base_codes S w₀ (Lying p w₀) {A = A} m

  frame : IsFrame lie_codes w₀.now (IsLater lie_codes w₀)
  frame = Later-frame lie_codes w₀

  abbrev grounded : Reading → Bool
  grounded r = basic_matches (lying_down ∷ []) r.store

  grounded-Lying : (w : World) → Saw p grounded w₀.now w → Lying p w₀ w
  grounded-Lying w = Saw-map λ r e. ground arith

  wait-Proceeds :
      {A : Type 0} (d : ℕ) (m : String) (r : ActionResult)
      → Going (
          lift (wait_for_basic_state p (lying_down ∷ []) d) >>= λ down.
          require down (result false m) >> leave {A = A} r)
  wait-Proceeds d m r =
      Runs-bind (Answered p w₀.now (IsLater lie_codes w₀) grounded) _ _
        (basic_wait-Answered p c ip S _ _ _ _ frame (lying_down ∷ []) d)
        λ down. require-Saw p grounded lie_codes S w₀ (Lying p w₀) grounded-Lying down m r

  ground-Proceeds : {A : Type 0} (d : ℕ) → Going (await_ground p c {A = A} d)
  unfolding await_ground
  ground-Proceeds d = wait-Proceeds d _ _

  stop-Proceeds : Going (stop_stepping p c)
  unfolding stop_stepping
  stop-Proceeds = search lie_rules depth 10

  recover-Proceeds :
      {A : Type 0} (d warmup_ms : ℕ) (m : String) (r : ActionResult)
      → Going (
          send_single_command_and_wait p c cmd_stand_up_down (lying_down ∷ []) d warmup_ms
          >>= λ down. require down (result false m) >> leave {A = A} r)
  recover-Proceeds d warmup_ms m r =
      Runs-bind (Answered p w₀.now (IsLater lie_codes w₀) grounded) _ _
        (single_command-Answered p c ip ic S _ _ _ base_codes _ stand_code (lying_down ∷ []) _ frame
          _ _)
        λ down. require-Saw p grounded lie_codes S w₀ (Lying p w₀) grounded-Lying down m r

  busy-Proceeds :
      {A : Type 0} {m n : Exec World ActionResult A} (a b : Bool) (k : A)
      → Going m
      → Going n
      → Going (if a then m else if b then n else pure k)
  busy-Proceeds a b k h h' =
      Runs-if a _ _ (λ _. h) λ _. Runs-if b _ _ (λ _. h') (λ _. Runs-pure k λ w x. x)

  -- Success without a command rests on the state that was read.
  at_once-Proceeds :
      (state : ℕ)
      → Runs S
          (Ended lie_codes w₀ (Lying p w₀))
          (Answered p w₀.now
            (IsLater lie_codes w₀)
            (λ r. is_basic lying_down r.basic_state)
            (is_basic lying_down state))
          (lie_at_once p c state)
          (λ _. IsLater lie_codes w₀)
  unfolding lie_at_once
  at_once-Proceeds state =
      Runs-if (is_basic lying_down state) _ _ (λ e. Runs-leave _ λ w h. (h.0, λ _. h.1 e))
        λ e.
          Runs-pre {P = IsLater lie_codes w₀} (λ w h. h.0)
            (busy-Proceeds (is_basic going_down state) (is_basic soft_estop state) tt
              (wait-Proceeds 5000 "Timeout waiting for lie down." lied)
              (recover-Proceeds single_command_timeout_ms control_warmup_ms
                "Timeout recovering from estop." (result true "Robot recovered and lied down.")))

  -- What `lieDown` does with a state that it reads on the way.
  seen-Proceeds :
      (state : ℕ)
      → Runs S
          (Ended lie_codes w₀ (Lying p w₀))
          (Answered p w₀.now
            (IsLater lie_codes w₀)
            (λ r. is_basic lying_down r.basic_state)
            (is_basic lying_down state))
          (if is_basic lying_down state
            then leave lied
            else if is_basic going_down state
            then await_ground p c lie_final_wait_ms
            else pure tt)
          (λ _. IsLater lie_codes w₀)
  seen-Proceeds state =
      Runs-if (is_basic lying_down state) _ _ (λ e. Runs-leave _ λ w h. (h.0, λ _. h.1 e))
        λ e.
          Runs-pre {P = IsLater lie_codes w₀} (λ w h. h.0)
            (Runs-if (is_basic going_down state) _ _ (λ _. ground-Proceeds lie_final_wait_ms)
              (λ _. Runs-pure tt λ w h. h))

  leave_rl-Proceeds : (state : ℕ) → Going (leave_rl p c state)
  unfolding leave_rl
  leave_rl-Proceeds state =
      Runs-if (is_basic rl_mode state) _ _
        (λ _. Keeps-bind _ _ (search lie_rules) λ left. Keeps-bind _ _ (search lie_rules) λ _.
          Runs-bind
            (λ now.
              Answered p w₀.now (IsLater lie_codes w₀) (λ r. is_basic lying_down r.basic_state)
                (is_basic lying_down now))
            _ _ (basic_state-Saw p c ip S _ _ _ _ frame (is_basic lying_down)) seen-Proceeds)
        (λ _. Runs-pure tt λ w h. h)

  restart-Proceeds : Going (
      stop_stepping p c
      >> (lift (read_clock p) >>= λ later. pure (later + lie_stand_settle_ms * tick)))
  restart-Proceeds = search (lie_rules, stop-Proceeds)

  settle_loop-Proceeds : S → (polls deadline : ℕ) → Going (settle_loop p c polls deadline)
  unfolding settle_loop settle_round
  settle_loop-Proceeds given zero deadline = Runs-starve λ w h. given
  settle_loop-Proceeds given (suc polls) deadline =
      Keeps-bind _ _ (read_clock-Keeps p c ip S _ _ _ _ frame) λ now.
        Runs-if (leb deadline now) _ _ (λ _. Runs-pure tt λ w h. h)
          λ _.
            Runs-bind
              (λ state.
                Answered p w₀.now (IsLater lie_codes w₀) (λ r. is_basic lying_down r.basic_state)
                  (is_basic lying_down state))
              _ _ (basic_state-Saw p c ip S _ _ _ _ frame (is_basic lying_down))
              λ state.
                Runs-bind (λ _. IsLater lie_codes w₀) _ _ (seen-Proceeds state)
                  λ _.
                    Keeps-bind _ _
                      (Runs-if (is_basic stepping state) _ _ (λ _. restart-Proceeds)
                        (λ _. Runs-pure deadline λ w h. h))
                      λ later.
                        Keeps-bind _ _
                          (sleep_for-Keeps p c ip S _ _ _ _ frame lie_stand_settle_poll_ms)
                          λ _. settle_loop-Proceeds given polls later

  settle-Proceeds : S → (polls state : ℕ) → Going (settle p c polls state)
  unfolding settle
  settle-Proceeds given polls state =
      Runs-if (is_basic force_stand state || is_basic initial_stand state) _ _
        (λ _. Keeps-bind _ _ (search lie_rules) λ now. settle_loop-Proceeds given polls _)
        (λ _. Runs-pure tt λ w h. h)

  go_down-Ended :
      Runs S
        (Ended lie_codes w₀ (Lying p w₀))
        (IsLater lie_codes w₀)
        (go_down p c)
        (Ended lie_codes w₀ (Lying p w₀))
  unfolding go_down await_ground
  go_down-Ended = Keeps-bind _ _ (search lie_rules) λ responded.
      Keeps-bind _ _ (search lie_rules) λ _.
        Runs-bind (Answered p w₀.now (IsLater lie_codes w₀) grounded) _ _
          (basic_wait-Answered p c ip S _ _ _ _ frame (lying_down ∷ []) lie_final_wait_ms)
          λ down. require-Saw p grounded lie_codes S w₀ (Lying p w₀) grounded-Lying down _ _

  lie_down-Ended :
      S
      → (polls : ℕ)
      → Runs S
          (Ended lie_codes w₀ (Lying p w₀))
          (IsLater lie_codes w₀)
          (lie_down p c polls)
          (Ended lie_codes w₀ (Lying p w₀))
  unfolding lie_down
  lie_down-Ended given polls =
      Runs-bind
        (λ state.
          Answered p w₀.now (IsLater lie_codes w₀) (λ r. is_basic lying_down r.basic_state)
            (is_basic lying_down state))
        _ _ (basic_state-Saw p c ip S _ _ _ _ frame (is_basic lying_down))
        λ state.
          Runs-bind (λ _. IsLater lie_codes w₀) _ _ (at_once-Proceeds state)
            λ _. Keeps-bind _ _ (leave_rl-Proceeds state) λ _.
              Keeps-bind _ _ (search lie_rules) λ moving.
                Keeps-bind _ _ (search (lie_rules, stop-Proceeds)) λ _.
                  Keeps-bind _ _ (search lie_rules) λ standing.
                    Keeps-bind _ _ (settle-Proceeds given polls standing) λ _. go_down-Ended

lie_down-both :
    (p : Platform) (c : Callbacks)
    → IsPlatform p
    → IsCallbacks c
    → (polls : ℕ) (w w' : World) (r : ActionResult) → call (lie_down p c polls) w ≡ (some r, w')
    → Ended lie_codes w (Lying p w) r w'
lie_down-both p c ip ic polls w w' r e =
    Holds-call Unit _ (lie_down p c polls) w
      ((lie_down-Ended p c ip ic Unit w tt polls).at w (IsLater-refl lie_codes w)) e

-- With a platform whose clock moves on with every statement and whose waits and sleeps take their
-- time, and with callbacks that keep what the executor relies on: where lieDown returns, whatever
-- the number of polls that are followed, it has sent no packet but heartbeats, queries, the
-- posture command and the motion command, time has not gone back, and the suppression of /cmd_vel
-- is as it was.
pub lie_down-IsLater :
    (p : Platform) (c : Callbacks)
    → IsPlatform p
    → IsCallbacks c
    → (polls : ℕ) (w w' : World) (r : ActionResult) → call (lie_down p c polls) w ≡ (some r, w')
    → IsLater lie_codes w w'
lie_down-IsLater p c ip ic polls w w' r e = (lie_down-both p c ip ic polls w w' r e).0

-- With a platform whose clock moves on with every statement and whose waits and sleeps take their
-- time, and with callbacks that keep what the executor relies on: where lieDown returns with
-- success, whatever the number of polls that are followed, the store has held lying down at an
-- instant between the call and the return.
pub lie_down-Lying :
    (p : Platform) (c : Callbacks)
    → IsPlatform p
    → IsCallbacks c
    → (polls : ℕ) (w w' : World) (r : ActionResult) → call (lie_down p c polls) w ≡ (some r, w')
    → r.success ≡ true
    → Lying p w w'
lie_down-Lying p c ip ic polls w w' r e s = (lie_down-both p c ip ic polls w w' r e).1 s
