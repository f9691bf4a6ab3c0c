-- ===== src/X30/Executor/Force/Reaches.antt =====
-- src/x30/action_executor.cpp: runs of `ActionExecutor::forceStand`.
use nav_bridge.Prelude.{ℕ, ◌≡◌, Bool, true, some, List, [], ◌∷◌, arith}
use nav_bridge.Prelude.Exec.{
  Exec, Runs, Runs-pure, Runs-leave, Runs-if, Runs-bind, Runs-pre, Keeps-bind, Runs-require, call,
}
use nav_bridge.X30.Protocol.{
  cmd_heartbeat, cmd_query_103, cmd_stand_up_down, cmd_force_control, cmd_motion, cmd_gait_walk,
  force_stand,
}
use nav_bridge.X30.Store.{is_basic}
use nav_bridge.X30.Platform.{Platform, IsPlatform, Reading, World, ActionResult}
use nav_bridge.X30.Executor.Rules.{IsLater, IsLater-refl, Includes, Saw, IsCallbacks}
use nav_bridge.X30.Executor.Steps.{IsFrame, Answered, basic_state-Saw}
use nav_bridge.X30.Executor.Actions.{
  Ended, Finishes, Holds-Finishes, Finishes-Goal, Proceeds, Later-frame, proceeds,
}
use nav_bridge.X30.Executor.{Callbacks}
use nav_bridge.X30.Executor.Force.{
  force_stand_up, converge, recover_lying, rise_from_ground, back_to_walk, stop_motion,
  switch_to_force,
}

abbrev pub force_codes : List ℕ
force_codes =
    cmd_heartbeat ∷ cmd_query_103 ∷ cmd_stand_up_down ∷ cmd_gait_walk ∷ cmd_motion
    ∷ cmd_force_control ∷ []

base_codes : Includes (cmd_heartbeat ∷ cmd_query_103 ∷ []) force_codes
base_codes code e = ground arith

stand_code : Includes (cmd_stand_up_down ∷ []) force_codes
stand_code code e = ground arith

walk_code : Includes (cmd_gait_walk ∷ []) force_codes
walk_code code e = ground arith

motion_code : Includes (cmd_motion ∷ []) force_codes
motion_code code e = ground arith

force_code : Includes (cmd_force_control ∷ []) force_codes
force_code code e = ground arith

ruleset force_rules = (proceeds, base_codes, stand_code, walk_code, motion_code, force_code)

-- Between `w` and `w'`, force stand was seen.
abbrev pub Forced : Platform → World → World → Type 0
Forced p w w' = Saw p (λ r. is_basic force_stand r.basic_state) w.now w'

is_forced : Reading → Bool
is_forced r = is_basic force_stand r.basic_state

module _ (p : Platform) (c : Callbacks) (ip : IsPlatform p) (ic : IsCallbacks c) (w₀ : World) where
  abbrev Going : {A : Type 0} → Exec World ActionResult A → Type 0
  Going {A} m = Proceeds p c ip ic force_codes base_codes ⊥ w₀ (Forced p w₀) {A = A} m

  recover-Proceeds : (state : ℕ) → Going (recover_lying p c state)
  unfolding recover_lying
  recover-Proceeds state = search force_rules depth 12

  rise-Proceeds : (state : ℕ) → Going (rise_from_ground p c state)
  unfolding rise_from_ground
  rise-Proceeds state = search force_rules depth 14

  walk-Proceeds : (state : ℕ) → Going (back_to_walk p c state)
  unfolding back_to_walk
  walk-Proceeds state = search force_rules depth 16

  stop-Proceeds : (state : ℕ) → Going (stop_motion p c state)
  unfolding stop_motion
  stop-Proceeds state = search force_rules depth 12

  switch-Proceeds : (state : ℕ) → Going (switch_to_force p c state)
  unfolding switch_to_force
  switch-Proceeds state = search force_rules depth 12

  frame : IsFrame force_codes w₀.now (IsLater force_codes w₀)
  frame = Later-frame force_codes w₀

  converge-Ended :
      (first : ℕ)
      → Runs ⊥
          (Ended force_codes w₀ (Forced p w₀))
          (IsLater force_codes w₀)
          (converge p c first)
          (Ended force_codes w₀ (Forced p w₀))
  unfolding converge is_forced
  converge-Ended first = Keeps-bind _ _ (recover-Proceeds first) λ state.
      Keeps-bind _ _ (search force_rules) λ _. Keeps-bind _ _ (rise-Proceeds state) λ _.
        Keeps-bind _ _ (search force_rules) λ risen. Keeps-bind _ _ (walk-Proceeds risen) λ walking.
          Keeps-bind _ _ (stop-Proceeds walking) λ stopped.
            Keeps-bind _ _ (switch-Proceeds stopped) λ _.
              Runs-bind
                (λ final.
                  Answered p w₀.now (IsLater force_codes w₀) is_forced (is_basic force_stand final))
                _ _ (basic_state-Saw p c ip ⊥ _ _ _ _ frame (is_basic force_stand))
                λ final.
                  Runs-bind (λ _ w. IsLater force_codes w₀ w × Forced p w₀ w) _ _
                    (Runs-require _ _ (λ w e h. (h.0, h.1 e)) (λ w e h. (h.0, λ e'. cc)))
                    λ _. Runs-pure _ λ w h. (h.0, λ _. h.1)

force-Finishes :
    (p : Platform) (c : Callbacks)
    → IsPlatform p
    → IsCallbacks c
    → (w : World) → Finishes force_codes (Forced p w) (force_stand_up p c) w
unfolding force_stand_up is_forced
force-Finishes p c ip ic w = Holds-Finishes (force_stand_up p c) (
    (Runs-bind
        (λ state. Answered p w.now (IsLater force_codes w) is_forced (is_basic force_stand state)) _
        _ (basic_state-Saw p c ip ⊥ _ _ _ _ (Later-frame force_codes w) (is_basic force_stand))
        λ state.
          Runs-if (is_basic force_stand state) _ _ (λ e. Runs-leave _ λ w' h. (h.0, λ _. h.1 e))
            (λ e. Runs-pre (λ w' h. h.0) (converge-Ended p c ip ic w state))).at
      w (IsLater-refl force_codes w))

-- With a platform whose clock moves on with every statement and whose waits and sleeps take their
-- time, and with callbacks that keep what the executor relies on: forceStand returns, whatever the
-- robot does, and it has sent no packet but heartbeats, queries, the posture commands and the
-- command for the walking gait, and left the suppression of /cmd_vel as it was.
pub force_stand_returns :
    (p : Platform) (c : Callbacks)
    → IsPlatform p
    → IsCallbacks c
    → (w : World)
    → (r : ActionResult) × (w' : World) × (call (force_stand_up p c) w ≡ (some r, w'))
      × IsLater force_codes w w'
force_stand_returns p c ip ic w =
    let done = force-Finishes p c ip ic w in (done.answer, done.after, done.returns, done.later)

-- With a platform whose clock moves on with every statement and whose waits and sleeps take their
-- time, and with callbacks that keep what the executor relies on: where forceStand returns with
-- success, the store has held force stand at an instant between the call and the return.
pub force_stand-Forced :
    (p : Platform) (c : Callbacks)
    → IsPlatform p
    → IsCallbacks c
    → (w w' : World) (r : ActionResult) → call (force_stand_up p c) w ≡ (some r, w')
    → r.success ≡ true
    → Forced p w w'
force_stand-Forced p c ip ic w w' r e s = Finishes-Goal (force-Finishes p c ip ic w) e s
