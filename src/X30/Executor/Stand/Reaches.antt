-- ===== src/X30/Executor/Stand/Reaches.antt =====
-- src/x30/action_executor.cpp: runs of `ActionExecutor::stand`.
use nav_bridge.Prelude.{
  ℕ, ◌≡◌, Bool-cases, inl, inr, Bool, true, false, some, List, [], ◌∷◌, arith, ◌==◌,
}
use nav_bridge.Prelude.Exec.{
  Exec, ◌>>=◌, Holds, Runs, Runs-pure, Runs-if, Runs-bind, Runs-pre, Keeps-bind, Runs-require, call,
}
use nav_bridge.X30.Protocol.{
  cmd_heartbeat, cmd_query_103, cmd_stand_up_down, cmd_force_control, cmd_motion, rl_mode,
}
use nav_bridge.X30.Store.{is_basic}
use nav_bridge.X30.Platform.{Platform, IsPlatform, Reading, World, ActionResult}
use nav_bridge.X30.Executor.Rules.{IsLater, IsLater-refl, Includes, Saw, Saw-map, IsCallbacks}
use nav_bridge.X30.Executor.Steps.{
  IsFrame, Answered, Answered-frame, basic_state-Saw, gait_state-Saw, state_wait-Answered,
}
use nav_bridge.X30.Executor.Actions.{
  Ended, Finishes, Holds-Finishes, Finishes-Goal, Proceeds, Later-frame, proceeds,
}
use nav_bridge.X30.Executor.{Callbacks}
use nav_bridge.X30.Executor.Stand.{
  stand, bad_target, stand_target_gait_command, stand_target_gait_command-total,
  is_stand_target_gait, recover_from_estop, rise, enter_force_stand, start_motion, switch_to_target,
  stand_with, in_target,
}
use Prim.Native.String.{String}

-- The codes of a `stand` whose target gait has the code `command`.
abbrev pub stand_codes : ℕ → List ℕ
stand_codes command =
    cmd_heartbeat ∷ cmd_query_103 ∷ cmd_stand_up_down ∷ cmd_force_control ∷ cmd_motion ∷ command
    ∷ []

base_codes : (command : ℕ) → Includes (cmd_heartbeat ∷ cmd_query_103 ∷ []) (stand_codes command)
base_codes command code e = ground arith

stand_code : (command : ℕ) → Includes (cmd_stand_up_down ∷ []) (stand_codes command)
stand_code command code e = ground arith

force_code : (command : ℕ) → Includes (cmd_force_control ∷ []) (stand_codes command)
force_code command code e = ground arith

motion_code : (command : ℕ) → Includes (cmd_motion ∷ []) (stand_codes command)
motion_code command code e = ground arith

target_code : (command : ℕ) → Includes (command ∷ []) (stand_codes command)
target_code command code e = ground arith

ruleset stand_rules = (proceeds, base_codes, stand_code, force_code, motion_code, target_code)

-- Between `w` and `w'`, RL mode was seen, and the target gait was seen.
abbrev pub Ready : Platform → ℕ → World → World → Type 0
Ready p target w w' =
    Saw p (λ r. is_basic rl_mode r.basic_state) w.now w'
    × Saw p (λ r. r.gait_state == target) w.now w'

module _ (p : Platform) (c : Callbacks) (ip : IsPlatform p) (ic : IsCallbacks c)
    (target command : ℕ) (w₀ : World) where
  abbrev Going : {A : Type 0} → Exec World ActionResult A → Type 0
  Going {A} m =
      Proceeds p c ip ic (stand_codes command) (base_codes command) ⊥ w₀ (Ready p target w₀) {A = A}
        m

  recover-Proceeds : Going (recover_from_estop p c)
  unfolding recover_from_estop
  recover-Proceeds = search stand_rules depth 12

  rise-Proceeds : (state : ℕ) → Going (rise p c state)
  unfolding rise
  rise-Proceeds state = search stand_rules depth 12

  force-Proceeds : Going (enter_force_stand p c)
  unfolding enter_force_stand
  force-Proceeds = search stand_rules depth 12

  start-Proceeds : (state : ℕ) → Going (start_motion p c state)
  unfolding start_motion
  start-Proceeds state = search stand_rules depth 14

  -- Both ways of the last step: the target is read, or it is waited for.
  switch-Ready :
      (name : String)
      → Runs ⊥
          (Ended (stand_codes command) w₀ (Ready p target w₀))
          (IsLater (stand_codes command) w₀)
          (switch_to_target p c target command name)
          (λ _ w. IsLater (stand_codes command) w₀ w × Ready p target w₀ w)
  unfolding switch_to_target
  switch-Ready name =
      Runs-bind (λ state. Answered p w₀.now Later is_rl (is_basic rl_mode state)) _ _
        (basic_state-Saw p c ip ⊥ _ codes _ _ frame (is_basic rl_mode))
        λ state.
          Runs-bind
            (λ gait.
              Answered p w₀.now (Answered p w₀.now Later is_rl (is_basic rl_mode state)) is_gait
                (gait == target))
            _ _
            (gait_state-Saw p c ip ⊥ _ codes _ _ (Answered-frame p is_rl _ frame)
              (λ g. g == target))
            λ gait.
              Runs-if (in_target target state gait) _ _
                (λ e. Runs-pure tt λ w h. (h.0.0, (h.0.1 (ground arith), h.1 (ground arith))))
                λ e.
                  Runs-pre (λ w h. h.0.0)
                    (Keeps-bind _ _ (start-Proceeds state) λ _.
                      Keeps-bind _ _ (search stand_rules) λ _.
                        Keeps-bind _ _ (search stand_rules) λ _.
                          Runs-bind
                            (Answered p w₀.now Later
                              (λ r. in_target target r.basic_state r.gait_state))
                            _ _
                            (state_wait-Answered p c ip ⊥ _ codes _ _ frame (in_target target) _)
                            λ ready.
                              Runs-require ready _
                                (λ w e h. (
                                  h.0,
                                  (
                                    Saw-map (λ r x. ground arith) (h.1 e),
                                    Saw-map (λ r x. ground arith) (h.1 e),
                                  ),
                                ))
                                (λ w e h. (h.0, λ x. cc)))
    where
      codes : List ℕ
      codes = stand_codes command

      Later : World → Type 0
      Later w = IsLater (stand_codes command) w₀ w

      frame : IsFrame (stand_codes command) w₀.now Later
      frame = Later-frame (stand_codes command) w₀

      is_rl : Reading → Bool
      is_rl r = is_basic rl_mode r.basic_state

      is_gait : Reading → Bool
      is_gait r = r.gait_state == target

  stand_with-Ended :
      (name : String)
      → Holds ⊥
          (Ended (stand_codes command) w₀ (Ready p target w₀))
          (Ended (stand_codes command) w₀ (Ready p target w₀))
          (stand_with p c target command name w₀)
  unfolding stand_with
  stand_with-Ended name =
      (Keeps-bind _ _ recover-Proceeds λ state. Keeps-bind _ _ (rise-Proceeds state) λ _.
          Keeps-bind _ _ force-Proceeds λ _.
            Runs-bind (λ _ w. IsLater (stand_codes command) w₀ w × Ready p target w₀ w) _ _
              (switch-Ready name) λ _. Runs-pure _ λ w h. (h.0, λ e. h.1)).at
        w₀ (IsLater-refl (stand_codes command) w₀)

-- With a target that `stand` accepts.
pub stand-Finishes :
    (p : Platform) (c : Callbacks)
    → IsPlatform p
    → IsCallbacks c
    → (target : ℕ) {command : ℕ} {name : String} → is_stand_target_gait target ≡ true
    → stand_target_gait_command target ≡ some (command, name)
    → (w : World) → Finishes (stand_codes command) (Ready p target w) (stand p c target) w
unfolding stand
stand-Finishes p c ip ic target {command = command} {name} e f w =
    Holds-Finishes (stand p c target) (rw (e, f) (stand_with-Ended p c ip ic target command w name))

-- With a platform whose clock moves on with every statement and whose waits and sleeps take their
-- time, and with callbacks that keep what the executor relies on: stand with a target gait that it
-- accepts returns, whatever the robot does, and it has sent no packet but heartbeats, queries, the
-- posture commands and the command of the target gait, and left the suppression of /cmd_vel as it
-- was.
pub stand_returns :
    (p : Platform) (c : Callbacks)
    → IsPlatform p
    → IsCallbacks c
    → (target : ℕ) {command : ℕ} {name : String} → is_stand_target_gait target ≡ true
    → stand_target_gait_command target ≡ some (command, name)
    → (w : World)
    → (r : ActionResult) × (w' : World) × (call (stand p c target) w ≡ (some r, w'))
      × IsLater (stand_codes command) w w'
stand_returns p c ip ic target e f w =
    let done = stand-Finishes p c ip ic target e f w in
    (done.answer, done.after, done.returns, done.later)

-- A target gait that stand does not accept is refused at once: nothing is sent and nothing is
-- read.
stand-bad_target :
    (p : Platform) (c : Callbacks) (target : ℕ) (w : World)
    → is_stand_target_gait target ≡ false
    → call (stand p c target) w ≡ (some bad_target, w)
unfolding stand ◌>>=◌
stand-bad_target p c target w t = rw t

-- With a platform whose clock moves on with every statement and whose waits and sleeps take their
-- time, and with callbacks that keep what the executor relies on: where stand returns with
-- success, the store has held RL mode, and it has held the target gait, at instants between the
-- call and the return.
pub stand-Ready :
    (p : Platform) (c : Callbacks)
    → IsPlatform p
    → IsCallbacks c
    → (target : ℕ) (w w' : World) (r : ActionResult) → call (stand p c target) w ≡ (some r, w')
    → r.success ≡ true
    → Ready p target w w'
unfolding stand
stand-Ready p c ip ic target w w' r e s = elim (Bool-cases (is_stand_target_gait target)) [
  | inl t ↦
      let (command, name, f) = stand_target_gait_command-total target t in
      Finishes-Goal (stand-Finishes p c ip ic target t f w) e s
  | inr t ↦ absurd (cc (stand-bad_target p c target w t, e, s))
]
