-- ===== src/X30/Services/Stands.antt =====
-- src/x30/x30_nav_bridge.cpp: runs of `handleStandRequest`.
use mathlib.Core.Path.{subst, sym}
use nav_bridge.Prelude.{
  ℕ, ◌≡◌, refl, ap, ◌∙◌, Option, some, true, false, List, [], ◌∷◌, arith, if◌then◌else◌,
}
use nav_bridge.Prelude.Exec.{
  Holds, Runs, Runs-pure, Runs-if, Runs-bind, Runs-pre, pure, ◌>>=◌, enclose, Holds-enclose,
}
use nav_bridge.X30.Protocol.{cmd_heartbeat, cmd_query_103, cmd_manual_mode}
use nav_bridge.X30.Platform.{Platform, IsPlatform, World, ActionResult, result}
use nav_bridge.X30.Control.{Config, enter_cmd_vel_suppression, exit_cmd_vel_suppression}
use nav_bridge.X30.Executor.{Callbacks}
use nav_bridge.X30.Executor.Rules.{
  IsLater, IsLater-trans, IsLater-mono, Includes, Saw, Saw-later, Saw-until, IsCallbacks,
}
use nav_bridge.X30.Executor.Steps.{IsFrame, Answered}
use nav_bridge.X30.Executor.Actions.{Ended, Finishes, Holds-Finishes}
use nav_bridge.X30.Executor.Stand.{stand, is_stand_target_gait, stand_target_gait_command}
use nav_bridge.X30.Executor.Stand.Reaches.{stand_codes, Ready, stand-Finishes}
use nav_bridge.X30.Manual.{ensure_manual_mode}
use nav_bridge.X30.Manual.Reaches.{is_manual, ensure_manual_mode-Answered}
use nav_bridge.X30.Services.{execute_suppressed, stand_and_confirm, handle_stand_request}
use Prim.Native.String.{String}

abbrev pub stand_request_codes : ℕ → List ℕ
stand_request_codes command = cmd_manual_mode ∷ stand_codes command

base_codes :
    (command : ℕ) → Includes (cmd_heartbeat ∷ cmd_query_103 ∷ []) (stand_request_codes command)
base_codes command code e = ground arith

manual_code : (command : ℕ) → Includes (cmd_manual_mode ∷ []) (stand_request_codes command)
manual_code command code e = ground arith

stand_include : (command : ℕ) → Includes (stand_codes command) (stand_request_codes command)
stand_include command code e = ground arith

-- Between `w` and `w'`, in whatever order, the store held RL mode, it held the target gait, and the
-- robot was seen out of navigation mode.
abbrev pub Confirmed : Platform → ℕ → World → World → Type 0
Confirmed p target w w' = Ready p target w w' × Saw p is_manual w.now w'

module _ (p : Platform) (c : Callbacks) (ip : IsPlatform p) (ic : IsCallbacks c)
    (target command : ℕ) (w₀ : World) where
  abbrev codes : List ℕ
  codes = stand_request_codes command

  abbrev Out : ActionResult → World → Type 0
  Out = Ended codes w₀ (Confirmed p target w₀)

  -- After `stand` has reported success.
  abbrev Stood : World → Type 0
  Stood w = IsLater codes w₀ w × Ready p target w₀ w

  frame : IsFrame codes w₀.now Stood
  frame = record {
    stable = λ u v h x. (IsLater-trans x.0 h, (Saw-later h x.1.0, Saw-later h x.1.1));
    low = λ w x. x.0.not_before;
  }

  confirm-Out :
      (stood : ActionResult)
      → Runs ⊥ Out Stood
          (ensure_manual_mode p c >>= λ manual.
            if manual
            then pure stood
            else pure (result false "Stand succeeded, but robot did not confirm manual mode."))
          Out
  confirm-Out stood =
      Runs-bind (Answered p w₀.now Stood is_manual) _ _
        (ensure_manual_mode-Answered p c ip ic ⊥ Out codes w₀.now (base_codes command)
          (manual_code command) Stood frame)
        λ manual.
          Runs-if manual _ _ (λ e. Runs-pure stood λ w h. (h.0.0, λ _. (h.0.1, h.1 e)))
            (λ _. Runs-pure _ λ w h. (h.0.0, λ e. cc))

  after_stand :
      (stood : ActionResult)
      → Runs ⊥ Out
          (Ended (stand_codes command) w₀ (Ready p target w₀) stood)
          (if stood.success
            then (ensure_manual_mode p c >>= λ manual.
                if manual
                then pure stood
                else pure (result false "Stand succeeded, but robot did not confirm manual mode."))
            else pure stood)
          Out
  after_stand stood =
      Runs-if stood.success _ _
        (λ e.
          Runs-pre {P = Stood} (λ w h. (IsLater-mono (stand_include command) h.0, h.1 e))
            (confirm-Out stood))
        (λ e. Runs-pure stood λ w h. (IsLater-mono (stand_include command) h.0, λ e'. cc))

stand_and_confirm-Finishes :
    (p : Platform) (c : Callbacks)
    → IsPlatform p
    → IsCallbacks c
    → (target : ℕ) {command : ℕ} {name : String} → is_stand_target_gait target ≡ true
    → stand_target_gait_command target ≡ some (command, name)
    → (w : World)
    → Finishes (stand_request_codes command) (Confirmed p target w) (stand_and_confirm p c target) w
unfolding stand_and_confirm
stand_and_confirm-Finishes p c ip ic target {command} t e w =
    let done = stand-Finishes p c ip ic target t e w in
    Holds-Finishes (stand_and_confirm p c target) (
      (Runs-bind {P = λ u. u ≡ w} (Ended (stand_codes command) w (Ready p target w)) _ _
          record {
            at = λ u h.
                subst
                  (λ v.
                    Holds ⊥ (Ended (stand_request_codes command) w (Confirmed p target w))
                      (Ended (stand_codes command) w (Ready p target w))
                      (enclose (stand p c target) v))
                  (sym h)
                  (Holds-enclose ⊥ _ _ (stand p c target) w done.returns
                    (done.later, done.confirmed));
          }
          λ stood. after_stand p c ip ic target command w stood).at
        w refl)

module _ (p : Platform) (c : Callbacks) (ip : IsPlatform p) (ic : IsCallbacks c) (cfg : Config)
    {command : ℕ} {name : String} (accepted : is_stand_target_gait cfg.stand_target_gait ≡ true)
    (known : stand_target_gait_command cfg.stand_target_gait ≡ some (command, name))
    (w : World) where
  -- With a platform whose clock moves on with every statement and whose waits and sleeps take
  -- their time, and with callbacks that keep what the executor relies on: handleStandRequest, with
  -- a target gait that stand accepts, answers, whatever the robot does; it has sent no packet but
  -- heartbeats, queries, the posture commands, the command of the gait and the one for manual
  -- mode, and the depth of the suppression is what it was at the call.
  pub stand_request_returns :
      (r : ActionResult) × (w' : World) × (handle_stand_request p c cfg w ≡ (some r, w'))
      × IsLater (stand_request_codes command) w w'
  unfolding handle_stand_request execute_suppressed enter_cmd_vel_suppression
      exit_cmd_vel_suppression
  stand_request_returns =
      let done =
        stand_and_confirm-Finishes p c ip ic cfg.stand_target_gait accepted known
          (enter_cmd_vel_suppression w) in
      (
        done.answer,
        exit_cmd_vel_suppression done.after,
        rw done.returns refl,
        record {
          not_before = done.later.not_before;
          only = done.later.only;
          suppression = omega (arith, done.later.suppression);
        },
      )

  -- With a platform whose clock moves on with every statement and whose waits and sleeps take
  -- their time, and with callbacks that keep what the executor relies on: where
  -- handleStandRequest, with a target gait that stand accepts, answers with success, the store has
  -- held RL mode, it has held the target gait, and the robot was not in navigation mode, each at
  -- an instant between the call and the answer.
  pub stand_request-Confirmed :
      (w' : World) (r : ActionResult)
      → handle_stand_request p c cfg w ≡ (some r, w')
      → r.success ≡ true
      → Confirmed p cfg.stand_target_gait w w'
  unfolding handle_stand_request execute_suppressed enter_cmd_vel_suppression
      exit_cmd_vel_suppression
  stand_request-Confirmed w' r e s =
      let done =
        stand_and_confirm-Finishes p c ip ic cfg.stand_target_gait accepted known
          (enter_cmd_vel_suppression w) in
      let handled : handle_stand_request p c cfg w
          ≡ (some done.answer, exit_cmd_vel_suppression done.after) =
        rw done.returns refl in
      let same : ◌≡◌ {A = Option ActionResult × World}
          (some done.answer, exit_cmd_vel_suppression done.after) (some r, w') =
        sym handled ∙ e in
      let seen = done.confirmed (cc (same, s)) in
      subst (Confirmed p cfg.stand_target_gait w) (ap (λ x. x.1) same) (
        (Saw-until (omega arith) seen.0.0, Saw-until (omega arith) seen.0.1),
        Saw-until (omega arith) seen.1,
      )
