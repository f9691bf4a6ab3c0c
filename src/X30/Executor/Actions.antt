-- ===== src/X30/Executor/Actions.antt =====
-- Triples for actions that report: what holds of every result that is returned, early or not.
use mathlib.Core.Path.{subst}
use nav_bridge.Prelude.{ℕ, ◌≡◌, sym, ◌∙◌, Option, none, some, Bool, true, false, List, [], ◌∷◌}
use nav_bridge.Prelude.Exec.{
  Exec, Holds, Holds-returned, call, Runs, pure, lift, act, require, leave, Runs-pure, Runs-leave,
  Runs-require, Runs-if, Runs-post, Runs-bind, Keeps-bind, ◌>>◌,
}
use nav_bridge.X30.Protocol.{BasicState, cmd_heartbeat, cmd_query_103}
use nav_bridge.X30.Platform.{
  Platform, IsPlatform, Reading, World, ActionResult, result, refuse, read_clock,
  wait_for_basic_state, wait_for_gait_state,
}
use nav_bridge.X30.Protocol.{GaitState}
use Prim.Native.String.{String}
use nav_bridge.X30.Executor.Rules.{IsLater, IsLater-trans, Includes, Saw, IsCallbacks}
use nav_bridge.X30.Executor.Steps.{
  IsFrame, Answered, read_clock-Keeps, basic_state-Keeps, gait_state-Keeps, basic_wait-Answered,
  gait_wait-Answered, takeover-Keeps, sender-Keeps,
}
use nav_bridge.X30.Executor.Commands.{single_command-Answered, toggle_command-Answered}
use nav_bridge.X30.Executor.{
  Callbacks, ensure_control_takeover, basic_state_now, gait_state_now, send_single_command_and_wait,
  send_toggle_command_with_retries,
}

pub Later-frame : (codes : List ℕ) (w₀ : World) → IsFrame codes w₀.now (IsLater codes w₀)
Later-frame codes w₀ = record { stable = λ u v h x. IsLater-trans x h; low = λ w h. h.not_before }

-- A result is returned later than `w₀`, and it reports success only where `Goal` holds.
abbrev pub Ended : List ℕ → World → (World → Type 0) → ActionResult → World → Type 0
Ended codes w₀ Goal r w = IsLater codes w₀ w × (r.success ≡ true → Goal w)

-- The guards let what is known stand.
pub refuse-Keeps :
    {S : Type 0} {E : ActionResult → World → Type 0} {P : World → Type 0} (o : Option String)
    → ((message : String) (w : World) → P w → E (result false message) w)
    → Runs S E P (refuse o) (λ _. P)
unfolding refuse
refuse-Keeps none h = record { at = λ w x. x }
refuse-Keeps (some message) h = record { at = λ w x. h message w x }

module _ (p : Platform) (c : Callbacks) (ip : IsPlatform p) (ic : IsCallbacks c) (codes : List ℕ)
    (base : Includes (cmd_heartbeat ∷ cmd_query_103 ∷ []) codes) (S : Type 0) (w₀ : World)
    (Goal : World → Type 0) where
  -- A routine after which the action goes on, with nothing new known.
  abbrev pub Proceeds : {A : Type 0} → Exec World ActionResult A → Type 0
  Proceeds m = Runs S (Ended codes w₀ Goal) (IsLater codes w₀) m (λ _. IsLater codes w₀)

  frame : IsFrame codes w₀.now (IsLater codes w₀)
  frame = Later-frame codes w₀

  pub pure-Proceeds : {A : Type 0} (a : A) → Proceeds (pure a)
  pure-Proceeds a = Runs-pure a λ w h. h

  -- An early return of a failure.
  pub require-Proceeds : (b : Bool) (m : String) → Proceeds (require b (result false m))
  require-Proceeds b m = Runs-require b _ (λ w e h. h) (λ w e h. (h, λ e'. cc))

  pub clock-Proceeds : Proceeds (lift (read_clock p))
  clock-Proceeds = read_clock-Keeps p c ip S _ codes _ _ frame

  pub basic-Proceeds : Proceeds (lift (basic_state_now p c))
  basic-Proceeds = basic_state-Keeps p c ip S _ codes _ _ frame

  pub gait-Proceeds : Proceeds (lift (gait_state_now p c))
  gait-Proceeds = gait_state-Keeps p c ip S _ codes _ _ frame

  pub basic_wait-Proceeds :
      (targets : List BasicState) (d : ℕ) → Proceeds (lift (wait_for_basic_state p targets d))
  basic_wait-Proceeds targets d =
      Runs-post (λ b w h. h.0) (basic_wait-Answered p c ip S _ codes _ _ frame targets d)

  pub gait_wait-Proceeds :
      (targets : List GaitState) (d : ℕ) → Proceeds (lift (wait_for_gait_state p targets d))
  gait_wait-Proceeds targets d =
      Runs-post (λ b w h. h.0) (gait_wait-Answered p c ip S _ codes _ _ frame targets d)

  pub takeover-Proceeds :
      (warmup_ms pulse_ms : ℕ) → Proceeds (ensure_control_takeover p c warmup_ms pulse_ms)
  takeover-Proceeds = takeover-Keeps p c ip S _ codes _ _ frame ic base

  pub sender-Proceeds :
      (command : ℕ) → Includes (command ∷ []) codes → Proceeds (act (c.command_sender command))
  sender-Proceeds = sender-Keeps p c ip S _ codes _ _ frame ic

  pub single-Proceeds :
      (command : ℕ)
      → Includes (command ∷ []) codes
      → (targets : List BasicState) (timeout_ms warmup_ms : ℕ)
      → Proceeds (send_single_command_and_wait p c command targets timeout_ms warmup_ms)
  single-Proceeds command inc targets timeout_ms warmup_ms =
      Runs-post (λ b w h. h.0)
        (single_command-Answered p c ip ic S _ codes _ base command inc targets _ frame timeout_ms
          warmup_ms)

  pub toggle-Proceeds :
      (command : ℕ)
      → Includes (command ∷ []) codes
      → (targets : List BasicState) (overall_ms resend_ms warmup_ms : ℕ)
      → Proceeds
          (send_toggle_command_with_retries p c command targets overall_ms resend_ms warmup_ms)
  toggle-Proceeds command inc targets overall_ms resend_ms warmup_ms =
      Runs-post (λ b w h. h.0)
        (toggle_command-Answered p c ip ic S _ codes _ base command inc targets _ frame overall_ms
          resend_ms warmup_ms)

-- A wait or a command whose answer is required, before the action leaves with success.
module _ (p : Platform) (q : Reading → Bool) (codes : List ℕ) (S : Type 0) (w₀ : World)
    (Goal : World → Type 0) (reaches : (w : World) → Saw p q w₀.now w → Goal w) where
  pub require-Saw :
      {A : Type 0} {Q : A → World → Type 0} (b : Bool) (m : String) (r : ActionResult)
      → Runs S
          (Ended codes w₀ Goal)
          (Answered p w₀.now (IsLater codes w₀) q b)
          (require b (result false m) >> leave r)
          Q
  require-Saw b m r =
      Runs-bind (λ _ w. IsLater codes w₀ w × Saw p q w₀.now w) _ _
        (Runs-require b _ (λ w e h. (h.0, h.1 e)) (λ w e h. (h.0, λ e'. cc)))
        λ _. Runs-leave r λ w h. (h.0, λ _. reaches w h.1)

pub ruleset proceeds = (
  Keeps-bind, Runs-if, pure-Proceeds, require-Proceeds, clock-Proceeds, basic-Proceeds,
  gait-Proceeds, basic_wait-Proceeds, gait_wait-Proceeds, takeover-Proceeds, sender-Proceeds,
  single-Proceeds, toggle-Proceeds,
)

-- The action returns to its caller.
pub record Finishes (codes : List ℕ) (Goal : World → Type 0)
    (m : Exec World ActionResult ActionResult) (w : World) : Type 0 where
  pub answer : ActionResult
  pub after : World
  pub returns : call m w ≡ (some answer, after)
  pub later : IsLater codes w after
  pub confirmed : answer.success ≡ true → Goal after

pub Holds-Finishes :
    {codes : List ℕ} {Goal : World → Type 0} (m : Exec World ActionResult ActionResult) {w : World}
    → Holds ⊥ (Ended codes w Goal) (Ended codes w Goal) (m w)
    → Finishes codes Goal m w
Holds-Finishes m {w = w} h =
    let (r, w', e, ended) = Holds-returned _ (m w) h in
    record { answer = r; after = w'; returns = e; later = ended.0; confirmed = ended.1 }

pub Finishes-Goal :
    {codes : List ℕ} {Goal : World → Type 0} {m : Exec World ActionResult ActionResult}
    {w w' : World} {r : ActionResult}
    → Finishes codes Goal m w
    → call m w ≡ (some r, w')
    → r.success ≡ true
    → Goal w'
Finishes-Goal {Goal = Goal} {w' = w'} {r} done e s =
    let same : ◌≡◌ {A = Option ActionResult × World} (some r, w') (some done.answer, done.after) =
      sym e ∙ done.returns in
    subst Goal (cc same) (done.confirmed (cc (same, s)))
