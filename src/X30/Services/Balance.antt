-- ===== src/X30/Services/Balance.antt =====
-- The services and the suppression of /cmd_vel, and what their parameters mean.
use mathlib.Core.Path.{subst}
use nav_bridge.Prelude.{ℕ, ◌≡◌, refl, ap, some, List, arith, inr}
use nav_bridge.Prelude.Exec.{call}
use nav_bridge.Prelude.Text.{is_name}
use nav_bridge.X30.Protocol.{
  GaitState, gait_code, walk, obstacle, slope, run, stair_solid, stair_acc, stair45_acc, l_walk,
  mountain, silent, l_stair,
}
use nav_bridge.X30.Platform.{Platform, IsPlatform, World, Act, ActionResult}
use nav_bridge.X30.Control.{enter_cmd_vel_suppression, exit_cmd_vel_suppression}
use nav_bridge.X30.Executor.{Callbacks}
use nav_bridge.X30.Executor.Rules.{IsLater, IsCallbacks}
use nav_bridge.X30.Executor.Lie.{lie_down}
use nav_bridge.X30.Executor.Lie.Reaches.{lie_codes, lie_down-IsLater}
use nav_bridge.X30.Gait.{gait_switch}
use nav_bridge.X30.Services.{execute_suppressed, handle_lie_request, parse_gait, text}

-- What an action that was called one deeper is to its caller.
pub leave-IsLater :
    (codes : List ℕ) (w u : World)
    → IsLater codes (enter_cmd_vel_suppression w) u
    → IsLater codes w (exit_cmd_vel_suppression u)
unfolding enter_cmd_vel_suppression exit_cmd_vel_suppression
leave-IsLater codes w u h = record {
  not_before = h.not_before;
  only = h.only;
  suppression = omega (arith, h.suppression);
}

pub suppressed-IsLater :
    (codes : List ℕ) (action : Act ActionResult) (w w' : World) (r : ActionResult)
    → ((u : World)
        → call action (enter_cmd_vel_suppression w) ≡ (some r, u)
        → IsLater codes (enter_cmd_vel_suppression w) u)
    → execute_suppressed action w ≡ (some r, w')
    → IsLater codes w w'
unfolding execute_suppressed
suppressed-IsLater codes action w w' r h e =
    let u = (call action (enter_cmd_vel_suppression w)).1 in
    subst (IsLater codes w) (ap (λ x. x.1) e) (leave-IsLater codes w u (h u (ap (λ x. (x.0, u)) e)))

-- With a platform whose clock moves on with every statement and whose waits and sleeps take their
-- time, and with callbacks that keep what the executor relies on: where handleLieRequest answers,
-- the depth of the suppression of /cmd_vel is what it was at the call, and no packet was sent but
-- heartbeats, queries, the posture command and the motion command.
pub lie_request-restores :
    (p : Platform) (c : Callbacks)
    → IsPlatform p
    → IsCallbacks c
    → (polls : ℕ) (w w' : World) (r : ActionResult) → handle_lie_request p c polls w ≡ (some r, w')
    → IsLater lie_codes w w'
unfolding handle_lie_request
lie_request-restores p c ip ic polls w w' r e =
    suppressed-IsLater lie_codes (lie_down p c polls) w w' r
      (λ u h. lie_down-IsLater p c ip ic polls _ u r h) e

-- The name that setNavigationGait reports for a gait is parsed by the gait service to the gait's
-- number.
pub parse_gait-name : (g : GaitState) → parse_gait (text (gait_switch g).1) ≡ inr (gait_code g)
unfolding parse_gait is_name
parse_gait-name walk = refl
parse_gait-name obstacle = refl
parse_gait-name slope = refl
parse_gait-name run = refl
parse_gait-name stair_solid = refl
parse_gait-name stair_acc = refl
parse_gait-name stair45_acc = refl
parse_gait-name l_walk = refl
parse_gait-name mountain = refl
parse_gait-name silent = refl
parse_gait-name l_stair = refl
