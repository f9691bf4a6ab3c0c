-- ===== src/X30/Tests/Actions.antt =====
-- The theorems on the actions, at runs of the robot.
use nav_bridge.Prelude.{◌≡◌, refl, some, true}
use nav_bridge.Prelude.Int.{pos}
use nav_bridge.Prelude.Exec.{call, Holds}
use nav_bridge.X30.Protocol.{l_walk, crawl, cmd_gait_l_walk}
use nav_bridge.X30.Tests.{
  robot, robot-IsPlatform, rising, trotting, lowering, fixed, config, start, calls,
  calls-IsCallbacks,
}
use nav_bridge.X30.Tests.Runs.{
  forced, forced_run, stood, stood_run, lay, lay_run, switched, switched_run, crept, crept_run,
  stand_answer, stand_answer_run, lie_answer, lie_answer_run,
}
use nav_bridge.X30.Platform.{World, ActionResult, result}
use nav_bridge.X30.Control.{warmup_control}
use nav_bridge.X30.Control.Warmup.{beat_codes, warmup_control-ends}
use nav_bridge.X30.Executor.Rules.{IsLater}
use nav_bridge.X30.Executor.Force.{force_stand_up}
use nav_bridge.X30.Executor.Force.Reaches.{
  force_codes, Forced, force_stand_returns, force_stand-Forced,
}
use nav_bridge.X30.Executor.Stand.{stand, is_stand_target_gait, stand_target_gait_command}
use nav_bridge.X30.Executor.Stand.Reaches.{stand_codes, Ready, stand_returns, stand-Ready}
use nav_bridge.X30.Executor.Lie.Reaches.{lie_codes, Lying, lie_down-Lying, lie_down-IsLater}
use nav_bridge.X30.Gait.{set_navigation_gait}
use nav_bridge.X30.Gait.Reaches.{
  gait_codes, Switched, set_navigation_gait_returns, set_navigation_gait-Switched,
}
use nav_bridge.X30.Height.{set_body_height, height_of}
use nav_bridge.X30.Height.Reaches.{
  height_codes, Lowered, set_body_height_returns, set_body_height-Lowered,
}
use nav_bridge.X30.Services.{handle_stand_request}
use nav_bridge.X30.Services.Stands.{
  stand_request_codes, Confirmed, stand_request_returns, stand_request-Confirmed,
}
use nav_bridge.X30.Services.Balance.{lie_request-restores}

force_stand_returns_example :
    (r : ActionResult) × (w' : World) × (call (force_stand_up (robot rising) (calls rising)) start
      ≡ (some r, w'))
    × IsLater force_codes start w'
force_stand_returns_example =
    force_stand_returns (robot rising) (calls rising) (robot-IsPlatform rising)
      (calls-IsCallbacks rising) start

force_stand-Forced_example : Forced (robot rising) start forced.1
force_stand-Forced_example =
    force_stand-Forced (robot rising) (calls rising) (robot-IsPlatform rising)
      (calls-IsCallbacks rising) start forced.1 (result true "Robot is now in force stand mode.")
      forced_run refl

-- The two facts on the gait 32 that the theorems on `stand` ask for.
accepted : is_stand_target_gait 32 ≡ true
unfolding is_stand_target_gait
accepted = refl

known : stand_target_gait_command 32 ≡ some (cmd_gait_l_walk, "L_WALK")
unfolding stand_target_gait_command
known = refl

stand_returns_example :
    (r : ActionResult) × (w' : World) × (call (stand (robot trotting) (calls trotting) 32) start
      ≡ (some r, w'))
    × IsLater (stand_codes cmd_gait_l_walk) start w'
stand_returns_example =
    stand_returns (robot trotting) (calls trotting) (robot-IsPlatform trotting)
      (calls-IsCallbacks trotting) 32 accepted known start

stand-Ready_example : Ready (robot trotting) 32 start stood.1
stand-Ready_example =
    stand-Ready (robot trotting) (calls trotting) (robot-IsPlatform trotting)
      (calls-IsCallbacks trotting) 32 start stood.1
      (result true "Robot is standing in RL mode with L_WALK gait.") stood_run refl

stand_request_returns_example :
    (r : ActionResult) × (w' : World) × (handle_stand_request
        (robot trotting)
        (calls trotting)
        config
        start
      ≡ (some r, w'))
    × IsLater (stand_request_codes cmd_gait_l_walk) start w'
stand_request_returns_example =
    stand_request_returns (robot trotting) (calls trotting) (robot-IsPlatform trotting)
      (calls-IsCallbacks trotting) config accepted known start

stand_request-Confirmed_example : Confirmed (robot trotting) 32 start stand_answer.1
stand_request-Confirmed_example =
    stand_request-Confirmed (robot trotting) (calls trotting) (robot-IsPlatform trotting)
      (calls-IsCallbacks trotting) config accepted known start stand_answer.1
      (result true "Robot is standing in RL mode with L_WALK gait.") stand_answer_run refl

lie_down-IsLater_example : IsLater lie_codes start lay.1
lie_down-IsLater_example =
    lie_down-IsLater (robot lowering) (calls lowering) (robot-IsPlatform lowering)
      (calls-IsCallbacks lowering) 50 start lay.1 (result true "Robot has lied down.") lay_run

lie_down-Lying_example : Lying (robot lowering) start lay.1
lie_down-Lying_example =
    lie_down-Lying (robot lowering) (calls lowering) (robot-IsPlatform lowering)
      (calls-IsCallbacks lowering) 50 start lay.1 (result true "Robot has lied down.") lay_run refl

lie_request-restores_example : IsLater lie_codes start lie_answer.1
lie_request-restores_example =
    lie_request-restores (robot lowering) (calls lowering) (robot-IsPlatform lowering)
      (calls-IsCallbacks lowering) 50 start lie_answer.1 (result true "Robot has lied down.")
      lie_answer_run

set_navigation_gait_returns_example :
    (r : ActionResult) × (w' : World) × (call
        (set_navigation_gait (robot trotting) (calls trotting) 32)
        start
      ≡ (some r, w'))
    × IsLater (gait_codes cmd_gait_l_walk) start w'
set_navigation_gait_returns_example =
    set_navigation_gait_returns (robot trotting) (calls trotting) (robot-IsPlatform trotting)
      (calls-IsCallbacks trotting) 32 {g = l_walk} refl start

set_navigation_gait-Switched_example : Switched (robot trotting) 32 start switched.1
set_navigation_gait-Switched_example =
    set_navigation_gait-Switched (robot trotting) (calls trotting) (robot-IsPlatform trotting)
      (calls-IsCallbacks trotting) 32 {g = l_walk} refl start switched.1
      (result true "Navigation gait switched to L_WALK.") switched_run refl

zero_height : height_of (pos 0) ≡ some crawl
unfolding height_of
zero_height = refl

set_body_height_returns_example :
    (r : ActionResult) × (w' : World) × (call
        (set_body_height (robot trotting) (calls trotting) (pos 0))
        start
      ≡ (some r, w'))
    × IsLater height_codes start w'
set_body_height_returns_example =
    set_body_height_returns (robot trotting) (calls trotting) (robot-IsPlatform trotting)
      (calls-IsCallbacks trotting) (pos 0) zero_height start

set_body_height-Lowered_example : Lowered (robot trotting) crawl start crept.1
set_body_height-Lowered_example =
    set_body_height-Lowered (robot trotting) (calls trotting) (robot-IsPlatform trotting)
      (calls-IsCallbacks trotting) (pos 0) zero_height start crept.1
      (result true "Body height switched to CRAWL.") crept_run refl

warmup_control-ends_example :
    Holds ⊥
      (λ _ _. ⊥)
      (λ _. IsLater beat_codes start)
      (warmup_control (robot rising) fixed config 400 100 start)
warmup_control-ends_example =
    warmup_control-ends (robot rising) (robot-IsPlatform rising) fixed config 400 100 start
