-- ===== src/Tank/Tests/Ready.antt =====
-- `ready` at a device whose brake is on.
use nav_bridge.Prelude.{refl, true, false, Option, none, some, [], ◌∷◌}
use nav_bridge.Prelude.Int.{pos}
use nav_bridge.Backend.{BackendResult}
use nav_bridge.Tank.Process.{Body, velocity, set_brake, Request, Reply, answered, ◌>>=◌}
use nav_bridge.Tank.Process.Trace.{Log, Trace}
use nav_bridge.Tank.Http.{
  request, interpret, judged, is_read_path, query_state, query_brake, read_state, send_move,
}
use nav_bridge.Tank.Actions.{
  prepare, ready, enter_idle, state_after, brake_after, release_brake, release_after, stand_still,
  conclude,
}
use nav_bridge.Tank.Actions.Confirmed.{IsReady, ready-IsReady}
use nav_bridge.Tank.Tests.{integers, json, options}
use nav_bridge.Tank.Tests.Commands.{driven}
use Prim.Native.String.{String}

abbrev exchange : String → Option (Body integers) → String → Request integers × Reply
exchange path body reply = (record { path = path; body = body }, answered 200 reply)

abbrev readying : Log integers
readying =
    exchange "/robot/cmd/change_robot_state?state=Idle" none "braked"
    ∷ exchange "/robot/cmd/get_robot_state" none "braked"
    ∷ exchange "/robot/cmd/get_move_brake" none "braked"
    ∷ exchange "/robot/cmd/move_brake" (some (set_brake false)) "released"
    ∷ exchange "/robot/cmd/get_move_brake" none "released"
    ∷ exchange "/robot/cmd/move" (some (velocity (pos 0) (pos 0))) "released"
    ∷ []

abbrev readied : BackendResult
readied = record {
  success = true;
  message = "TANK ready: Idle and brake release confirmed; waiting for fresh cmd_vel";
}

readying-Trace : Trace (ready json options 1) readying readied
unfolding ◌>>=◌ ready prepare enter_idle state_after brake_after release_brake release_after
    stand_still conclude query_state query_brake read_state request send_move interpret judged
    is_read_path
readying-Trace = Trace.keeps 0 driven (
    Trace.asks (answered 200 "braked") (
      Trace.asks (answered 200 "braked") (
        Trace.keeps 1 driven (
          Trace.asks (answered 200 "braked") (
            Trace.keeps 2 driven (
              Trace.asks (answered 200 "released") (
                Trace.asks (answered 200 "released")
                  (Trace.asks (answered 200 "released") (Trace.keeps 3 driven Trace.ends)))))))))

ready-IsReady_example : IsReady json options readying
ready-IsReady_example = ready-IsReady json options 1 readying readied readying-Trace refl refl
