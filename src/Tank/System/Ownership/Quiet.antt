-- ===== src/Tank/System/Ownership/Quiet.antt =====
-- src/tank/tank_backend.cpp: what leaves the control of the robot alone.
use nav_bridge.Prelude.{
  ℕ, refl, Bool, true, false, not, ◌&&◌, ◌||◌, Option, none, some, ◌==◌, if-elim,
}
use nav_bridge.Prelude.Text.{same_text}
use nav_bridge.Backend.{Doubles, BackendResult}
use nav_bridge.Tank.State.{Options, Tank, ControlView, move, move_answered, battery_polled}
use nav_bridge.Tank.Process.{Body, ◌>>=◌, velocity, set_brake}
use nav_bridge.Tank.Http.{
  Jsoncpp, Answer, BrakeAnswer, request, send_move, query_state, query_brake, read_state,
}
use nav_bridge.Tank.Actions.{
  enter_idle, state_after, brake_after, release_brake, release_after, stand_still, halt_device,
}
use nav_bridge.Tank.System.Ownership.{Same, Silent, Silent-bind, Silent-if}
use Prim.Native.String.{String}

module _ {d : Doubles} (js : Jsoncpp d) (o : Options d) where
  pub Silent-request : (path : String) (body : Option (Body d)) → Silent (request js o path body)
  unfolding request
  Silent-request path body = Silent-if _ Silent.ends (Silent.asks (λ reply. Silent.ends))

  pub Silent-send_move : (x y : d.Value) → Silent (send_move js o x y)
  unfolding send_move
  Silent-send_move x y = Silent-request "/robot/cmd/move" (some (velocity x y))

  Silent-read_state : (a : Answer js) → Silent (read_state js o a)
  unfolding read_state ◌>>=◌
  Silent-read_state a =
      let content = js.member a.response "data" in
      let field = js.member content "state_operation" in
      Silent-if (not a.result.success) Silent.ends (
        Silent-if
          (not (js.is_object content)
            || not (js.is_string field)
            || same_text (js.as_string field) "")
          Silent.ends (Silent.keeps (λ now t. refl) (λ now t. Silent.ends)))

  pub Silent-query_state : Silent (query_state js o)
  unfolding query_state
  Silent-query_state =
      Silent-bind (Silent-request "/robot/cmd/get_robot_state" none) Silent-read_state

  pub Silent-query_brake : (before : Bool) → Silent (query_brake js o before)
  unfolding query_brake
  Silent-query_brake before =
      Silent-bind (Silent-request "/robot/cmd/get_move_brake" none) (λ a. Silent.ends)

  pub Silent-enter_idle : Silent (enter_idle js o)
  unfolding enter_idle
  Silent-enter_idle =
      Silent-bind (Silent-request "/robot/cmd/change_robot_state?state=Idle" none)
        (λ a. Silent.ends)

  pub Silent-state_after : (r : BackendResult) → Silent (state_after js o r)
  unfolding state_after
  Silent-state_after r = Silent-if _ Silent-query_state Silent.ends

  pub Silent-brake_after : (r : BackendResult) → Silent (brake_after js o r)
  unfolding brake_after
  Silent-brake_after r = Silent-if _ (Silent-query_brake true) Silent.ends

  Silent-release_brake : (seen : BrakeAnswer js o) → Silent (release_brake js o seen)
  unfolding release_brake
  Silent-release_brake seen =
      Silent-bind (Silent-request "/robot/cmd/move_brake" (some (set_brake false)))
        (λ a. Silent-if _ (Silent-query_brake _) Silent.ends)

  pub Silent-release_after :
      (explicit_ready : Bool) (ticket : ℕ) (seen : BrakeAnswer js o)
      → Silent (release_after js o explicit_ready ticket seen)
  unfolding release_after
  Silent-release_after explicit_ready ticket seen =
      Silent-bind (Silent-if _ (Silent.keeps (λ now t. refl) (λ now t. Silent.ends)) Silent.ends)
        (λ wanted. Silent-if _ (Silent-release_brake seen) Silent.ends)

  pub Silent-halt_device : Silent (halt_device js o)
  unfolding halt_device
  Silent-halt_device = Silent-bind (Silent-send_move _ _) (λ a. Silent.ends)

  pub Silent-stand_still : (r : BackendResult) → Silent (stand_still js o r)
  unfolding stand_still
  Silent-stand_still r =
      Silent-if _ (Silent-bind (Silent-send_move _ _) (λ a. Silent.ends)) Silent.ends

-- The sections that change the state otherwise.
module _ {d : Doubles} (o : Options d) where
  pub Same-move : (x y yaw : d.Value) (now : ℕ) (t : Tank d) → Same t (move d o x y yaw now t).1
  Same-move x y yaw now t =
      let odd = not (d.is_finite x) || not (d.is_finite y) || not (d.is_finite yaw) in
      let inhibited =
        not t.running
        || not t.cached.connected
        || not t.cached.control_owned
        || t.local_estop
        || t.brake in
      if-elim (λ (r : BackendResult × Tank d). Same t r.1) odd _ _ (λ _. record { same = refl })
        λ _.
          if-elim (λ (r : BackendResult × Tank d). Same t r.1) inhibited _ _
            (λ _. record { same = refl }) (λ _. record { same = refl })

  pub Same-move_answered :
      (view : ControlView d o) (started : ℕ) (previous : Option ℕ) (answer : BackendResult)
      (b : Bool) (now : ℕ) (t : Tank d)
      → Same t (move_answered d o view started previous answer b now t).1
  Same-move_answered view started previous answer b now t =
      let current = view.ticket == t.epoch && t.cached.control_owned in
      if-elim (λ (r : Bool × Tank d). Same t r.1) (not current) _ _ (λ _. record { same = refl })
        λ _.
          if-elim (λ (r : Bool × Tank d). Same t r.1) answer.success _ _
            (λ _. record { same = refl }) (λ _. record { same = refl })

  pub Same-battery_polled :
      (ticket : ℕ) (v : d.Value) (error : String) (t : Tank d)
      → Same t (battery_polled d o ticket v error t)
  Same-battery_polled ticket v error t =
      if-elim (λ (r : Tank d). Same t r) _ _ _ (λ _. record { same = refl })
        (λ _. record { same = refl })
