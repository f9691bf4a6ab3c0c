-- ===== src/Tank/System/Requests/Threads.antt =====
-- src/tank/tank_backend.cpp: what the threads ask while motion is disabled.
use nav_bridge.Prelude.{
  ℕ, ◌≡◌, Bool, true, false, not, ◌&&◌, ◌||◌, Option, none, some, arith, if-elim,
}
use nav_bridge.Prelude.Text.{same_text}
use nav_bridge.Backend.{Doubles, BackendResult}
use nav_bridge.Tank.State.{Options, ControlView, control_view}
use nav_bridge.Tank.Process.{Body, velocity, set_brake, Request, done, ask, ◌>>=◌}
use nav_bridge.Tank.Http.{
  Jsoncpp, Answer, StateAnswer, BrakeAnswer, is_read_path, request, send_move, read_state,
  query_state, query_brake,
}
use nav_bridge.Tank.Actions.{
  fail_link, enter_idle, state_after, brake_after, release_brake, release_after, stand_still,
  conclude, prepare, reconnect, ready, brake_device, halt_device, stop, close,
}
use nav_bridge.Tank.Workers.{
  drive, controlled, control_round, poll_answered, poll_round, battery_round, raw_velocity_round,
}
use nav_bridge.Tank.System.Requests.{Only, Only-if, Only-bind}
use Prim.Native.String.{String}

-- Motion is enabled, or the request only reads.
abbrev pub IsPermitted : {d : Doubles} → Options d → Request d → Type 0
IsPermitted o r = o.enable_motion_output || is_read_path r.path ≡ true

asked : (enabled read : Bool) → not enabled && not read ≡ false → enabled || read ≡ true
asked enabled read h = ground arith

module _ {d : Doubles} (js : Jsoncpp d) (o : Options d) where
  Asks-request :
      (path : String) (body : Option (Body d)) → Only (IsPermitted o) (request js o path body)
  unfolding request
  Asks-request path body =
      if-elim (Only (IsPermitted o)) _ (done _) (ask _ _) (λ e. Only.ends)
        (λ e. Only.asks (asked o.enable_motion_output (is_read_path path) e) (λ reply. Only.ends))

  Asks-send_move : (x y : d.Value) → Only (IsPermitted o) (send_move js o x y)
  unfolding send_move
  Asks-send_move x y = Asks-request "/robot/cmd/move" (some (velocity x y))

  Asks-read_state : (a : Answer js) → Only (IsPermitted o) (read_state js o a)
  unfolding read_state ◌>>=◌
  Asks-read_state a =
      let content = js.member a.response "data" in
      let field = js.member content "state_operation" in
      Only-if (not a.result.success) Only.ends (
        Only-if
          (not (js.is_object content)
            || not (js.is_string field)
            || same_text (js.as_string field) "")
          Only.ends (Only.keeps (λ now t. Only.ends)))

  Asks-query_state : Only (IsPermitted o) (query_state js o)
  unfolding query_state
  Asks-query_state = Only-bind (Asks-request "/robot/cmd/get_robot_state" none) Asks-read_state

  Asks-query_brake : (before : Bool) → Only (IsPermitted o) (query_brake js o before)
  unfolding query_brake
  Asks-query_brake before =
      Only-bind (Asks-request "/robot/cmd/get_move_brake" none) (λ a. Only.ends)

  Asks-fail_link :
      (message : String) (ticket : ℕ) → Only (IsPermitted o) (fail_link js o message ticket)
  unfolding fail_link ◌>>=◌
  Asks-fail_link message ticket =
      Only.keeps (λ now t. Only-if _ (Only.keeps (λ now t. Only.ends)) Only.ends)

  Asks-enter_idle : Only (IsPermitted o) (enter_idle js o)
  unfolding enter_idle
  Asks-enter_idle =
      Only-bind (Asks-request "/robot/cmd/change_robot_state?state=Idle" none) (λ a. Only.ends)

  Asks-release_brake : (seen : BrakeAnswer js o) → Only (IsPermitted o) (release_brake js o seen)
  unfolding release_brake
  Asks-release_brake seen =
      Only-bind (Asks-request "/robot/cmd/move_brake" (some (set_brake false)))
        (λ a. Only-if _ (Asks-query_brake _) Only.ends)

  Asks-release_after :
      (explicit_ready : Bool) (ticket : ℕ) (seen : BrakeAnswer js o)
      → Only (IsPermitted o) (release_after js o explicit_ready ticket seen)
  unfolding release_after
  Asks-release_after explicit_ready ticket seen =
      Only-bind (Only-if _ (Only.keeps (λ now t. Only.ends)) Only.ends)
        (λ wanted. Only-if _ (Asks-release_brake seen) Only.ends)

  Asks-halt_device : Only (IsPermitted o) (halt_device js o)
  unfolding halt_device
  Asks-halt_device = Only-bind (Asks-send_move _ _) (λ a. Only.ends)

  Asks-stand_still : (r : BackendResult) → Only (IsPermitted o) (stand_still js o r)
  unfolding stand_still
  Asks-stand_still r = Only-if _ (Only-bind (Asks-send_move _ _) (λ a. Only.ends)) Only.ends

  Asks-conclude :
      (explicit_ready : Bool) (ticket : ℕ) (state : String) (brake : Bool) (moved : BackendResult)
      → Only (IsPermitted o) (conclude js o explicit_ready ticket state brake moved)
  unfolding conclude ◌>>=◌
  Asks-conclude explicit_ready ticket state brake moved =
      Only-if moved.success (Only.keeps (λ now t. Only-if _ Only.ends Only.ends))
        (Only-bind (Asks-fail_link moved.message ticket) (λ a. Only.ends))

  pub Asks-prepare :
      (explicit_ready : Bool) (ticket : ℕ)
      → Only (IsPermitted o) (prepare js o explicit_ready ticket)
  unfolding prepare state_after brake_after
  Asks-prepare explicit_ready ticket = Only-bind (Only-if _ Asks-enter_idle Only.ends) λ entered.
      Only-bind (Only-if entered.success Asks-query_state Only.ends) λ state.
        Only-bind (Only-if _ (Asks-query_brake true) Only.ends) λ brake.
          Only-bind (Asks-release_after explicit_ready ticket brake) λ released.
            Only-bind (Asks-stand_still _) λ moved.
              Asks-conclude explicit_ready ticket state.device_state released.device_brake moved

  pub Asks-reconnect : (ticket : ℕ) → Only (IsPermitted o) (reconnect js o ticket)
  unfolding reconnect ◌>>=◌
  Asks-reconnect ticket =
      Only.keeps
        (λ now t. Only-if _ (Only-bind (Asks-prepare false ticket) (λ a. Only.ends)) Only.ends)

  pub Asks-ready : (ticket : ℕ) → Only (IsPermitted o) (ready js o ticket)
  unfolding ready ◌>>=◌
  Asks-ready ticket = Only.keeps (λ now t. Only-if _ (Asks-prepare true ticket) Only.ends)

  Asks-brake_device : Only (IsPermitted o) (brake_device js o)
  unfolding brake_device ◌>>=◌
  Asks-brake_device = Only-bind (Asks-request "/robot/cmd/move_brake" (some (set_brake true))) λ a.
      Only-if _
        (Only-bind (Asks-query_brake false)
          (λ b. Only-if _ (Only.keeps (λ now t. Only.ends)) Only.ends))
        Only.ends

  pub Asks-stop :
      (emergency : Bool) (ticket : ℕ) → Only (IsPermitted o) (stop js o emergency ticket)
  unfolding stop ◌>>=◌
  Asks-stop emergency ticket = Only.keeps λ now t.
      Only-if _
        (Only-bind (Only-if emergency Asks-brake_device Asks-halt_device) λ r.
          Only-if r.success Only.ends
            (Only-bind (Asks-fail_link r.message ticket) (λ a. Only.ends)))
        Only.ends

  pub Asks-close : Only (IsPermitted o) (close js o)
  unfolding close ◌>>=◌
  Asks-close =
      Only-bind (Only-if _ Asks-halt_device Only.ends) (λ r. Only.keeps (λ now t. Only.ends))

  Asks-drive :
      (previous : Option ℕ) (view : ControlView d o)
      → Only (IsPermitted o) (drive js o previous view)
  unfolding drive ◌>>=◌
  Asks-drive previous view = Only.keeps λ started t.
      Only-bind (Asks-request "/robot/cmd/move" (some (velocity view.linear view.angular))) λ a.
        Only.keeps λ now t.
          Only-if _ Only.ends (Only-if _ (Asks-fail_link _ _) (Only.keeps (λ now t. Only.ends)))

  Asks-controlled :
      (previous : Option ℕ) (view : ControlView d o)
      → Only (IsPermitted o) (controlled js o previous view)
  unfolding controlled
  Asks-controlled previous view =
      Only-if _ (Only-bind (Asks-send_move d.nought d.nought) (λ a. Asks-fail_link _ _))
        (Only-if _ (Asks-drive previous view) Only.ends)

  pub Asks-control_round :
      (previous : Option ℕ) → Only (IsPermitted o) (control_round js o previous)
  unfolding control_round ◌>>=◌
  Asks-control_round previous =
      Only.keeps (λ now t. Asks-controlled previous (control_view d o now t))

  Asks-poll_answered :
      (ticket : ℕ) (state : StateAnswer js o) (r : BackendResult) (brake failure : Bool)
      → Only (IsPermitted o) (poll_answered js o ticket state r brake failure)
  unfolding poll_answered ◌>>=◌
  Asks-poll_answered ticket state r brake failure = Only.keeps λ now t. Only-if _ Only.ends (
      Only-if _ (Only.keeps (λ now t. Only.ends))
        (Only.keeps λ now t. Only-if _ (Asks-fail_link _ _) (Only.keeps (λ now t. Only.ends))))

  pub Asks-poll_round : Only (IsPermitted o) (poll_round js o)
  unfolding poll_round ◌>>=◌
  Asks-poll_round = Only.keeps λ now t. Only-bind Asks-query_state λ state.
      Only-if _
        (Only-bind (Asks-query_brake true)
          (λ b. Asks-poll_answered t.epoch state b.result b.device_brake b.transport_failure))
        (Asks-poll_answered t.epoch state state.result true state.transport_failure)

  pub Asks-battery_round : Only (IsPermitted o) (battery_round js o)
  unfolding battery_round ◌>>=◌
  Asks-battery_round = Only.keeps λ now t.
      Only-bind (Asks-request "/robot/sensor_data/battery" none)
        λ a. Only.keeps (λ now t. Only-if _ (Only.keeps (λ now t. Only.ends)) Only.ends)

  pub Asks-raw_velocity_round : Only (IsPermitted o) (raw_velocity_round js o)
  unfolding raw_velocity_round ◌>>=◌
  Asks-raw_velocity_round = Only-bind (Asks-request "/robot/sensor_data/raw_velocity" none) λ a.
      Only.keeps
        λ now t. Only.keeps (λ now t. Only-if _ (Only.keeps (λ now t. Only.ends)) Only.ends)
