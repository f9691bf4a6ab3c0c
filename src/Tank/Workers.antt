-- ===== src/Tank/Workers.antt =====
-- src/tank/tank_backend.cpp: a round of each of the worker threads.
use nav_bridge.Prelude.{ℕ, Bool, true, not, ◌&&◌, ◌||◌, Option, none, ◌==◌, if◌then◌else◌}
use nav_bridge.Prelude.Text.{same_text}
use nav_bridge.Backend.{Doubles, BackendResult, failed}
use nav_bridge.Tank.State.{
  Options, ControlView, control_view, move_started, move_answered, poll_failed, polled,
  battery_polled, raw_velocity_polled, report_error,
}
use nav_bridge.Tank.Process.{Process, done, ◌>>=◌, ◌>>◌, atomic, update, look}
use nav_bridge.Tank.Http.{
  Jsoncpp, Answer, StateAnswer, request, send_move, query_state, query_brake,
}
use nav_bridge.Tank.Actions.{fail_link}
use Prim.Native.String.{String, ◌++◌}

module _ {d : Doubles} (js : Jsoncpp d) (o : Options d) where
  open d use {Value, nought, minus_one, hundred, is_finite, lt}

  unfoldable pub drive : Option ℕ → ControlView d o → Process d Unit
  unfolding send_move fail_link
  drive previous view = do
    started ← atomic (λ now t. (now, move_started d o now t))
    a ← send_move js o view.linear view.angular
    give_up ← atomic (move_answered d o view started previous a.result a.transport_failure)
    let fault =
        if give_up
        then fail_link js o a.result.message view.ticket
        else update (λ now t. report_error d o a.result.message t)
    if a.result.success then done tt else fault

  -- What a round does with what it has read.
  unfoldable pub controlled : Option ℕ → ControlView d o → Process d Unit
  unfolding drive send_move fail_link
  controlled previous view =
      let reason =
        if view.stale then "Robot state telemetry expired" else "Motion acknowledgement expired" in
      let expire = send_move js o nought nought >>= (λ a. fail_link js o reason view.ticket) in
      if view.stale || view.ack_expired
      then expire
      else if view.active
      then drive previous view
      else done tt

  -- A round of `controlLoop` under `io`; `previous` is when the last move was sent.
  unfoldable pub control_round : Option ℕ → Process d Unit
  unfolding controlled
  control_round previous = look (control_view d o) >>= controlled previous

  -- The answer to a poll, for the ticket drawn before it.
  unfoldable pub poll_answered : ℕ → StateAnswer js o → BackendResult → Bool → Bool → Process d Unit
  unfolding fail_link
  poll_answered ticket state result device_brake transport_failure = do
    current ← look (λ now t. ticket == t.epoch)
    let count = do
      give_up ← atomic (poll_failed d o result.message transport_failure)
      if give_up
          then fail_link js o result.message ticket
          else update (λ now t. report_error d o result.message t)
    let record_it =
        update
          (polled d o ticket state.device_state (same_text state.device_state "Idle") device_brake)
    if not current then done tt else if result.success then record_it else count

  -- The poll of the state in `telemetryLoop`.
  unfoldable pub poll_round : Process d Unit
  unfolding query_state query_brake poll_answered
  poll_round = do
    ticket ← look (λ now t. t.epoch)
    state ← query_state js o
    let with_brake = do
      b ← query_brake js o true
      poll_answered ticket state b.result b.device_brake b.transport_failure
    if state.result.success
        then with_brake
        else poll_answered ticket state state.result true state.transport_failure

  -- A percentage, or -1.
  percentage_of : Answer js → Value
  percentage_of a =
      let content = js.member a.response "data" in
      let value = js.member content "battery_capacity_percentage" in
      let v = js.as_double value in
      if a.result.success
        && js.is_object content
        && js.is_numeric value
        && is_finite v
        && not (lt v nought)
        && not (lt hundred v)
      then v
      else minus_one

  battery_error : Answer js → Value → String
  battery_error a percentage =
      let content = js.member a.response "data" in
      let value =
        if a.result.success && js.is_object content
        then js.member content "battery_capacity_percentage"
        else js.null in
      if not (lt percentage nought)
      then ""
      else if a.result.success
      then "Battery percentage missing, nonnumeric, or outside 0..100: " ++ js.encode value
      else a.result.message

  -- The poll of the battery in `telemetryLoop`.
  unfoldable pub battery_round : Process d Unit
  unfolding request percentage_of battery_error
  battery_round = do
    ticket ← look (λ now t. t.epoch)
    a ← request js o "/robot/sensor_data/battery" none
    let percentage = percentage_of a
    let error = battery_error a percentage
    update (λ now t. battery_polled d o ticket percentage error t)
    let fault = update (λ now t. report_error d o error t)
    if lt percentage nought then fault else done tt

  -- Whether the three velocities are there and finite.
  measured : Answer js → BackendResult
  measured a =
      let content = js.member (js.member a.response "data") "device_data" in
      let inner =
        if js.is_object a.response && js.is_object (js.member a.response "data")
        then content
        else js.null in
      let is_number : String → Bool = λ name. js.is_numeric (js.member inner name) in
      let is_good : String → Bool = λ name. is_finite (js.as_double (js.member inner name)) in
      if not a.result.success
      then a.result
      else if not (js.is_object inner)
          || not (is_number "linear_vel")
          || not (is_number "linear_y")
          || not (is_number "angular_rotate")
      then failed "Raw velocity response missing numeric linear_vel/linear_y/angular_rotate"
      else if not (is_good "linear_vel")
          || not (is_good "linear_y")
          || not (is_good "angular_rotate")
      then failed "Raw velocity response contains non-finite values"
      else a.result

  -- A round of `rawVelocityLoop`.
  unfoldable pub raw_velocity_round : Process d Unit
  unfolding request measured
  raw_velocity_round = do
    a ← request js o "/robot/sensor_data/raw_velocity" none
    let result = measured a
    update (raw_velocity_polled d o result)
    running ← look (λ now t. t.running)
    let fault = update (λ now t. report_error d o result.message t)
    if running && not result.success then fault else done tt
