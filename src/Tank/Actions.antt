-- ===== src/Tank/Actions.antt =====
-- src/tank/tank_backend.cpp: connecting, `ready`, `stop` and disconnecting. What runs under the
-- mutexes `action_mutex` and `io` is one process; the callbacks of the node are not followed.
pub mod Confirmed
use nav_bridge.Prelude.{ℕ, Bool, true, false, not, ◌&&◌, none, some, ◌==◌, if◌then◌else◌}
use nav_bridge.Prelude.Text.{same_text}
use nav_bridge.Backend.{Doubles, BackendResult, ok, failed}
use nav_bridge.Tank.State.{Options, link_failed, prepared, report_error}
use nav_bridge.Tank.Process.{Process, done, set_brake, ◌>>=◌, ◌>>◌, atomic, update, look}
use nav_bridge.Tank.Http.{
  Jsoncpp, StateAnswer, BrakeAnswer, request, send_move, query_state, query_brake,
}
use Prim.Native.String.{String}

module _ {d : Doubles} (js : Jsoncpp d) (o : Options d) where
  open d use {nought, minus_one}

  -- `linkFailed`
  unfoldable pub fail_link : String → ℕ → Process d Unit
  fail_link message ticket = do
    current ← atomic (λ now t. (ticket == t.epoch, link_failed d o ticket t))
    if current then update (λ now t. report_error d o message t) else done tt

  unfoldable pub enter_idle : Process d BackendResult
  unfolding request
  enter_idle = do a ← request js o "/robot/cmd/change_robot_state?state=Idle" none; done a.result

  -- The state, unless an earlier step failed.
  unfoldable pub state_after : BackendResult → Process d (StateAnswer js o)
  unfolding query_state
  state_after r =
      if r.success
      then query_state js o
      else done (record { result = r; device_state = ""; transport_failure = false })

  abbrev pub is_idle : StateAnswer js o → BackendResult
  is_idle seen =
      if seen.result.success && o.enable_motion_output && not (same_text seen.device_state "Idle")
      then failed "Robot did not confirm Idle"
      else seen.result

  unfoldable pub brake_after : BackendResult → Process d (BrakeAnswer js o)
  unfolding query_brake
  brake_after r =
      if r.success
      then query_brake js o true
      else done (record { result = r; device_brake = true; transport_failure = false })

  -- A real release of the brake, and its readback.
  unfoldable pub release_brake : BrakeAnswer js o → Process d (BrakeAnswer js o)
  unfolding request query_brake
  release_brake seen = do
    a ← request js o "/robot/cmd/move_brake" (some (set_brake false))
    if a.result.success
        then query_brake js o seen.device_brake
        else done (record seen { result = a.result })

  unfoldable pub release_after : Bool → ℕ → BrakeAnswer js o → Process d (BrakeAnswer js o)
  unfolding release_brake
  release_after explicit_ready ticket seen = do
    let test = look (λ now t. ticket == t.epoch)
    wanted ← if seen.result.success && explicit_ready && seen.device_brake then test else done false
    if wanted then release_brake seen else done seen

  abbrev pub is_released : Bool → BrakeAnswer js o → BackendResult
  is_released explicit_ready seen =
      if seen.result.success && explicit_ready && seen.device_brake
      then failed "Robot did not confirm software brake release"
      else seen.result

  unfoldable pub stand_still : BackendResult → Process d BackendResult
  unfolding send_move
  stand_still r = do
    let zero_move = do a ← send_move js o nought nought; done a.result
    if r.success && o.enable_motion_output then zero_move else done r

  abbrev pub prepared_message : Bool → String
  prepared_message explicit_ready =
      if not o.enable_motion_output
      then "TANK query-only connection confirmed; motion output disabled"
      else if explicit_ready
      then "TANK ready: Idle and brake release confirmed; waiting for fresh cmd_vel"
      else "TANK connected: Idle and brake state confirmed"

  -- The end of `prepare`, with what the device has confirmed.
  unfoldable pub conclude : Bool → ℕ → String → Bool → BackendResult → Process d BackendResult
  unfolding fail_link
  conclude explicit_ready ticket device_state device_brake moved = do
    let give_up = do fail_link moved.message ticket; done moved
    let commit = do
      in_time ← atomic (prepared d o explicit_ready ticket device_state device_brake)
      if in_time
          then done (ok (prepared_message explicit_ready))
          else done (failed "Preparation superseded by stop/shutdown")
    if moved.success then commit else give_up

  unfoldable pub prepare : Bool → ℕ → Process d BackendResult
  unfolding enter_idle state_after brake_after release_after stand_still conclude
  prepare explicit_ready ticket = do
    entered ← if o.enable_motion_output then enter_idle else done (ok "Query-only connection")
    state ← state_after entered
    brake ← brake_after (is_idle state)
    released ← release_after explicit_ready ticket brake
    moved ← stand_still (is_released explicit_ready released)
    conclude explicit_ready ticket state.device_state released.device_brake moved

  -- The reconnection of `telemetryLoop`, with the epoch read before `io` was taken.
  unfoldable pub reconnect : ℕ → Process d Unit
  unfolding prepare
  reconnect ticket = do
    current ← look (λ now t. t.running && ticket == t.epoch)
    let attempt = do r ← prepare false ticket; done tt
    if current then attempt else done tt

  -- `ready` after `inhibit` has drawn its ticket.
  unfoldable pub ready : ℕ → Process d BackendResult
  unfolding prepare
  ready ticket = do
    current ← look (λ now t. t.running && ticket == t.epoch)
    if current then prepare true ticket else done (failed "Ready superseded or backend stopped")

  unfoldable pub brake_device : Process d BackendResult
  unfolding request query_brake
  brake_device = do
    a ← request js o "/robot/cmd/move_brake" (some (set_brake true))
    let readback = do
      b ← query_brake js o false
      let r =
          if b.result.success && not b.device_brake
          then failed "Robot did not confirm software brake activation"
          else b.result
      let set = do update (λ now t. record t { brake = true; brake_known = true }); done r
      if r.success then set else done r
    if a.result.success then readback else done a.result

  unfoldable pub halt_device : Process d BackendResult
  unfolding send_move
  halt_device = do a ← send_move js o nought nought; done a.result

  -- `stop` after `inhibit` has drawn its ticket.
  unfoldable pub stop : Bool → ℕ → Process d BackendResult
  unfolding brake_device halt_device fail_link
  stop emergency ticket = do
    current ← look (λ now t. t.running && ticket == t.epoch)
    let act = do
      r ← if emergency then brake_device else halt_device
      let give_up = do fail_link r.message ticket; done r
      if r.success
          then done (
              ok (
                if emergency
                then "TANK software brake confirmed; motion inhibited"
                else "TANK zero velocity acknowledged; motion inhibited until ready/stand"))
          else give_up
    if current then act else done (failed "Stop superseded or backend stopped")

  -- `disconnect` once the workers are joined.
  unfoldable pub close : Process d BackendResult
  unfolding halt_device
  close = do
    r ←
        if o.enable_motion_output
        then halt_device
        else done (ok "TANK query-only backend stopped without control requests")
    update (λ now t. record t {
      cached = record t.cached { connected = false; battery_percent = minus_one };
    })
    done r
