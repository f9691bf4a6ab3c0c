-- ===== src/Tank/Http.antt =====
-- src/tank/tank_backend.cpp: `request` and the requests built on it. curl performs a request, and
-- its replies are any; jsoncpp is a parameter. That handles are leased is not modelled.
pub mod Shown
use nav_bridge.Prelude.{
  Bool, true, false, not, ◌&&◌, ◌||◌, Option, none, some, ltb, leb, if◌then◌else◌,
}
use nav_bridge.Prelude.Text.{to_string, same_text}
use nav_bridge.Backend.{Doubles, BackendResult, ok, failed}
use nav_bridge.Tank.State.{Options, Tank}
use nav_bridge.Tank.Process.{
  Body, velocity, CurlCode, other_code, Reply, curl_failed, answered, Process, done, ask, ◌>>=◌,
  update,
}
use Prim.Native.String.{String, ◌++◌, len, slice}

-- What the code uses of jsoncpp. `parse` refuses what is not one JSON value.
pub record Jsoncpp (d : Doubles) : Type 1 where
  pub Json : Type 0
  pub parse : String → Option Json
  pub null : Json
  pub text : String → Json
  pub encode : Json → String
  pub member : Json → String → Json
  pub is_object : Json → Bool
  pub is_bool : Json → Bool
  pub is_string : Json → Bool
  pub is_numeric : Json → Bool
  pub as_bool : Json → Bool
  pub as_string : Json → String
  pub as_double : Json → d.Value

-- The paths that are asked in diagnostic mode.
unfoldable pub is_read_path : String → Bool
is_read_path path =
    same_text path "/robot/cmd/get_robot_state"
    || same_text path "/robot/cmd/get_move_brake"
    || same_text path "/robot/sensor_data/battery"
    || same_text path "/robot/sensor_data/raw_velocity"

abbrev is_transport : CurlCode → Bool
is_transport other_code = false
is_transport code = true

module _ {d : Doubles} (js : Jsoncpp d) where
  open js use {
    Json, parse, null, text, encode, member, is_object, is_bool, is_string, as_bool, as_string,
  }

  -- The result, the response and whether the transport failed.
  pub record Answer : Type 0 where
    pub result : BackendResult
    pub response : Json
    pub transport_failure : Bool

  abbrev rejected : String → Json → Answer
  rejected m response = record { result = failed m; response = response; transport_failure = false }

  -- The device's body in an error: at most 1024 bytes of it (a character that is cut is left out).
  detail : String → String
  detail received =
      if leb (len received) 0
      then ""
      else ", response="
        ++ encode (text (slice received 0 1024))
        ++ (if ltb 1024 (len received) then " (truncated)" else "")

  unfoldable pub judged : String → Option Json → Answer
  judged path none = rejected (path ++ ": invalid JSON response") null
  judged path (some response) =
      let flag = member response "successed" in
      if not (is_object response)
      then rejected (path ++ ": invalid JSON response") response
      else if not (is_bool flag) || not (as_bool flag)
      then rejected
          (path
            ++ ": rejected: errorCode="
            ++ encode (member response "errorCode")
            ++ ", msg="
            ++ encode (member response "msg"))
          response
      else record {
        result = ok (path ++ ": acknowledged");
        response = response;
        transport_failure = false;
      }

  -- What `request` makes of a reply.
  unfoldable pub interpret : String → Reply → Answer
  unfolding detail judged
  interpret path (curl_failed code error) = record {
    result = failed (path ++ ": " ++ error);
    response = null;
    transport_failure = is_transport code;
  }
  interpret path (answered status received) =
      if ltb status 200 || leb 300 status
      then rejected (path ++ ": HTTP " ++ to_string status ++ detail received) null
      else judged path (parse received)

  module _ (o : Options d) where
    unfoldable pub request : String → Option (Body d) → Process d Answer
    unfolding interpret is_read_path
    request path body =
        if not o.enable_motion_output && not (is_read_path path)
        then done (rejected "TANK diagnostic mode: control requests disabled" null)
        else ask (record { path = path; body = body }) (λ reply. done (interpret path reply))

    unfoldable pub send_move : d.Value → d.Value → Process d Answer
    unfolding request
    send_move linear angular = request "/robot/cmd/move" (some (velocity linear angular))

    -- The state of the device, "" where it is not known.
    pub record StateAnswer : Type 0 where
      pub result : BackendResult
      pub device_state : String
      pub transport_failure : Bool

    abbrev pub no_state : BackendResult → Bool → StateAnswer
    no_state r b = record { result = r; device_state = ""; transport_failure = b }

    -- `data` of a response that was not refused.
    abbrev initialization : Json → Tank d → Tank d
    initialization content t =
        let flag = member content "state_initialized" in
        record t { initialized_known = is_bool flag; initialized = is_bool flag && as_bool flag }

    unfoldable pub read_state : Answer → Process d StateAnswer
    read_state a =
        let content = member a.response "data" in
        let field = member content "state_operation" in
        if not a.result.success
        then done (no_state a.result a.transport_failure)
        else if not (is_object content) || not (is_string field) || same_text (as_string field) ""
        then done (no_state (failed "Robot state_operation missing or invalid") false)
        else (update (λ now t. initialization content t) >>= λ _. done (record {
          result = ok "Robot state confirmed";
          device_state = as_string field;
          transport_failure = false;
        }))

    unfoldable pub query_state : Process d StateAnswer
    unfolding request read_state
    query_state = request "/robot/cmd/get_robot_state" none >>= read_state

    pub record BrakeAnswer : Type 0 where
      pub result : BackendResult
      pub device_brake : Bool
      pub transport_failure : Bool

    -- `before` is what the variable holds where nothing is read into it.
    abbrev pub read_brake : Bool → Answer → BrakeAnswer
    read_brake before a =
        let content = member a.response "data" in
        let field = member content "brake_state" in
        if not a.result.success
        then record {
          result = a.result;
          device_brake = before;
          transport_failure = a.transport_failure;
        }
        else if not (is_object content) || not (is_bool field)
        then record {
          result = failed "Robot brake_state missing or invalid";
          device_brake = before;
          transport_failure = false;
        }
        else record {
          result = ok "Brake state confirmed";
          device_brake = as_bool field;
          transport_failure = false;
        }

    unfoldable pub query_brake : Bool → Process d BrakeAnswer
    unfolding request
    query_brake before =
        request "/robot/cmd/get_move_brake" none >>= λ a. done (read_brake before a)
