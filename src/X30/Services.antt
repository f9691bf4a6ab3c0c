-- ===== src/X30/Services.antt =====
-- src/x30/x30_nav_bridge.cpp: the handlers of the action and parameter services. While an action
-- runs, the control timer forwards no velocity.
pub mod Balance
pub mod Stands
use nav_bridge.Prelude.{
  ℕ, Bool, true, false, not, ◌&&◌, ◌||◌, Option, none, some, List, [], ◌∷◌, map, ◌⊎◌, inl, inr, leb,
  ◌==◌, if◌then◌else◌,
}
use nav_bridge.Prelude.Int.{ℤ, pos, negsuc}
use nav_bridge.Prelude.Text.{to_string, to_string_int, is_name, same_text}
use nav_bridge.Prelude.Exec.{Exec, enclose, call, pure, lift, act, leave, ◌>>=◌, ◌>>◌}
use nav_bridge.X30.Protocol.{
  GaitState, walk, obstacle, slope, run, stair_solid, stair_acc, stair45_acc, l_walk, mountain,
  silent, l_stair, gait_code, cmd_soft_estop,
}
use nav_bridge.X30.Axis.{Floats}
use nav_bridge.X30.Platform.{Platform, World, Act, ActionResult, result}
use nav_bridge.X30.Control.{
  Config, control_warmup_ms, control_warmup_pulse_ms, enter_cmd_vel_suppression,
  exit_cmd_vel_suppression, release_control_ownership, send_velocity_command,
}
use nav_bridge.X30.Executor.{Callbacks, ensure_control_takeover}
use nav_bridge.X30.Executor.Stand.{stand}
use nav_bridge.X30.Executor.Lie.{lie_down}
use nav_bridge.X30.Gait.{set_navigation_gait}
use nav_bridge.X30.Height.{set_body_height}
use nav_bridge.X30.Manual.{ensure_manual_mode}
use Prim.Native.String.{String, ◌++◌}

-- `executeActionWithCmdVelSuppressed`: the destructor of the scope guard runs however the action
-- returns. `none` is an action that was not followed to its end.
unfoldable pub execute_suppressed : Act ActionResult → World → Option ActionResult × World
unfolding enter_cmd_vel_suppression exit_cmd_vel_suppression
execute_suppressed action w =
    let (r, w') = call action (enter_cmd_vel_suppression w) in (r, exit_cmd_vel_suppression w')

-- The values of a ROS parameter; `other` has the number of its type.
pub data ParameterValue : Type 0 where
  integer : ℤ → ParameterValue
  text : String → ParameterValue
  other : ℕ → ParameterValue

pub record Parameter : Type 0 where
  pub name : String
  pub value : ParameterValue

pub record SetParametersResult : Type 0 where
  pub successful : Bool
  pub reason : String

abbrev pub refused : String → SetParametersResult
refused m = record { successful = false; reason = m }

abbrev pub reported : ActionResult → SetParametersResult
reported r = record { successful = r.success; reason = r.message }

-- `kGaitNameMap.find(upper)`
gait_named : String → Option GaitState
gait_named s =
    if is_name s "WALK"
    then some walk
    else if is_name s "OBSTACLE"
    then some obstacle
    else if is_name s "SLOPE"
    then some slope
    else if is_name s "RUN"
    then some run
    else if is_name s "STAIR_SOLID"
    then some stair_solid
    else if is_name s "STAIR_ACC"
    then some stair_acc
    else if is_name s "STAIR45_ACC"
    then some stair45_acc
    else if is_name s "L_WALK"
    then some l_walk
    else if is_name s "MOUNTAIN"
    then some mountain
    else if is_name s "SILENT"
    then some silent
    else if is_name s "L_STAIR"
    then some l_stair
    else none

bad_type : ℕ → String
bad_type type =
    "Unsupported parameter type " ++ to_string type ++ ". Use INTEGER (type=2) or STRING (type=4)."

integer_gait : ℤ → String ⊎ ℕ
integer_gait (pos n) =
    if leb n 255 then inr n else inl ("Integer value " ++ to_string n ++ " out of range [0, 255].")
integer_gait (negsuc n) =
    inl ("Integer value " ++ to_string_int (negsuc n) ++ " out of range [0, 255].")

-- The gait that a parameter names, or the reason why it names none.
unfoldable pub parse_gait : ParameterValue → String ⊎ ℕ
unfolding gait_named integer_gait bad_type
parse_gait (integer raw) = integer_gait raw
parse_gait (text s) = elim (gait_named s) [
  | some g ↦ inr (gait_code g)
  | none ↦ inl (
      "Unknown gait name '" ++ s ++ "'. Supported: WALK, OBSTACLE, SLOPE, RUN, STAIR_SOLID, "
      ++ "STAIR_ACC, STAIR45_ACC, L_WALK, MOUNTAIN, SILENT, L_STAIR.")
]
parse_gait (other type) = inl (bad_type type)

integer_height : ℤ → String ⊎ ℤ
integer_height raw =
    let bad = inl (
      "Unsupported body_height integer "
      ++ to_string_int raw
      ++ ". Use 0 (CRAWL) or 2 (NORMAL).") in
    elim raw [ pos n ↦ if n == 0 || n == 2 then inr (pos n) else bad | negsuc n ↦ bad ]

unfoldable pub parse_height : ParameterValue → String ⊎ ℤ
unfolding integer_height bad_type
parse_height (integer raw) = integer_height raw
parse_height (text s) =
    if is_name s "CRAWL"
    then inr (pos 0)
    else if is_name s "NORMAL"
    then inr (pos 2)
    else inl ("Unknown body_height name '" ++ s ++ "'. Supported: CRAWL, NORMAL.")
parse_height (other type) = inl (bad_type type)

-- The handlers have the same form: the number of parameters, the name, the value, the action.
module _ {V : Type 0} (name : String) (parse : ParameterValue → String ⊎ V)
    (action : V → Act ActionResult) where
  run_parsed : String ⊎ V → World → Option SetParametersResult × World
  run_parsed (inl reason) w = (some (refused reason), w)
  run_parsed (inr v) w =
      let (r, w') = execute_suppressed (action v) w in
      (elim r [ some done ↦ some (reported done) | none ↦ none ], w')

  set_one : Bool → Parameter → World → Option SetParametersResult × World
  unfolding run_parsed
  set_one false param w = (
    some
        (refused ("Unknown parameter '" ++ param.name ++ "'. Only '" ++ name ++ "' is supported.")),
    w,
  )
  set_one true param w = run_parsed (parse param.value) w

  listed : Option SetParametersResult × World → Option (List SetParametersResult) × World
  listed (some r, w) = (some (r ∷ []), w)
  listed (none, w) = (none, w)

  unfoldable pub set_parameters : List Parameter → World → Option (List SetParametersResult) × World
  unfolding set_one listed
  set_parameters [] w = (
    some
        (refused ("set_" ++ name ++ " expects exactly one parameter named '" ++ name ++ "'.") ∷ []),
    w,
  )
  set_parameters (param ∷ []) w = listed (set_one (same_text param.name name) param w)
  set_parameters (param ∷ more ∷ rest) w = (
    some (
        map
          (λ _.
            refused ("set_" ++ name ++ " expects exactly one parameter named '" ++ name ++ "'."))
          (param ∷ more ∷ rest)),
    w,
  )

module _ (p : Platform) (c : Callbacks) where
  -- The action of `handleStandRequest`; the target gait is the node's parameter.
  stand_and_confirm : ℕ → Act ActionResult
  stand_and_confirm target = do
    stood ← enclose (stand p c target)
    let confirm = do
      manual ← ensure_manual_mode p c
      if manual
          then pure stood
          else pure (result false "Stand succeeded, but robot did not confirm manual mode.")
    if stood.success then confirm else pure stood

  -- Also `handleReadyRequest`, which calls it.
  unfoldable pub handle_stand_request : Config → World → Option ActionResult × World
  unfolding execute_suppressed stand_and_confirm
  handle_stand_request cfg = execute_suppressed (stand_and_confirm cfg.stand_target_gait)

  unfoldable pub handle_lie_request : ℕ → World → Option ActionResult × World
  unfolding execute_suppressed
  handle_lie_request polls = execute_suppressed (lie_down p c polls)

  unfoldable pub handle_soft_estop_request : World → Option ActionResult × World
  unfolding execute_suppressed
  handle_soft_estop_request = execute_suppressed (do
    ensure_control_takeover p c control_warmup_ms control_warmup_pulse_ms
    act (c.command_sender cmd_soft_estop)
    pure (result true "Soft estop command sent."))

  unfoldable pub handle_set_gait_request :
      List Parameter → World → Option (List SetParametersResult) × World
  unfolding set_parameters parse_gait
  handle_set_gait_request = set_parameters "gait" parse_gait (set_navigation_gait p c)

  unfoldable pub handle_set_body_height_request :
      List Parameter → World → Option (List SetParametersResult) × World
  unfolding set_parameters parse_height
  handle_set_body_height_request = set_parameters "body_height" parse_height (set_body_height p c)

  unfoldable pub handle_release_control_request : Floats → World → ActionResult × World
  unfolding release_control_ownership send_velocity_command
  handle_release_control_request fl w =
      let (released, w1) = release_control_ownership w in
      let w2 =
        send_velocity_command p fl (fl.hundredths 0) (fl.hundredths 0) (fl.hundredths 0) w1 in
      (
        if released
            then result true "Control released and heartbeat stopped."
            else result true "No active control session to release.",
        w2,
      )
