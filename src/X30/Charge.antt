-- ===== src/X30/Charge.antt =====
-- src/x30/x30_nav_bridge.cpp: the parts of the charge service that decide, and the record of the
-- charge manager's responses.
pub mod Commands
pub mod Service
use nav_bridge.Prelude.{
  ℕ, suc, ◌%◌, ◌^◌, Bool, true, false, not, ◌&&◌, ◌||◌, Option, none, some, List, [], ◌∷◌, ◌⊎◌, inl,
  inr, leb, ◌==◌, is_one_of, if◌then◌else◌,
}
use nav_bridge.Prelude.Int.{ℤ, pos, negsuc}
use nav_bridge.Prelude.Text.{to_string, to_string_int, is_name}
use nav_bridge.X30.Protocol.{CommandHead, cmd_charge_manager, cmd_charge_manager_query}
use nav_bridge.X30.Platform.{Reading}
use nav_bridge.X30.Services.{ParameterValue, integer, text, other}
use Prim.Native.String.{String, ◌++◌}

abbrev pub charge_state_idle : ℕ
charge_state_idle = 0x0000

abbrev pub charge_state_do_charge_task : ℕ
charge_state_do_charge_task = 0x0001

abbrev pub charge_state_charging : ℕ
charge_state_charging = 0x0002

abbrev pub charge_state_do_over_charge_task : ℕ
charge_state_do_over_charge_task = 0x0003

abbrev pub charge_state_pile_error : ℕ
charge_state_pile_error = 0x0004

abbrev pub charge_state_safety_warning : ℕ
charge_state_safety_warning = 0x0005

abbrev pub charge_state_tag_recv_timeout : ℕ
charge_state_tag_recv_timeout = 0x1002

abbrev pub charge_state_mark_launch_failed : ℕ
charge_state_mark_launch_failed = 0x1003

abbrev pub charge_state_tag_no_value : ℕ
charge_state_tag_no_value = 0x1005

abbrev pub charge_state_goto_stack_failed : ℕ
charge_state_goto_stack_failed = 0x1004

abbrev pub charge_state_tag_pose_jump : ℕ
charge_state_tag_pose_jump = 0x1006

abbrev pub charge_state_no_charge_plug : ℕ
charge_state_no_charge_plug = 0x1007

abbrev pub charge_state_no_charge_plug_step_back : ℕ
charge_state_no_charge_plug_step_back = 0x100a

unfoldable pub charge_state_to_string : ℕ → String
charge_state_to_string state =
    if state == charge_state_idle
    then "idle"
    else if state == charge_state_do_charge_task
    then "do_charge_task"
    else if state == charge_state_charging
    then "charging"
    else if state == charge_state_do_over_charge_task
    then "do_over_charge_task"
    else if state == charge_state_pile_error
    then "pile_error"
    else if state == charge_state_safety_warning
    then "safety_warning"
    else if state == charge_state_tag_recv_timeout
    then "TAGRECETIMEOUT"
    else if state == charge_state_mark_launch_failed
    then "MARKLAUNCHFAILED"
    else if state == charge_state_tag_no_value
    then "TAGNOVALUE"
    else if state == charge_state_goto_stack_failed
    then "GOTOSTACKFAILED"
    else if state == charge_state_tag_pose_jump
    then "TAGPOSEJUMP"
    else if state == charge_state_no_charge_plug
    then "NOCHARGEPLUG"
    else if state == charge_state_no_charge_plug_step_back
    then "NOCHARGEPLUG_STEP_BACK"
    else "unknown"

abbrev pub failures : List ℕ
failures =
    charge_state_pile_error ∷ charge_state_safety_warning ∷ charge_state_tag_recv_timeout
    ∷ charge_state_mark_launch_failed ∷ charge_state_tag_no_value ∷ charge_state_goto_stack_failed
    ∷ charge_state_tag_pose_jump ∷ charge_state_no_charge_plug
    ∷ charge_state_no_charge_plug_step_back ∷ []

unfoldable pub is_failure_charge_state : ℕ → Bool
is_failure_charge_state state = is_one_of state failures

-- 0 start, 1 stop, 2 reset, 3 query, 4 and 5 the two undock commands.
unfoldable pub is_expected_charge_state_for_command : ℕ → ℕ → Bool
is_expected_charge_state_for_command command state =
    if command == 0
    then state == charge_state_do_charge_task || state == charge_state_charging
    else if command == 1 || command == 4 || command == 5 || command == 2
    then state == charge_state_idle
    else command == 3

-- The `switch` of `executeChargeCommand`: the code and the value to send; `none` is its default.
unfoldable pub charge_switch : ℕ → Option (ℕ × ℤ)
charge_switch command =
    if command == 0
    then some (cmd_charge_manager, pos 1)
    else if command == 1
    then some (cmd_charge_manager, pos 0)
    else if command == 2
    then some (cmd_charge_manager, pos 2)
    else if command == 3
    then some (cmd_charge_manager_query, pos 0)
    else if command == 4
    then some (cmd_charge_manager, pos 0)
    else if command == 5
    then some (cmd_charge_manager, pos 0)
    else none

integer_command : ℤ → String ⊎ ℕ
integer_command (pos n) =
    if leb n 3 || n == 4 || n == 5
    then inr n
    else inl ("Integer charge_command " ++ to_string n ++ " out of range [0, 5].")
integer_command (negsuc n) =
    inl ("Integer charge_command " ++ to_string_int (negsuc n) ++ " out of range [0, 5].")

-- `parseChargeCommandParameter`, after the test of the name.
unfoldable pub parse_charge_command : ParameterValue → String ⊎ ℕ
unfolding integer_command
parse_charge_command (integer raw) = integer_command raw
parse_charge_command (text s) =
    if is_name s "START"
    then inr 0
    else if is_name s "STOP"
    then inr 1
    else if is_name s "RESET"
    then inr 2
    else if is_name s "QUERY"
    then inr 3
    else if is_name s "UNDOCK_START"
    then inr 4
    else if is_name s "UNDOCK_STOP"
    then inr 5
    else inl (
        "Unknown charge_command '" ++ s
        ++ "'. Supported: start, stop, reset, query, undock_start, undock_stop, or integer 0..5.")
parse_charge_command (other type) = inl (
    "Unsupported charge_command parameter type "
    ++ to_string type
    ++ ". Use INTEGER (type=2) or STRING (type=4).")

-- One round of `chargeReceiveLoop`: what `receive` returned, and the head it filled in.
unfoldable pub charge_receive : ℤ → CommandHead → Reading → Reading
charge_receive (negsuc n) response r = r
charge_receive (pos received) response r =
    let known = response.code == cmd_charge_manager || response.code == cmd_charge_manager_query in
    if not (leb 12 received) || not (response.type == 0) || not known then r else record r {
      latest_charge_response_state = response.paramters_size % 2 ^ 16;
      charge_response_seq = suc r.charge_response_seq;
    }
