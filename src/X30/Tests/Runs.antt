-- ===== src/X30/Tests/Runs.antt =====
-- Runs of the actions on the robot.
use nav_bridge.Prelude.{◌≡◌, refl, Option, some, true}
use nav_bridge.Prelude.Int.{pos}
use nav_bridge.Prelude.Text.{to_string}
use nav_bridge.Prelude.Exec.{call, ◌>>=◌, enclose}
use nav_bridge.X30.Tests.{robot, rising, trotting, lowering, config, start, calls}
use nav_bridge.X30.Platform.{
  World, ActionResult, result, refuse, look, read_clock, sleep_for, send, wait_for,
  wait_for_basic_state, wait_for_gait_state, wait_for_state, wait_for_body_height_state,
}
use nav_bridge.X30.Control.{
  acquire_control, evaluate_control_pulse, apply_control_actions, send_gait_command, warmup_control,
  is_rl_gait, is_supported_navigation_gait, is_crawl_compatible_gait,
  is_body_height_switch_allowed_gait, enter_cmd_vel_suppression, exit_cmd_vel_suppression,
}
use nav_bridge.X30.Executor.{
  ensure_control_takeover, basic_state_now, gait_state_now, send_toggle_command_with_retries,
  send_single_command_and_wait,
}
use nav_bridge.X30.Executor.Force.{force_stand_up}
use nav_bridge.X30.Executor.Stand.{stand, is_stand_target_gait, stand_target_gait_command}
use nav_bridge.X30.Executor.Lie.{lie_down}
use nav_bridge.X30.Gait.{set_navigation_gait}
use nav_bridge.X30.Height.{set_body_height, height_of}
use nav_bridge.X30.Manual.{ensure_manual_mode}
use nav_bridge.X30.Services.{execute_suppressed, handle_stand_request, handle_lie_request}
use nav_bridge.X30.Bridge.{executor_callbacks}

abbrev pub forced : Option ActionResult × World
unfolding force_stand_up
forced = call (force_stand_up (robot rising) (calls rising)) start

pub forced_run :
    call (force_stand_up (robot rising) (calls rising)) start
    ≡ (some (result true "Robot is now in force stand mode."), forced.1)
unfolding force_stand_up ◌>>=◌ basic_state_now gait_state_now look send_toggle_command_with_retries
    send_single_command_and_wait ensure_control_takeover executor_callbacks warmup_control
    read_clock acquire_control sleep_for apply_control_actions evaluate_control_pulse send
    send_gait_command wait_for_basic_state wait_for_gait_state wait_for_state
    wait_for_body_height_state wait_for enclose refuse to_string is_rl_gait
    is_supported_navigation_gait is_crawl_compatible_gait is_body_height_switch_allowed_gait
    height_of is_stand_target_gait stand_target_gait_command execute_suppressed
    enter_cmd_vel_suppression exit_cmd_vel_suppression ensure_manual_mode
forced_run = refl

abbrev pub stood : Option ActionResult × World
unfolding stand
stood = call (stand (robot trotting) (calls trotting) 32) start

pub stood_run :
    call (stand (robot trotting) (calls trotting) 32) start
    ≡ (some (result true "Robot is standing in RL mode with L_WALK gait."), stood.1)
unfolding stand ◌>>=◌ basic_state_now gait_state_now look send_toggle_command_with_retries
    send_single_command_and_wait ensure_control_takeover executor_callbacks warmup_control
    read_clock acquire_control sleep_for apply_control_actions evaluate_control_pulse send
    send_gait_command wait_for_basic_state wait_for_gait_state wait_for_state
    wait_for_body_height_state wait_for enclose refuse to_string is_rl_gait
    is_supported_navigation_gait is_crawl_compatible_gait is_body_height_switch_allowed_gait
    height_of is_stand_target_gait stand_target_gait_command execute_suppressed
    enter_cmd_vel_suppression exit_cmd_vel_suppression ensure_manual_mode
stood_run = refl

abbrev pub lay : Option ActionResult × World
unfolding lie_down
lay = call (lie_down (robot lowering) (calls lowering) 50) start

pub lay_run :
    call (lie_down (robot lowering) (calls lowering) 50) start
    ≡ (some (result true "Robot has lied down."), lay.1)
unfolding lie_down ◌>>=◌ basic_state_now gait_state_now look send_toggle_command_with_retries
    send_single_command_and_wait ensure_control_takeover executor_callbacks warmup_control
    read_clock acquire_control sleep_for apply_control_actions evaluate_control_pulse send
    send_gait_command wait_for_basic_state wait_for_gait_state wait_for_state
    wait_for_body_height_state wait_for enclose refuse to_string is_rl_gait
    is_supported_navigation_gait is_crawl_compatible_gait is_body_height_switch_allowed_gait
    height_of is_stand_target_gait stand_target_gait_command execute_suppressed
    enter_cmd_vel_suppression exit_cmd_vel_suppression ensure_manual_mode
lay_run = refl

abbrev pub switched : Option ActionResult × World
unfolding set_navigation_gait
switched = call (set_navigation_gait (robot trotting) (calls trotting) 32) start

pub switched_run :
    call (set_navigation_gait (robot trotting) (calls trotting) 32) start
    ≡ (some (result true "Navigation gait switched to L_WALK."), switched.1)
unfolding set_navigation_gait ◌>>=◌ basic_state_now gait_state_now look
    send_toggle_command_with_retries send_single_command_and_wait ensure_control_takeover
    executor_callbacks warmup_control read_clock acquire_control sleep_for apply_control_actions
    evaluate_control_pulse send send_gait_command wait_for_basic_state wait_for_gait_state
    wait_for_state wait_for_body_height_state wait_for enclose refuse to_string is_rl_gait
    is_supported_navigation_gait is_crawl_compatible_gait is_body_height_switch_allowed_gait
    height_of is_stand_target_gait stand_target_gait_command execute_suppressed
    enter_cmd_vel_suppression exit_cmd_vel_suppression ensure_manual_mode
switched_run = refl

abbrev pub crept : Option ActionResult × World
unfolding set_body_height
crept = call (set_body_height (robot trotting) (calls trotting) (pos 0)) start

pub crept_run :
    call (set_body_height (robot trotting) (calls trotting) (pos 0)) start
    ≡ (some (result true "Body height switched to CRAWL."), crept.1)
unfolding set_body_height ◌>>=◌ basic_state_now gait_state_now look send_toggle_command_with_retries
    send_single_command_and_wait ensure_control_takeover executor_callbacks warmup_control
    read_clock acquire_control sleep_for apply_control_actions evaluate_control_pulse send
    send_gait_command wait_for_basic_state wait_for_gait_state wait_for_state
    wait_for_body_height_state wait_for enclose refuse to_string is_rl_gait
    is_supported_navigation_gait is_crawl_compatible_gait is_body_height_switch_allowed_gait
    height_of is_stand_target_gait stand_target_gait_command execute_suppressed
    enter_cmd_vel_suppression exit_cmd_vel_suppression ensure_manual_mode
crept_run = refl

abbrev pub stand_answer : Option ActionResult × World
unfolding handle_stand_request
stand_answer = handle_stand_request (robot trotting) (calls trotting) config start

pub stand_answer_run :
    handle_stand_request (robot trotting) (calls trotting) config start
    ≡ (some (result true "Robot is standing in RL mode with L_WALK gait."), stand_answer.1)
unfolding handle_stand_request stand ◌>>=◌ basic_state_now gait_state_now look
    send_toggle_command_with_retries send_single_command_and_wait ensure_control_takeover
    executor_callbacks warmup_control read_clock acquire_control sleep_for apply_control_actions
    evaluate_control_pulse send send_gait_command wait_for_basic_state wait_for_gait_state
    wait_for_state wait_for_body_height_state wait_for enclose refuse to_string is_rl_gait
    is_supported_navigation_gait is_crawl_compatible_gait is_body_height_switch_allowed_gait
    height_of is_stand_target_gait stand_target_gait_command execute_suppressed
    enter_cmd_vel_suppression exit_cmd_vel_suppression ensure_manual_mode
stand_answer_run = refl

abbrev pub lie_answer : Option ActionResult × World
unfolding handle_lie_request
lie_answer = handle_lie_request (robot lowering) (calls lowering) 50 start

pub lie_answer_run :
    handle_lie_request (robot lowering) (calls lowering) 50 start
    ≡ (some (result true "Robot has lied down."), lie_answer.1)
unfolding handle_lie_request lie_down ◌>>=◌ basic_state_now gait_state_now look
    send_toggle_command_with_retries send_single_command_and_wait ensure_control_takeover
    executor_callbacks warmup_control read_clock acquire_control sleep_for apply_control_actions
    evaluate_control_pulse send send_gait_command wait_for_basic_state wait_for_gait_state
    wait_for_state wait_for_body_height_state wait_for enclose refuse to_string is_rl_gait
    is_supported_navigation_gait is_crawl_compatible_gait is_body_height_switch_allowed_gait
    height_of is_stand_target_gait stand_target_gait_command execute_suppressed
    enter_cmd_vel_suppression exit_cmd_vel_suppression ensure_manual_mode
lie_answer_run = refl
