-- ===== src/X30/Protocol.antt =====
-- include/nav_bridge/x30/x30_protocol.hpp: the state and gait numbers, the command codes, and
-- the building of a command. A state that comes from the wire stays a number (`uint8_t`).
use nav_bridge.Prelude.{ℕ, ◌≡◌, refl, sym, ◌↔◌, Option, none, some, arith, if◌then◌else◌, ◌==◌}
use nav_bridge.Prelude.Int.{ℤ, bits32}

pub data BasicState : Type 0 where
  lying_down standing_up initial_stand force_stand stepping going_down soft_estop rl_mode :
      BasicState

abbrev pub basic_code : BasicState → ℕ
basic_code lying_down = 0
basic_code standing_up = 1
basic_code initial_stand = 2
basic_code force_stand = 3
basic_code stepping = 4
basic_code going_down = 5
basic_code soft_estop = 6
basic_code rl_mode = 16

pub data GaitState : Type 0 where
  walk obstacle slope run stair_solid stair_acc stair45_acc l_walk mountain silent l_stair :
      GaitState

abbrev pub gait_code : GaitState → ℕ
gait_code walk = 0
gait_code obstacle = 1
gait_code slope = 2
gait_code run = 3
gait_code stair_solid = 6
gait_code stair_acc = 7
gait_code stair45_acc = 8
gait_code l_walk = 32
gait_code mountain = 33
gait_code silent = 34
gait_code l_stair = 36

-- `switch (static_cast<GaitState>(gait))`: the label that a number selects, if there is one.
abbrev pub gait_of : ℕ → Option GaitState
gait_of n =
    if n == 0
    then some walk
    else if n == 1
    then some obstacle
    else if n == 2
    then some slope
    else if n == 3
    then some run
    else if n == 6
    then some stair_solid
    else if n == 7
    then some stair_acc
    else if n == 8
    then some stair45_acc
    else if n == 32
    then some l_walk
    else if n == 33
    then some mountain
    else if n == 34
    then some silent
    else if n == 36
    then some l_stair
    else none

-- `int8_t`, kept as its 8-bit pattern: CRAWL is -1.
pub data BodyHeightState : Type 0 where
  crawl normal : BodyHeightState

abbrev pub height_code : BodyHeightState → ℕ
height_code crawl = 255
height_code normal = 0

abbrev pub cmd_heartbeat : ℕ
cmd_heartbeat = 0x21040001

abbrev pub cmd_query_103 : ℕ
cmd_query_103 = 0x21020001

abbrev pub cmd_stand_up_down : ℕ
cmd_stand_up_down = 0x21010202

abbrev pub cmd_force_control : ℕ
cmd_force_control = 0x2101020a

abbrev pub cmd_motion : ℕ
cmd_motion = 0x21010201

abbrev pub cmd_vel_forward : ℕ
cmd_vel_forward = 0x21010130

abbrev pub cmd_vel_lateral : ℕ
cmd_vel_lateral = 0x21010131

abbrev pub cmd_vel_yaw : ℕ
cmd_vel_yaw = 0x21010135

abbrev pub cmd_manual_mode : ℕ
cmd_manual_mode = 0x21010c02

abbrev pub cmd_height_switch : ℕ
cmd_height_switch = 0x21010406

abbrev pub cmd_gait_walk : ℕ
cmd_gait_walk = 0x21010300

abbrev pub cmd_gait_slope : ℕ
cmd_gait_slope = 0x21010402

abbrev pub cmd_gait_obstacle : ℕ
cmd_gait_obstacle = 0x21010401

abbrev pub cmd_gait_stair : ℕ
cmd_gait_stair = 0x21010405

abbrev pub cmd_gait_stair_acc : ℕ
cmd_gait_stair_acc = 0x2101040a

abbrev pub cmd_gait_stair45_acc : ℕ
cmd_gait_stair45_acc = 0x2101040b

abbrev pub cmd_gait_mountain : ℕ
cmd_gait_mountain = 0x21010421

abbrev pub cmd_gait_l_walk : ℕ
cmd_gait_l_walk = 0x21010420

abbrev pub cmd_gait_silent : ℕ
cmd_gait_silent = 0x21010422

abbrev pub cmd_gait_l_stair : ℕ
cmd_gait_l_stair = 0x21010424

abbrev pub cmd_gait_run : ℕ
cmd_gait_run = 0x31010307

abbrev pub cmd_soft_estop : ℕ
cmd_soft_estop = 0x21010c0e

abbrev pub cmd_vel_source : ℕ
cmd_vel_source = 0x3101ee03

abbrev pub cmd_charge_manager : ℕ
cmd_charge_manager = 0x91910250

abbrev pub cmd_charge_manager_query : ℕ
cmd_charge_manager_query = 0x91910253

abbrev pub recv_rcs_data : ℕ
recv_rcs_data = 0x1008

abbrev pub recv_motion_state : ℕ
recv_motion_state = 0x1009

abbrev pub recv_controller_sensor : ℕ
recv_controller_sensor = 0x100a

abbrev pub recv_battery : ℕ
recv_battery = 0x21050f0a

abbrev pub recv_body_height : ℕ
recv_body_height = 0x11050f08

-- A simple command: `paramters_size` holds the bits of its value.
pub record CommandHead : Type 0 where
  pub code : ℕ
  pub paramters_size : ℕ
  pub type : ℕ

abbrev pub make_simple_command : ℕ → ℤ → CommandHead
make_simple_command code value = record { code = code; paramters_size = bits32 value; type = 0 }

gait_of-gait_code : (g : GaitState) → gait_of (gait_code g) ≡ some g
gait_of-gait_code walk = refl
gait_of-gait_code obstacle = refl
gait_of-gait_code slope = refl
gait_of-gait_code run = refl
gait_of-gait_code stair_solid = refl
gait_of-gait_code stair_acc = refl
gait_of-gait_code stair45_acc = refl
gait_of-gait_code l_walk = refl
gait_of-gait_code mountain = refl
gait_of-gait_code silent = refl
gait_of-gait_code l_stair = refl

code_of-gait : (n : ℕ) (g : GaitState) → gait_of n ≡ some g → gait_code g ≡ n
code_of-gait n g e = ground arith

-- A gait's number selects that gait, and a number that selects a gait is the gait's.
gait_of_iff : (n : ℕ) (g : GaitState) → (gait_of n ≡ some g) ↔ (gait_code g ≡ n)
gait_of_iff n g = (code_of-gait n g, λ e. rw (sym e) (gait_of-gait_code g))
