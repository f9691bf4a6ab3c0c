-- ===== src/X30/Store.antt =====
-- include/nav_bridge/x30/robot_state_store.hpp: what the receive thread records of the robot.
-- Each method holds the store's mutex, so it is one step; the waits are in Platform.antt.
use nav_bridge.Prelude.{ℕ, Bool, true, false, not, List, ◌==◌, is_one_of, map}
use nav_bridge.X30.Protocol.{
  BasicState, GaitState, BodyHeightState, basic_code, gait_code, height_code,
}

-- Also `StateSnapshot`, which has these fields.
pub record Store : Type 0 where
  pub basic_state : ℕ
  pub gait_state : ℕ
  pub body_height_state : ℕ
  pub connected : Bool
  pub rcs_received : Bool
  pub last_receive_time : ℕ

pub record MotionStateTransition : Type 0 where
  pub previous_basic_state : ℕ
  pub previous_gait_state : ℕ
  pub previous_body_height_state : ℕ
  pub current_basic_state : ℕ
  pub current_gait_state : ℕ
  pub current_body_height_state : ℕ

abbrev transition : Store → Store → MotionStateTransition
transition before after = record {
  previous_basic_state = before.basic_state;
  previous_gait_state = before.gait_state;
  previous_body_height_state = before.body_height_state;
  current_basic_state = after.basic_state;
  current_gait_state = after.gait_state;
  current_body_height_state = after.body_height_state;
}

unfoldable pub update_motion_state : ℕ → ℕ → Store → MotionStateTransition × Store
update_motion_state basic gait s =
    let s' : Store = record s { basic_state = basic; gait_state = gait } in (transition s s', s')

unfoldable pub update_body_height_state : ℕ → Store → MotionStateTransition × Store
update_body_height_state height s =
    let s' : Store = record s { body_height_state = height } in (transition s s', s')

unfoldable pub mark_packet_received : ℕ → Store → Store
mark_packet_received now s = record s { connected = true; last_receive_time = now }

unfoldable pub mark_disconnected : Store → Store
mark_disconnected s = record s { connected = false }

-- The result says whether this was the first.
unfoldable pub mark_rcs_received : Store → Bool × Store
mark_rcs_received s = (not s.rcs_received, record s { rcs_received = true })

-- The predicates of `waitForBasicState`, `waitForGaitState` and `waitForBodyHeightState`.
abbrev pub basic_matches : List BasicState → Store → Bool
basic_matches targets s = is_one_of s.basic_state (map basic_code targets)

abbrev pub gait_matches : List GaitState → Store → Bool
gait_matches targets s = is_one_of s.gait_state (map gait_code targets)

abbrev pub height_matches : List BodyHeightState → Store → Bool
height_matches targets s = is_one_of s.body_height_state (map height_code targets)

-- `state_store_.basicState() == static_cast<uint8_t>(state)`
abbrev pub is_basic : BasicState → ℕ → Bool
is_basic state n = n == basic_code state
