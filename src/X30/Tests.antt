-- ===== src/X30/Tests.antt =====
-- A robot that goes through its states by itself, and the theorems applied to it.
pub mod Runs
pub mod Actions
pub mod Signals
pub mod Charging
use nav_bridge.Prelude.{
  ℕ, zero, suc, ◌/◌, not, ◌+◌, ◌*◌, ◌≤◌, ◌<◌, ◌≡◌, refl, Bool, true, false, Option, none, some,
  List, [], ◌∷◌, arith, ltb, if◌then◌else◌, Bool-cases, inl, inr,
}
use nav_bridge.Prelude.Int.{ℤ, pos, negsuc, pos_part}
use nav_bridge.X30.Protocol.{
  BasicState, basic_code, lying_down, initial_stand, force_stand, stepping,
}
use nav_bridge.X30.Store.{Store}
use nav_bridge.X30.Axis.{Floats}
use nav_bridge.X30.Platform.{Platform, IsPlatform, Reading, World, ActionResult, result, tick}
use nav_bridge.X30.Control.{Config}
use nav_bridge.X30.Executor.{Callbacks}
use nav_bridge.X30.Executor.Rules.{IsCallbacks}
use nav_bridge.X30.Bridge.{executor_callbacks, executor_callbacks-IsCallbacks}

-- A statement takes a millisecond, and a waiting thread is woken at once or not before its time.
abbrev robot : (ℕ → Reading) → Platform
robot states = record {
  read = states;
  after = λ t. t + tick;
  wake = λ t d q. if q (states t) then t else t + d * tick;
  slept = λ t d. t + d * tick;
  delivers = λ link t. true;
}

robot-IsPlatform : (states : ℕ → Reading) → IsPlatform (robot states)
robot-IsPlatform states = record {
  after_lt = λ t. omega arith;
  wake_le = λ t d q. ground arith;
  wake_timeout = λ t d q e. elim (Bool-cases (q (states t))) [
    | inl h ↦ absurd (cc (h, e))
    | inr h ↦ ground arith
  ];
  slept_le = λ t d. omega arith;
}

abbrev shows : ℕ → ℕ → Reading
shows basic gait = record {
  store = record {
    basic_state = basic;
    gait_state = gait;
    body_height_state = 0;
    connected = true;
    rcs_received = true;
    last_receive_time = 0;
  };
  is_nav_mode = true;
  charge_response_seq = 0;
  latest_charge_response_state = 0;
  running = true;
}

-- Lying for two seconds, then in the walking gait for four, then in force stand.
abbrev rising : ℕ → Reading
rising t =
    if ltb t (2000 * tick)
    then shows (basic_code lying_down) 0
    else if ltb t (6000 * tick)
    then shows (basic_code stepping) 0
    else shows (basic_code force_stand) 0

-- Stepping for three seconds, then in RL mode and crawling; in navigation mode for fourteen.
abbrev trotting : ℕ → Reading
trotting t =
    let r = if ltb t (3000 * tick) then shows (basic_code stepping) 0 else shows 16 32 in
    record r {
      store = record r.store { body_height_state = if ltb t (3000 * tick) then 0 else 255 };
      is_nav_mode = ltb t (14000 * tick);
    }

-- In force stand for three seconds, then lying down.
abbrev lowering : ℕ → Reading
lowering t =
    if ltb t (3000 * tick)
    then shows (basic_code force_stand) 0
    else shows (basic_code lying_down) 0

abbrev opposite : ℕ → ℤ
opposite zero = pos 0
opposite (suc m) = negsuc m

-- Fixed point with two decimals.
abbrev pub scaled : ℕ → ℕ → ℤ → ℤ
scaled a b (pos n) = pos (n * a / b)
scaled a b (negsuc n) = opposite ((n + 1) * a / b)

abbrev pub product : ℤ → ℕ → ℤ
product (pos a) n = pos (a * n)
product (negsuc a) n = opposite ((a + 1) * n)

abbrev fixed_negate : ℤ → ℤ
fixed_negate (pos n) = opposite n
fixed_negate (negsuc n) = pos (suc n)

abbrev fixed_lt : ℤ → ℤ → Bool
fixed_lt (pos m) (pos n) = ltb m n
fixed_lt (pos m) (negsuc n) = false
fixed_lt (negsuc m) (pos n) = true
fixed_lt (negsuc m) (negsuc n) = ltb n m

abbrev fixed : Floats
fixed = record {
  Value = ℤ;
  hundredths = λ n. pos n;
  lt = fixed_lt;
  le = λ x y. not (fixed_lt y x);
  negate = fixed_negate;
  divide = λ x y. scaled 100 (pos_part y) x;
  narrow = λ x. x;
  times = product;
  truncate = scaled 1 100;
}

abbrev config : Config
config = record { heartbeat_interval_ms = 300; cmd_vel_timeout_ms = 500; stand_target_gait = 32 }

abbrev start : World
start = record {
  now = 0;
  control_latched = false;
  control_session_started = false;
  control_query_sent = false;
  last_heartbeat_sent = none;
  cmd_vel_suppression_depth = 0;
  sent = [];
}

abbrev calls : (ℕ → Reading) → Callbacks
calls states = executor_callbacks (robot states) fixed config

calls-IsCallbacks : (states : ℕ → Reading) → IsCallbacks (calls states)
calls-IsCallbacks states =
    executor_callbacks-IsCallbacks (robot states) fixed config (robot-IsPlatform states)
