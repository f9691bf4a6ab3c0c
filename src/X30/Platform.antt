-- ===== src/X30/Platform.antt =====
-- The threads of the X30 node. `rclcpp::spin` runs every service and the control timer in one
-- thread, whose own state is a `World`. The receive threads write the variables of a `Reading` at
-- any time: a `Platform` says what they hold at each instant of the steady clock, in nanoseconds,
-- when a wait or a sleep ends, and whether `sendto` takes a packet.
use nav_bridge.Prelude.{ℕ, ◌+◌, ◌*◌, ◌≤◌, ◌<◌, ◌≡◌, Bool, false, Option, none, some, List, ◌∷◌}
use nav_bridge.Prelude.Exec.{Exec, next, exit}
use nav_bridge.X30.Protocol.{BasicState, GaitState, BodyHeightState, CommandHead}
use nav_bridge.X30.Store.{Store, basic_matches, gait_matches, height_matches}
use Prim.Native.String.{String}

-- What other threads write and the service thread reads.
pub record Reading : Type 0 where
  pub store : Store
  pub open store use *
  pub is_nav_mode : Bool
  pub charge_response_seq : ℕ
  pub latest_charge_response_state : ℕ
  pub running : Bool

-- The remote ends: the motion host, and the perception host's two ports.
pub data Link : Type 0 where
  motion charge charge_config : Link

pub record Sent : Type 0 where
  pub at : ℕ
  pub link : Link
  pub head : CommandHead

-- `last_heartbeat_sent` is `none` for `time_point::min()`. `sent` has the packets that were handed
-- to a socket, the newest first.
pub record World : Type 0 where
  pub now : ℕ
  pub control_latched : Bool
  pub control_session_started : Bool
  pub control_query_sent : Bool
  pub last_heartbeat_sent : Option ℕ
  pub cmd_vel_suppression_depth : ℕ
  pub sent : List Sent

pub record ActionResult : Type 0 where
  pub success : Bool
  pub message : String

abbrev pub Act : Type 0 → Type 0
Act A = Exec World ActionResult A

abbrev pub result : Bool → String → ActionResult
result b m = record { success = b; message = m }

-- The early return of the first guard that refuses, with its message.
unfoldable pub refuse : Option String → Act Unit
refuse none w = (next tt, w)
refuse (some message) w = (exit (result false message), w)

-- Milliseconds in the ticks of the clock.
abbrev pub tick : ℕ
tick = 1000000

-- `after t` is when the next statement runs, after one that ran at t.
pub record Platform : Type 0 where
  pub read : ℕ → Reading
  pub after : ℕ → ℕ
  pub wake : ℕ → ℕ → (Reading → Bool) → ℕ
  pub slept : ℕ → ℕ → ℕ
  pub delivers : Link → ℕ → Bool

-- What the C++ library promises is that `steady_clock` does not go back, that `wait_for` gives up only
-- after its time, and that `sleep_for` sleeps at least as long as asked. Beyond that, a statement is
-- taken to last a tick of the clock (a nanosecond) at least, so that the clock moves on.
pub record IsPlatform (p : Platform) : Type 0 where
  pub after_lt : (t : ℕ) → t < p.after t
  pub wake_le : (t d : ℕ) (q : Reading → Bool) → t ≤ p.wake t d q
  pub wake_timeout :
      (t d : ℕ) (q : Reading → Bool)
      → q (p.read (p.wake t d q)) ≡ false
      → t + d * tick ≤ p.wake t d q
  pub slept_le : (t d : ℕ) → t + d * tick ≤ p.slept t d

module _ (p : Platform) where
  abbrev pub elapse : ℕ → World → World
  elapse t w = record w { now = p.after t }

  -- `steady_clock::now()`
  unfoldable pub read_clock : World → ℕ × World
  read_clock w = (w.now, elapse w.now w)

  -- A read of shared state under its lock.
  unfoldable pub look {ℓ} : {A : Type ℓ} → (Reading → A) → World → A × World
  look f w = (f (p.read w.now), elapse w.now w)

  -- `cv_.wait_for(lock, d, q)`: its value is that of the predicate when it ends.
  unfoldable pub wait_for : (Reading → Bool) → ℕ → World → Bool × World
  wait_for q d w = let t = p.wake w.now d q in (q (p.read t), elapse t w)

  unfoldable pub sleep_for : ℕ → World → World
  sleep_for d w = record w { now = p.slept w.now d }

  -- The value is whether all bytes were taken.
  unfoldable pub send : Link → CommandHead → World → Bool × World
  send link head w = (
    p.delivers link w.now,
    elapse w.now (record w { sent = record { at = w.now; link = link; head = head } ∷ w.sent }),
  )

  unfoldable pub wait_for_basic_state : List BasicState → ℕ → World → Bool × World
  wait_for_basic_state targets = wait_for (λ r. basic_matches targets r.store)

  unfoldable pub wait_for_gait_state : List GaitState → ℕ → World → Bool × World
  wait_for_gait_state targets = wait_for (λ r. gait_matches targets r.store)

  unfoldable pub wait_for_state : (ℕ → ℕ → Bool) → ℕ → World → Bool × World
  wait_for_state q = wait_for (λ r. q r.basic_state r.gait_state)

  unfoldable pub wait_for_body_height_state : List BodyHeightState → ℕ → World → Bool × World
  wait_for_body_height_state targets = wait_for (λ r. height_matches targets r.store)
