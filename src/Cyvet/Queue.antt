-- ===== src/Cyvet/Queue.antt =====
-- src/cyvet/cyvet_backend.cpp: the queue of commands between the services and the worker, with the stops
-- that go before everything else. What an action does over the SDK is not modelled here.
pub mod Stops
pub mod Reaches
pub mod Velocities
pub mod Order
pub mod Tests
use nav_bridge.Prelude.{
  ℕ, suc, ◌+◌, ◌-◌, ◌*◌, ◌≡◌, Bool, true, false, not, ◌&&◌, ◌||◌, Option, none, some, List, [], ◌∷◌,
  ltb, leb, ◌==◌, length, if◌then◌else◌,
}
use nav_bridge.Prelude.Text.{same_text}
use nav_bridge.Backend.{nanoseconds_per_ms, Doubles, BackendResult, ok, failed}
use Prim.Native.String.{String, ◌++◌}

-- What the public operations submit.
pub data Action : Type 0 where
  connect_robot acquire stand lie release estop disconnect : Action
  switch_profile : String → Action

-- `submitStop`
abbrev pub is_priority : Action → Bool
is_priority lie = true
is_priority release = true
is_priority estop = true
is_priority disconnect = true
is_priority a = false

-- `prepare` is true.
abbrev pub is_prepare : Action → Bool
is_prepare stand = true
is_prepare (switch_profile p) = true
is_prepare a = false

pub record Job : Type 0 where
  pub action : Action
  pub generation : ℕ

pub record Velocity (d : Doubles) : Type 0 where
  pub x : d.Value
  pub y : d.Value
  pub yaw : d.Value
  pub at : ℕ
  pub generation : ℕ

pub record Gate (d : Doubles) : Type 0 where
  pub quitting : Bool
  pub ready : Bool
  pub halt_pending : Bool
  pub generation : ℕ
  pub stop_requests : ℕ
  pub urgent : List Job
  pub normal : List Job
  pub velocity : Option (Velocity d)
  pub connected : Bool
  pub control_owned : Bool
  pub mode : ℕ
  pub selected_profile : String
  pub acknowledged_profile : String
  pub reported_profile : String
  pub estop_latched : Bool
  pub velocity_active : Bool
  pub last_fault : String

-- `push_back`
abbrev pub added : List Job → Job → List Job
added [] job = job ∷ []
added (x ∷ xs) job = x ∷ added xs job

-- The job that the worker takes.
abbrev pub popped : List Job → List Job → Option Job × (List Job × List Job)
popped (job ∷ urgent) normal = (some job, (urgent, normal))
popped [] (job ∷ normal) = (some job, ([], normal))
popped [] [] = (none, ([], []))

-- `ended` are the stops whose result is set and whose caller has not gone on yet.
pub record System (d : Doubles) : Type 0 where
  pub gate : Gate d
  pub running : Option Job
  pub ended : ℕ

abbrev pub stops : Option Job → ℕ
stops none = 0
stops (some job) = if is_priority job.action then 1 else 0

abbrev pub profile_description : String → String → String
profile_description profile reported_profile =
    "controlProfile="
    ++ profile
    ++ (if same_text reported_profile ""
        then " (RPC accepted; firmware does not report model identity)"
        else " (reported by firmware)")

module _ {d : Doubles} where
  abbrev pub initial : String → Gate d
  initial default_control_profile = record {
    quitting = false;
    ready = false;
    halt_pending = false;
    generation = 0;
    stop_requests = 0;
    urgent = [];
    normal = [];
    velocity = none;
    connected = false;
    control_owned = false;
    mode = 0;
    selected_profile = default_control_profile;
    acknowledged_profile = "";
    reported_profile = "";
    estop_latched = false;
    velocity_active = false;
    last_fault = "";
  }

  abbrev pub inhibit : Gate d → Gate d
  inhibit s = record s { ready = false; generation = suc s.generation; velocity = none }

  abbrev pub interrupted : ℕ → Gate d → Bool
  interrupted token s = s.quitting || not (s.generation == token)

  -- Why `submit` refuses, if it does.
  abbrev pub refusal : Action → Gate d → Option String
  refusal a s =
      if s.quitting
      then some "Cyvet backend is stopping"
      else if is_prepare a && (ltb 0 s.stop_requests || s.halt_pending)
      then some "A stop/release request is pending"
      else if not (is_priority a) && leb 16 (length s.normal + length s.urgent)
      then some "Cyvet command queue is full"
      else none

  -- The rest of its section.
  abbrev pub accepted : Action → Gate d → Gate d
  accepted a s =
      let cleared = if is_priority a || is_prepare a then inhibit s else s in
      let job : Job = record { action = a; generation = cleared.generation } in
      if is_priority a
      then record cleared {
        stop_requests = suc cleared.stop_requests;
        urgent = added cleared.urgent job;
      }
      else record cleared { normal = added cleared.normal job }

  abbrev pub take : Gate d → Option Job × Gate d
  take s =
      let (job, queues) = popped s.urgent s.normal in
      (job, record s { urgent = queues.0; normal = queues.1 })

  -- The last section of `stand`.
  abbrev pub stood : String → ℕ → Gate d → BackendResult × Gate d
  stood profile token s = if interrupted token s then (failed "Preparation canceled", s) else (
    ok (
        "Walking at zero velocity confirmed; navigation ready; "
        ++ profile_description profile s.reported_profile),
    record s {
      selected_profile = profile;
      mode = if same_text profile "slow" then 0 else 3;
      acknowledged_profile = profile;
      velocity = none;
      estop_latched = false;
      velocity_active = false;
      last_fault = "";
      ready = true;
    },
  )

  -- The last section of `switchProfile`.
  abbrev pub switched : String → ℕ → Gate d → BackendResult × Gate d
  switched profile token s =
      if interrupted token s then (failed "Profile change canceled", s) else (
        ok (
            "Stopped and walking confirmed; "
            ++ profile_description profile s.reported_profile
            ++ "; send new cmd_vel to move"),
        record s {
          selected_profile = profile;
          mode = if same_text profile "slow" then 0 else 3;
          acknowledged_profile = profile;
          velocity = none;
          ready = true;
        },
      )

  -- `now` may be older than the velocity.
  abbrev pub is_stale : ℕ → ℕ → Gate d → Velocity d → Bool
  is_stale cmd_vel_timeout_ms now s v =
      not (v.generation == s.generation)
      || ltb (cmd_vel_timeout_ms * nanoseconds_per_ms) (now - v.at)

  abbrev pub unless_stale : ℕ → ℕ → Gate d → Option (Velocity d) → Option (Velocity d)
  unless_stale cmd_vel_timeout_ms now s none = none
  unless_stale cmd_vel_timeout_ms now s (some v) =
      if is_stale cmd_vel_timeout_ms now s v then none else some v

  -- The section of `dispatchVelocity` that lets go of a velocity.
  abbrev pub expire : ℕ → ℕ → Gate d → Gate d
  expire cmd_vel_timeout_ms now s = record s {
    velocity = unless_stale cmd_vel_timeout_ms now s s.velocity;
  }

  -- `CyvetBackend::move`
  abbrev pub move : d.Value → d.Value → d.Value → ℕ → Gate d → BackendResult × Gate d
  move x y yaw now s =
      if not (d.is_finite x && d.is_finite y && d.is_finite yaw)
      then (failed "Non-finite velocity rejected", s)
      else if not s.ready || not s.control_owned || not s.connected
      then (failed "Explicit stand/ready required", s)
      else (
        ok "Latest velocity accepted for dispatch",
        record s {
          velocity = some (record { x = x; y = y; yaw = yaw; at = now; generation = s.generation });
        },
      )

module _ {d : Doubles} (default_control_profile : String) where
  pub data Step : System d → System d → Type 0 where
    submits :
        (s : System d) (a : Action)
        → refusal a s.gate ≡ none
        → Step s (record s { gate = accepted a s.gate })
    -- The callbacks of the client, the worker's watchdogs and the destructor.
    inhibits : (s : System d) → Step s (record s { gate = inhibit s.gate })
    quits : (s : System d) → Step s (record s { gate = record s.gate { quitting = true } })
    takes :
        (s : System d)
        → s.running ≡ none
        → Step s (record s { gate = (take s.gate).1; running = (take s.gate).0 })
    stands :
        (s : System d) (token : ℕ)
        → s.running ≡ some (record { action = stand; generation = token })
        → Step s (record s { gate = (stood default_control_profile token s.gate).1 })
    switches :
        (s : System d) (profile : String) (token : ℕ)
        → s.running ≡ some (record { action = switch_profile profile; generation = token })
        → Step s (record s { gate = (switched profile token s.gate).1 })
    -- The job's result is set.
    ends : (s : System d) → Step s (record s { running = none; ended = stops s.running + s.ended })
    -- The caller of a stop goes on.
    returns :
        (s : System d) (n : ℕ)
        → s.ended ≡ suc n
        → Step s (record s {
          gate = record s.gate { stop_requests = s.gate.stop_requests - 1 };
          ended = n;
        })
    moves :
        (s : System d) (x y yaw : d.Value) (now : ℕ)
        → Step s (record s { gate = (move x y yaw now s.gate).1 })
    drops :
        (s : System d) (cmd_vel_timeout_ms now : ℕ)
        → Step s (record s { gate = expire cmd_vel_timeout_ms now s.gate })
    -- What the worker records of the device in between.
    reports :
        (s : System d) (connected control_owned halt_pending estop_latched velocity_active : Bool)
        (mode : ℕ) (reported_profile last_fault : String)
        → Step s (record s {
          gate = record s.gate {
            connected = connected;
            control_owned = control_owned;
            halt_pending = halt_pending;
            estop_latched = estop_latched;
            velocity_active = velocity_active;
            mode = mode;
            reported_profile = reported_profile;
            last_fault = last_fault;
          };
        })
    -- The end of `run`: the jobs that are left get an answer.
    clears :
        (s : System d)
        → s.gate.quitting ≡ true
        → Step s (record s {
          gate = record s.gate { urgent = []; normal = [] };
          ended = length s.gate.urgent + s.ended;
        })

  pub data Reach : System d → Type 0 where
    here : Reach (record { gate = initial default_control_profile; running = none; ended = 0 })
    next : {s u : System d} → Reach s → Step s u → Reach u
