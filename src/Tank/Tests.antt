-- ===== src/Tank/Tests.antt =====
-- A device that answers every request, and the theorems applied to it.
pub mod Commands
pub mod Ready
use nav_bridge.Prelude.{
  ℕ, zero, suc, ◌+◌, ◌≡◌, refl, Bool, true, false, not, ◌&&◌, ◌||◌, Option, none, some, ltb,
  if◌then◌else◌,
}
use nav_bridge.Prelude.Int.{ℤ, pos, negsuc}
use nav_bridge.Prelude.Text.{same_text}
use nav_bridge.Backend.{Doubles}
use nav_bridge.Tank.State.{Options, Tank}
use nav_bridge.Tank.Process.{Process, Reply, answered, done, section, ask, ◌>>=◌}
use nav_bridge.Tank.Http.{
  Jsoncpp, request, interpret, query_state, query_brake, read_state, is_read_path, judged,
}
use nav_bridge.Tank.Actions.{
  prepare, ready, stop, close, enter_idle, state_after, brake_after, release_after, stand_still,
  conclude, halt_device,
}
use nav_bridge.Tank.System.{
  System, to_ready, to_stop, forget, Advance, run, hear, start, inhibited, Step, Reach, here, next,
  io_runs, wants_ready, readies, wants_stop, stops, connects, prepares, quits, quits_inhibited,
  closes,
}
use nav_bridge.Tank.System.Ownership.Reaches.{control_owner, stop_prevails, closing_disowns}
use Prim.Native.String.{String, ◌++◌}

abbrev pub int_lt : ℤ → ℤ → Bool
int_lt (pos a) (pos b) = ltb a b
int_lt (pos a) (negsuc b) = false
int_lt (negsuc a) (pos b) = true
int_lt (negsuc a) (negsuc b) = ltb b a

abbrev pub int_negate : ℤ → ℤ
int_negate (pos zero) = pos zero
int_negate (pos (suc n)) = negsuc n
int_negate (negsuc n) = pos (suc n)

-- Numbers that are all finite.
abbrev pub integers : Doubles
integers = record {
  Value = ℤ;
  nought = pos 0;
  minus_one = negsuc 0;
  hundred = pos 100;
  is_finite = λ v. true;
  lt = int_lt;
  equal = λ v w. not (int_lt v w) && not (int_lt w v);
  negate = int_negate;
}

-- What is read of a reply, which is named by its text.
pub data Json : Type 0 where
  nothing : Json
  flag : Bool → Json
  number : ℤ → Json
  word : String → Json
  response content : String → Json

abbrev pub member_of : Json → String → Json
member_of (response s) name =
    if same_text name "successed" then flag (not (same_text s "refused")) else content s
member_of (content s) name =
    if same_text name "brake_state"
    then flag (same_text s "braked")
    else if same_text name "state_operation"
    then word "Idle"
    else number (pos 50)
member_of j name = nothing

abbrev pub has_members : Json → Bool
has_members (response s) = true
has_members (content s) = true
has_members j = false

abbrev pub is_flag : Json → Bool
is_flag (flag b) = true
is_flag j = false

abbrev pub is_word : Json → Bool
is_word (word s) = true
is_word j = false

abbrev pub is_number : Json → Bool
is_number (number v) = true
is_number j = false

abbrev pub flag_of : Json → Bool
flag_of (flag b) = b
flag_of j = false

abbrev pub word_of : Json → String
word_of (word s) = s
word_of j = ""

abbrev pub number_of : Json → ℤ
number_of (number v) = v
number_of j = pos 0

abbrev pub json : Jsoncpp integers
json = record {
  Json = Json;
  parse = λ s. some (response s);
  null = nothing;
  text = word;
  encode = λ j. "";
  member = member_of;
  is_object = has_members;
  is_bool = is_flag;
  is_string = is_word;
  is_numeric = is_number;
  as_bool = flag_of;
  as_string = word_of;
  as_double = number_of;
}

abbrev pub options : Options integers
options = record {
  enable_motion_output = true;
  startup_acquire_control = true;
  max_linear_speed = pos 2;
  max_angular_speed = pos 1;
  cmd_vel_timeout_ms = 200;
  telemetry_timeout_ms = 1000;
  move_failure_limit = 3;
  state_failure_limit = 3;
  move_failure_timeout_ms = 500;
}

-- What holds `io` goes on by one step, and hears that all is well.
abbrev acknowledged : Reply
acknowledged = answered 200 "released"

abbrev io_step : ℕ → System integers → System integers
io_step now s = elim s.io [
  | done x ↦ s
  | section f k ↦ record s { tank = f now s.tank; io = k now s.tank }
  | ask r k ↦ record s { io = k acknowledged }
]

module _ (o : Options integers) where
  Reach-advanced :
      (s : System integers) (p : Process integers Unit)
      → Reach json o (record s { io = p })
      → (now : ℕ) → Reach json o (io_step now (record s { io = p }))
  Reach-advanced s (done x) h now = h
  Reach-advanced s (section f k) h now = next h (io_runs _ _ _ (run _ now f k))
  Reach-advanced s (ask r k) h now = next h (io_runs _ _ _ (hear _ r k acknowledged))

  abbrev io_steps : ℕ → System integers → System integers
  io_steps zero s = s
  io_steps (suc n) s = io_steps n (io_step n s)

  Reach-io_steps : (n : ℕ) (s : System integers) → Reach json o s → Reach json o (io_steps n s)
  Reach-io_steps zero s h = h
  Reach-io_steps (suc n) s h = Reach-io_steps n (io_step n s) (Reach-advanced s s.io h n)

-- The backend once it has connected, and has control from the start.
abbrev connecting : System integers
connecting =
    let s = start options in
    record s {
      tank = record s.tank { running = true };
      io = forget (prepare json options false 0);
      closing = false;
    }

abbrev connected : System integers
connected = io_steps options 6 connecting

connected-Reach : Reach json options connected
connected-Reach =
    Reach-io_steps options 6 connecting
      (next (next here (connects (start options) refl)) (prepares _ 0 refl))

connected_owns : connected.tank.cached.control_owned ≡ true
unfolding ◌>>=◌ prepare enter_idle state_after brake_after release_after stand_still conclude
    query_state query_brake read_state request interpret is_read_path judged
connected_owns = refl

control_owner_example :
    (options.enable_motion_output ≡ true)
    × (connected.tank.cached.connected ≡ true)
    × (connected.tank.want_control ≡ true)
    × (connected.tank.brake ≡ false)
    × (connected.tank.local_estop ≡ false)
control_owner_example = control_owner json options connected connected-Reach connected_owns

-- A stop, which has drawn its ticket and sent its zero velocity.
abbrev stopping : System integers
stopping =
    let s = inhibited json options false to_stop connected in
    io_steps options 3 (record s { io = forget (stop json options false s.tank.epoch) })

stop_drawn : (inhibited json options false to_stop connected).drawn 1 ≡ some to_stop
unfolding ◌>>=◌ prepare enter_idle state_after brake_after release_after stand_still conclude
    query_state query_brake read_state request interpret is_read_path judged
stop_drawn = refl

stopping-Reach : Reach json options stopping
unfolding ◌>>=◌ prepare enter_idle state_after brake_after release_after stand_still conclude
    query_state query_brake read_state request interpret is_read_path judged
stopping-Reach =
    let s = inhibited json options false to_stop connected in
    Reach-io_steps options 3 (record s { io = forget (stop json options false s.tank.epoch) })
      (next (next connected-Reach (wants_stop connected false refl))
        (stops s false s.tank.epoch refl stop_drawn))

stopping_drawn : stopping.drawn stopping.tank.epoch ≡ some to_stop
unfolding ◌>>=◌ prepare enter_idle state_after brake_after release_after stand_still conclude
    query_state query_brake read_state request interpret is_read_path judged stop halt_device
stopping_drawn = refl

stop_prevails_example :
    (stopping.tank.want_control ≡ false) × (stopping.tank.cached.control_owned ≡ false)
stop_prevails_example = stop_prevails json options stopping stopping-Reach stopping_drawn

abbrev closed : System integers
closed =
    let s = record connected { tank = record connected.tank { running = false } } in
    record (inhibited json options false to_stop s) { closing = true }

closed-Reach : Reach json options closed
closed-Reach = next (next connected-Reach (quits connected)) (quits_inhibited _ refl)

closing_disowns_example : (closed.tank.running ≡ false) × (closed.tank.cached.control_owned ≡ false)
closing_disowns_example = closing_disowns json options closed closed-Reach refl
