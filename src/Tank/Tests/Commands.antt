-- ===== src/Tank/Tests/Commands.antt =====
-- The theorems on commands, failures and requests, at inputs.
use nav_bridge.Prelude.{
  ℕ, ◌*◌, ◌≡◌, refl, true, false, not, ◌&&◌, inl, none, some, [], ◌∷◌, arith, ltb,
}
use nav_bridge.Prelude.Int.{ℤ, pos, negsuc}
use nav_bridge.Backend.{failed}
use nav_bridge.Tank.State.{
  Options, Tank, initial, tick, link_failed, prepared, polled, battery_polled, move, control_view,
  move_answered, move_started, poll_failed, inhibit,
}
use nav_bridge.Tank.State.Sections.{none_yet, then_any, then_move, fails_poll, moves}
use nav_bridge.Tank.State.Commands.{
  move-bound, move_answered-cleared, move_started-filter, filter, recent, IsAscending,
}
use nav_bridge.Tank.State.Failures.{superseded-unchanged, polls_failed, polls_failed-limit}
use nav_bridge.Tank.Process.{Request, ◌>>=◌}
use nav_bridge.Tank.Http.{request, is_read_path, query_state}
use nav_bridge.Tank.Actions.{prepare, state_after}
use nav_bridge.Tank.Workers.{controlled}
use nav_bridge.Tank.System.{System, start, forget, Reach, here, next, connects, prepares}
use nav_bridge.Tank.System.Requests.{Only}
use nav_bridge.Tank.System.Requests.Reaches.{diagnostic-reads}
use nav_bridge.Tank.System.Requests.Moves.{IsSafe, controlled-IsSafe}
use nav_bridge.Tank.Tests.{integers, int_lt, json, options}

-- A backend that has control, and its first ticket.
abbrev pub driven : Tank integers
driven =
    let t = initial integers options in
    record t {
      running = true;
      epoch = 1;
      cached = record t.cached { connected = true; control_owned = true };
      move_starts = 0 ∷ 1000 * tick ∷ [];
    }

ltb_irreflexive : (n : ℕ) → ltb n n ≡ false
ltb_irreflexive n = ground arith

int_lt_irreflexive : (v : ℤ) → int_lt v v ≡ false
int_lt_irreflexive (pos n) = ltb_irreflexive n
int_lt_irreflexive (negsuc n) = ltb_irreflexive n

move-bound_example :
    (let u = (move integers options (pos 7) (pos 0) (negsuc 4) 5 driven).1 in
      (int_lt u.vx (negsuc 1) ≡ false)
      × (int_lt (pos 2) u.vx ≡ false)
      × (int_lt u.wz (negsuc 0) ≡ false)
      × (int_lt (pos 1) u.wz ≡ false)
      × (u.command_time ≡ some 5)
      × (u.running
            && u.cached.connected
            && u.cached.control_owned
            && not u.local_estop
            && not u.brake
          ≡ true))
move-bound_example =
    move-bound integers int_lt_irreflexive options (pos 7) (pos 0) (negsuc 4) 5 driven refl refl
      refl

-- A move that fails, after which a poll fails as well.
abbrev missed : Tank integers
missed =
    (move_answered integers options (control_view integers options 6 driven) 6 none (failed "") true
      8 driven).1

move_answered-cleared_example :
    (let next = control_view integers options 9 (poll_failed integers options "" true 8 missed).1 in
      (next.linear ≡ pos 0) × (next.angular ≡ pos 0))
move_answered-cleared_example =
    move_answered-cleared integers options (control_view integers options 6 driven) 6 none
      (failed "") true 8 driven refl refl refl (then_any none_yet (fails_poll missed "" true 8)) 9

ascending : IsAscending 0 (0 ∷ 1000 * tick ∷ 5500 * tick ∷ [])
ascending = (omega arith, (omega arith, (omega arith, tt)))

move_started-filter_example :
    (move_started integers options (5500 * tick) driven).move_starts
    ≡ filter (recent (5500 * tick)) (0 ∷ 1000 * tick ∷ 5500 * tick ∷ [])
move_started-filter_example = move_started-filter integers options (5500 * tick) driven ascending

-- A velocity comes while the ticket is out, and the robot is stopped.
abbrev commanded : Tank integers
commanded = (move integers options (pos 1) (pos 0) (pos 0) 5 driven).1

superseded-unchanged_example :
    (let u = inhibit integers options true commanded in
      (link_failed integers options 1 u ≡ u)
      × (prepared integers options true 1 "Idle" false 5 u ≡ (false, u))
      × (polled integers options 1 "Idle" true true 5 u ≡ u)
      × (battery_polled integers options 1 (pos 50) "" u ≡ u))
superseded-unchanged_example =
    superseded-unchanged integers options driven commanded _ true
      (then_move refl none_yet (moves driven (pos 1) (pos 0) (pos 0) 5)) none_yet true true true
      "Idle" "" (pos 50) 5

polls_failed-limit_example :
    (poll_failed integers options "" true 30
      (polls_failed integers options "" true (10 ∷ 20 ∷ []) driven)).0
    ≡ true
polls_failed-limit_example =
    polls_failed-limit integers options "" true (10 ∷ 20 ∷ []) 30 driven (omega arith)

-- The backend in diagnostic mode, which connects.
abbrev watching : Options integers
watching = record options { enable_motion_output = false }

abbrev asking : System integers
asking =
    let s = start watching in
    record s {
      tank = record s.tank { running = true };
      io = forget (prepare json watching false 0);
      closing = false;
    }

asking-Reach : Reach json watching asking
asking-Reach = next (next here (connects (start watching) refl)) (prepares _ 0 refl)

abbrev reading : Request integers
reading = record { path = "/robot/cmd/get_robot_state"; body = none }

diagnostic-reads_example : is_read_path reading.path ≡ true
unfolding ◌>>=◌ prepare state_after query_state request is_read_path
diagnostic-reads_example =
    diagnostic-reads json watching asking reading _ asking-Reach refl (inl refl)

controlled-IsSafe_example :
    Only
      (IsSafe json options 6 driven)
      (controlled json options none (control_view integers options 6 driven))
controlled-IsSafe_example = controlled-IsSafe json options none 6 driven
