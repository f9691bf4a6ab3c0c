-- ===== src/Tank/System/Ownership/Reaches.antt =====
-- The invariant in every state that the threads reach, and what it means.
use nav_bridge.Prelude.{
  ℕ, suc, ◌<◌, ◌≡◌, refl, sym, Bool, true, false, not, ◌&&◌, ◌||◌, Option, none, some, arith, ◌==◌,
  ==_iff, if-elim,
}
use mathlib.Core.Path.{subst}
use nav_bridge.Backend.{Doubles, BackendResult}
use nav_bridge.Tank.State.{Options, Tank, inhibit, move}
use nav_bridge.Tank.Process.{Process}
use nav_bridge.Tank.Http.{Jsoncpp}
use nav_bridge.Tank.Actions.{prepare}
use nav_bridge.Tank.System.{
  Purpose, to_ready, to_stop, System, note, forget, start, inhibited, Step, Reach, here, next,
  io_runs, telemetry_runs, raw_velocity_runs, moves, wants_ready, readies, wants_stop, stops,
  controls, reconnects, polls, polls_battery, polls_raw_velocity, connects, prepares, quits,
  quits_inhibited, closes,
}
use nav_bridge.Tank.System.Ownership.{control, is_stop, Inv, Thread, Wp, Wp-bind}
use nav_bridge.Tank.System.Ownership.Quiet.{Same-move}
use nav_bridge.Tank.System.Ownership.Sections.{closed_still, want_lost}
use nav_bridge.Tank.System.Ownership.Threads.{
  Safe, Safe-control_round, Safe-poll_round, Safe-battery_round, Safe-raw_velocity_round,
  Safe-prepare, Safe-reconnect, Safe-ready, Safe-stop, Safe-close, Inv-abandoned,
}
use nav_bridge.Tank.System.Ownership.Running.{
  Fact, thread, Running, Invariant, starts, idle, known_kept, waits, advances,
}

-- Drawing a ticket, which was not drawn before.
note_later :
    (n : ℕ) (p : Purpose) (drawn : ℕ → Option Purpose)
    → ((k : ℕ) → n < k → drawn k ≡ none)
    → (k : ℕ) → suc n < k
    → note (suc n) p drawn k ≡ none
note_later n p drawn h k less =
    if-elim (λ r. r ≡ none) (k == suc n) _ _ (λ e. ground arith) (λ e. h k (omega arith))

Fact-note :
    (fact : Option (ℕ × Purpose)) (n : ℕ) (p : Purpose) (drawn : ℕ → Option Purpose)
    → drawn n ≡ none
    → Fact fact drawn
    → Fact fact (note n p drawn)
Fact-note none n p drawn unused h = tt
Fact-note (some (k, q)) n p drawn unused h =
    if-elim (λ r. r ≡ some q) (k == n) _ _
      (λ e.
        let here = subst (λ i. drawn i ≡ some q) ((==_iff k n).0 e) h in absurd (cc (here, unused)))
      (λ e. h)

inside_lost : (inside owned : Bool) → inside && not owned && false ≡ false
inside_lost inside owned = ground arith

no_change : (inside owned : Bool) → inside && not owned && owned ≡ false
no_change inside owned = ground arith

quit_closed :
    (closing running owned : Bool)
    → closing && (running || owned) ≡ false
    → closing && (false || owned) ≡ false
quit_closed closing running owned h = ground arith

closed_quiet :
    (closing running owned : Bool)
    → closing ≡ true
    → closing && (running || owned) ≡ false
    → true && (true && owned) ≡ false
closed_quiet closing running owned e h = ground arith

-- A thread whose result is not used.
Safe-forget :
    {d : Doubles} {w : Thread} {quiet : Bool} {p : Process d BackendResult}
    → Safe w quiet p
    → Safe w quiet (forget p)
Safe-forget h = Wp-bind h (λ a q x. Wp.ends tt)

module _ {d : Doubles} (js : Jsoncpp d) (o : Options d) where
  -- A preparation that is not asked for by `ready`.
  unready : (ticket : ℕ) → Safe (thread o true none) false (prepare js o false ticket)
  unready ticket = Safe-prepare js o (Fact none) false ticket (λ drawn known e. absurd (cc e)) false

  noted :
      (emergency : Bool) (p : Purpose) (s : System d) {inside : Bool} {q : Process d Unit}
      → s.drawn (suc s.tank.epoch) ≡ none
      → Running o s.drawn s.tank inside q
      → Running o (note (suc s.tank.epoch) p s.drawn) (inhibit d o emergency s.tank) inside q
  noted emergency p s {inside = inside} fresh r = record {
    fact = r.fact;
    quiet = r.quiet;
    holds = Fact-note r.fact (suc s.tank.epoch) p s.drawn fresh r.holds;
    known =
        known_kept o inside r.quiet s.tank.cached.control_owned false r.known
          (inside_lost inside s.tank.cached.control_owned);
    safe = r.safe;
  }

  Invariant-inhibited :
      (emergency : Bool) (p : Purpose) (s : System d)
      → Invariant o s
      → Invariant o (inhibited js o emergency p s)
  Invariant-inhibited emergency p s i =
      let fresh = i.inv.unused (suc s.tank.epoch) (omega arith) in
      record {
        inv = record {
          allowed = refl;
          obeyed = want_lost (is_stop (note (suc s.tank.epoch) p s.drawn (suc s.tank.epoch)));
          unused = note_later s.tank.epoch p s.drawn i.inv.unused;
          closed = closed_still s.closing s.tank.running s.tank.cached.control_owned i.inv.closed;
        };
        io = noted emergency p s fresh i.io;
        telemetry = noted emergency p s fresh i.telemetry;
        raw_velocity = noted emergency p s fresh i.raw_velocity;
      }

  -- A section that another part of the program runs, and that grants nothing.
  Invariant-same :
      (s : System d) (u : Tank d)
      → control u ≡ control s.tank
      → Invariant o s
      → Invariant o (record s { tank = u })
  Invariant-same s u e i =
      let same = λ (inside : Bool).
        subst (λ c. inside && not s.tank.cached.control_owned && c.owned ≡ false) (sym e)
          (no_change inside s.tank.cached.control_owned) in
      record {
        inv = subst (λ c. Inv o.enable_motion_output s.drawn s.closing c) (sym e) i.inv;
        io = waits o i.io u (same true);
        telemetry = waits o i.telemetry u (same false);
        raw_velocity = waits o i.raw_velocity u (same false);
      }

  with_io :
      {s : System d} {p : Process d Unit}
      → Invariant o s
      → Running o s.drawn s.tank true p
      → Invariant o (record s { io = p })
  with_io i r = record {
    inv = i.inv;
    io = r;
    telemetry = i.telemetry;
    raw_velocity = i.raw_velocity;
  }

  with_telemetry :
      {s : System d} {p : Process d Unit}
      → Invariant o s
      → Running o s.drawn s.tank false p
      → Invariant o (record s { telemetry = p })
  with_telemetry i r = record {
    inv = i.inv;
    io = i.io;
    telemetry = r;
    raw_velocity = i.raw_velocity;
  }

  with_raw_velocity :
      {s : System d} {p : Process d Unit}
      → Invariant o s
      → Running o s.drawn s.tank false p
      → Invariant o (record s { raw_velocity = p })
  with_raw_velocity i r = record {
    inv = i.inv;
    io = i.io;
    telemetry = i.telemetry;
    raw_velocity = r;
  }

  Invariant-Step : {s u : System d} → Step js o s u → Invariant o s → Invariant o u
  Invariant-Step (io_runs s t p a) i =
      let r = advances o a i.inv i.io in
      record {
        inv = r.after;
        io = r.runs;
        telemetry = waits o i.telemetry t refl;
        raw_velocity = waits o i.raw_velocity t refl;
      }
  Invariant-Step (telemetry_runs s t p a) i =
      let r = advances o a i.inv i.telemetry in
      record {
        inv = r.after;
        io = waits o i.io t r.grants;
        telemetry = r.runs;
        raw_velocity = waits o i.raw_velocity t refl;
      }
  Invariant-Step (raw_velocity_runs s t p a) i =
      let r = advances o a i.inv i.raw_velocity in
      record {
        inv = r.after;
        io = waits o i.io t r.grants;
        telemetry = waits o i.telemetry t refl;
        raw_velocity = r.runs;
      }
  Invariant-Step (moves s x y yaw now) i =
      Invariant-same s (move d o x y yaw now s.tank).1 (Same-move o x y yaw now s.tank).same i
  Invariant-Step (wants_ready s e) i = Invariant-inhibited false to_ready s i
  Invariant-Step (wants_stop s emergency e) i = Invariant-inhibited emergency to_stop s i
  Invariant-Step (readies s ticket e f) i = with_io i (record {
    fact = some (ticket, to_ready);
    quiet = false;
    holds = f;
    known = refl;
    safe = Safe-forget (Safe-ready js o ticket false);
  })
  Invariant-Step (stops s emergency ticket e f) i = with_io i (record {
    fact = some (ticket, to_stop);
    quiet = false;
    holds = f;
    known = refl;
    safe = Safe-forget (Safe-stop js o emergency ticket false);
  })
  Invariant-Step (controls s previous e) i =
      with_io i
        (starts o s.drawn s.tank true (Safe-control_round js o (thread o true none) false previous))
  Invariant-Step (prepares s ticket e) i =
      with_io i (starts o s.drawn s.tank true (Safe-forget (unready ticket)))
  Invariant-Step (reconnects s ticket e f) i =
      with_io i (starts o s.drawn s.tank true (Safe-reconnect js o ticket false))
  Invariant-Step (polls s e) i =
      with_telemetry i
        (starts o s.drawn s.tank false (Safe-poll_round js o (thread o false none) false))
  Invariant-Step (polls_battery s e) i =
      with_telemetry i
        (starts o s.drawn s.tank false (Safe-battery_round js o (thread o false none) false))
  Invariant-Step (polls_raw_velocity s e) i =
      with_raw_velocity i
        (starts o s.drawn s.tank false (Safe-raw_velocity_round js o (thread o false none) false))
  Invariant-Step (connects s e) i =
      let u = record s.tank { running = true } in
      record {
        inv = record {
          allowed = i.inv.allowed;
          obeyed = i.inv.obeyed;
          unused = i.inv.unused;
          closed = refl;
        };
        io = waits o i.io u (no_change true s.tank.cached.control_owned);
        telemetry = waits o i.telemetry u refl;
        raw_velocity = waits o i.raw_velocity u refl;
      }
  Invariant-Step (quits s) i =
      let u = record s.tank { running = false } in
      record {
        inv = record {
          allowed = i.inv.allowed;
          obeyed = i.inv.obeyed;
          unused = i.inv.unused;
          closed = quit_closed s.closing s.tank.running s.tank.cached.control_owned i.inv.closed;
        };
        io = waits o i.io u (no_change true s.tank.cached.control_owned);
        telemetry = waits o i.telemetry u refl;
        raw_velocity = waits o i.raw_velocity u refl;
      }
  Invariant-Step (quits_inhibited s e) i =
      let j = Invariant-inhibited false to_stop s i in
      record {
        inv = record {
          allowed = j.inv.allowed;
          obeyed = j.inv.obeyed;
          unused = j.inv.unused;
          closed = subst (λ b. true && (b || false) ≡ false) (sym e) refl;
        };
        io = j.io;
        telemetry = j.telemetry;
        raw_velocity = j.raw_velocity;
      }
  Invariant-Step (closes s e f) i = with_io i (record {
    fact = none;
    quiet = true;
    holds = tt;
    known = closed_quiet s.closing s.tank.running s.tank.cached.control_owned e i.inv.closed;
    safe = Safe-forget (Safe-close js o (Fact none));
  })

  Invariant-Reach : {s : System d} → Reach js o s → Invariant o s
  Invariant-Reach here = record {
    inv = record { allowed = refl; obeyed = refl; unused = λ k less. refl; closed = refl };
    io = idle o (λ k. none) (start o).tank true;
    telemetry = idle o (λ k. none) (start o).tank false;
    raw_velocity = idle o (λ k. none) (start o).tank false;
  }
  Invariant-Reach (next r step) = Invariant-Step step (Invariant-Reach r)

  owner_allowed :
      (enabled connected owned want brake estopped : Bool)
      → not owned || (enabled && connected && want && not brake && not estopped) ≡ true
      → owned ≡ true
      → (enabled ≡ true) × (connected ≡ true) × (want ≡ true) × (brake ≡ false) × (estopped ≡ false)
  owner_allowed enabled connected owned want brake estopped h e = ground arith

  -- In every state that the threads of the Tank backend reach, in any interleaving and with any
  -- replies of the device: where control is owned, motion output is enabled, the device is
  -- connected, control is wanted, and neither the software brake nor the local emergency stop is
  -- on.
  pub control_owner :
      (s : System d)
      → Reach js o s
      → s.tank.cached.control_owned ≡ true
      → (o.enable_motion_output ≡ true)
        × (s.tank.cached.connected ≡ true)
        × (s.tank.want_control ≡ true)
        × (s.tank.brake ≡ false)
        × (s.tank.local_estop ≡ false)
  control_owner s r e =
      let t = s.tank in
      owner_allowed o.enable_motion_output t.cached.connected t.cached.control_owned t.want_control
        t.brake t.local_estop (Invariant-Reach r).inv.allowed e

  -- In every state that the threads reach: where the last ticket was drawn for a stop (or by
  -- disconnect), control is neither wanted nor owned, whatever the preparations and polls in
  -- flight are answered.
  pub stop_prevails :
      (s : System d)
      → Reach js o s
      → s.drawn s.tank.epoch ≡ some to_stop
      → (s.tank.want_control ≡ false) × (s.tank.cached.control_owned ≡ false)
  stop_prevails s r e =
      Inv-abandoned o.enable_motion_output s.drawn s.closing (control s.tank)
        (Invariant-Reach r).inv e

  disconnected_lem :
      (closing running owned : Bool)
      → closing ≡ true
      → closing && (running || owned) ≡ false
      → (running ≡ false) × (owned ≡ false)
  disconnected_lem closing running owned e h = ground arith

  -- In every state that the threads reach after disconnect has inhibited and before the backend
  -- connects again, the backend is not running and does not own control.
  pub closing_disowns :
      (s : System d)
      → Reach js o s
      → s.closing ≡ true
      → (s.tank.running ≡ false) × (s.tank.cached.control_owned ≡ false)
  closing_disowns s r e =
      disconnected_lem s.closing s.tank.running s.tank.cached.control_owned e
        (Invariant-Reach r).inv.closed
