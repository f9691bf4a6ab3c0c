-- ===== src/Tank/System.antt =====
-- The threads of the Tank backend and their interleavings. Services run in any number, as the node's
-- reentrant group lets them; what holds `io` runs alone, and so do the polls of each worker.
pub mod Ownership
pub mod Requests
use nav_bridge.Prelude.{ℕ, suc, ◌≡◌, Bool, true, false, Option, none, some, ◌==◌, if◌then◌else◌}
use nav_bridge.Backend.{Doubles, BackendResult}
use nav_bridge.Tank.State.{Options, Tank, initial, inhibit, move}
use nav_bridge.Tank.Process.{Request, Reply, Process, done, section, ask, ◌>>=◌}
use nav_bridge.Tank.Http.{Jsoncpp}
use nav_bridge.Tank.Actions.{prepare, reconnect, ready, stop, close}
use nav_bridge.Tank.Workers.{control_round, poll_round, battery_round, raw_velocity_round}

-- What a ticket was drawn for.
pub data Purpose : Type 0 where
  to_ready to_stop : Purpose

-- `io` and `polls` are what the threads that hold `io`, and the two polling threads, have still to
-- run. `drawn` remembers what each ticket was drawn for; `closing` is set once `disconnect` has
-- inhibited.
pub record System (d : Doubles) : Type 0 where
  pub tank : Tank d
  pub io : Process d Unit
  pub telemetry : Process d Unit
  pub raw_velocity : Process d Unit
  pub drawn : ℕ → Option Purpose
  pub closing : Bool

abbrev pub note : ℕ → Purpose → (ℕ → Option Purpose) → ℕ → Option Purpose
note ticket purpose drawn k = if k == ticket then some purpose else drawn k

module _ {d : Doubles} where
  abbrev pub forget : Process d BackendResult → Process d Unit
  forget p = p >>= λ _. done tt

  -- One step of a thread.
  pub data Advance : Tank d → Process d Unit → Tank d → Process d Unit → Type 0 where
    run :
        (t : Tank d) (now : ℕ) (f : ℕ → Tank d → Tank d) (k : ℕ → Tank d → Process d Unit)
        → Advance t (section f k) (f now t) (k now t)
    hear :
        (t : Tank d) (r : Request d) (k : Reply → Process d Unit) (reply : Reply)
        → Advance t (ask r k) t (k reply)

  abbrev pub start : Options d → System d
  start o = record {
    tank = initial d o;
    io = done tt;
    telemetry = done tt;
    raw_velocity = done tt;
    drawn = λ k. none;
    closing = false;
  }

module _ {d : Doubles} (js : Jsoncpp d) (o : Options d) where
  abbrev pub inhibited : Bool → Purpose → System d → System d
  inhibited emergency purpose s = record s {
    tank = inhibit d o emergency s.tank;
    drawn = note (suc s.tank.epoch) purpose s.drawn;
  }

  pub data Step : System d → System d → Type 0 where
    io_runs :
        (s : System d) (t : Tank d) (p : Process d Unit)
        → Advance s.tank s.io t p
        → Step s (record s { tank = t; io = p })
    telemetry_runs :
        (s : System d) (t : Tank d) (p : Process d Unit)
        → Advance s.tank s.telemetry t p
        → Step s (record s { tank = t; telemetry = p })
    raw_velocity_runs :
        (s : System d) (t : Tank d) (p : Process d Unit)
        → Advance s.tank s.raw_velocity t p
        → Step s (record s { tank = t; raw_velocity = p })
    -- /cmd_vel
    moves :
        (s : System d) (x y yaw : d.Value) (now : ℕ)
        → Step s (record s { tank = (move d o x y yaw now s.tank).1 })
    -- `ready` draws its ticket, and runs once it has the mutexes.
    wants_ready :
        (s : System d) → o.enable_motion_output ≡ true → Step s (inhibited false to_ready s)
    readies :
        (s : System d) (ticket : ℕ)
        → s.io ≡ done tt
        → s.drawn ticket ≡ some to_ready
        → Step s (record s { io = forget (ready js o ticket) })
    -- The same for `stop`.
    wants_stop :
        (s : System d) (emergency : Bool)
        → o.enable_motion_output ≡ true
        → Step s (inhibited emergency to_stop s)
    stops :
        (s : System d) (emergency : Bool) (ticket : ℕ)
        → s.io ≡ done tt
        → s.drawn ticket ≡ some to_stop
        → Step s (record s { io = forget (stop js o emergency ticket) })
    controls :
        (s : System d) (previous : Option ℕ)
        → s.io ≡ done tt
        → Step s (record s { io = control_round js o previous })
    reconnects :
        (s : System d) (ticket : ℕ)
        → s.io ≡ done tt
        → s.telemetry ≡ done tt
        → Step s (record s { io = reconnect js o ticket })
    polls :
        (s : System d) → s.telemetry ≡ done tt → Step s (record s { telemetry = poll_round js o })
    polls_battery :
        (s : System d)
        → s.telemetry ≡ done tt
        → Step s (record s { telemetry = battery_round js o })
    polls_raw_velocity :
        (s : System d)
        → s.raw_velocity ≡ done tt
        → Step s (record s { raw_velocity = raw_velocity_round js o })
    -- `connect`: the exchange, and the first preparation once it has the mutexes. The node connects in
    -- its constructor and disconnects in its destructor, so the two do not overlap.
    connects :
        (s : System d)
        → s.tank.running ≡ false
        → Step s (record s { tank = record s.tank { running = true }; closing = false })
    prepares :
        (s : System d) (ticket : ℕ)
        → s.io ≡ done tt
        → Step s (record s { io = forget (prepare js o false ticket) })
    -- `disconnect`: the exchange, `inhibit`, and what follows once the workers are joined.
    quits : (s : System d) → Step s (record s { tank = record s.tank { running = false } })
    quits_inhibited :
        (s : System d)
        → s.tank.running ≡ false
        → Step s (record (inhibited false to_stop s) { closing = true })
    closes :
        (s : System d)
        → s.closing ≡ true
        → s.io ≡ done tt
        → Step s (record s { io = forget (close js o) })

  pub data Reach : System d → Type 0 where
    here : Reach (start o)
    next : {s u : System d} → Reach s → Step s u → Reach u
