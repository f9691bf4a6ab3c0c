-- ===== src/Tank/System/Requests/Reaches.antt =====
-- The requests in every state that the threads reach.
use nav_bridge.Prelude.{◌≡◌, refl, sym, true, false, ◌||◌, ◌⊎◌, inl, inr}
use mathlib.Core.Path.{subst}
use nav_bridge.Backend.{Doubles, BackendResult}
use nav_bridge.Tank.State.{Options, Tank}
use nav_bridge.Tank.Process.{Request, Reply, Process, ask}
use nav_bridge.Tank.Http.{Jsoncpp, is_read_path}
use nav_bridge.Tank.System.{
  System, forget, Advance, run, hear, Step, Reach, here, next, io_runs, telemetry_runs,
  raw_velocity_runs, moves, wants_ready, readies, wants_stop, stops, controls, reconnects, polls,
  polls_battery, polls_raw_velocity, connects, prepares, quits, quits_inhibited, closes,
}
use nav_bridge.Tank.System.Requests.{Only, Only-bind}
use nav_bridge.Tank.System.Requests.Threads.{
  IsPermitted, Asks-prepare, Asks-reconnect, Asks-ready, Asks-stop, Asks-close, Asks-control_round,
  Asks-poll_round, Asks-battery_round, Asks-raw_velocity_round,
}

module _ {d : Doubles} (js : Jsoncpp d) (o : Options d) where
  record Permitted (s : System d) : Type 0 where
    io : Only (IsPermitted o) s.io
    telemetry : Only (IsPermitted o) s.telemetry
    raw_velocity : Only (IsPermitted o) s.raw_velocity

  Only-Advance :
      {t u : Tank d} {p q : Process d Unit}
      → Advance t p u q
      → Only (IsPermitted o) p
      → Only (IsPermitted o) q
  Only-Advance (run t now f k) (Only.keeps h) = h now t
  Only-Advance (hear t r k reply) (Only.asks e h) = h reply

  Only-forget :
      {p : Process d BackendResult} → Only (IsPermitted o) p → Only (IsPermitted o) (forget p)
  Only-forget h = Only-bind h (λ a. Only.ends)

  with_io :
      {s u : System d}
      → Permitted s
      → u.telemetry ≡ s.telemetry
      → u.raw_velocity ≡ s.raw_velocity
      → Only (IsPermitted o) u.io
      → Permitted u
  with_io i e f h = record {
    io = h;
    telemetry = subst (λ p. Only (IsPermitted o) p) (sym e) i.telemetry;
    raw_velocity = subst (λ p. Only (IsPermitted o) p) (sym f) i.raw_velocity;
  }

  Permitted-Step : {s u : System d} → Step js o s u → Permitted s → Permitted u
  Permitted-Step (io_runs s t p a) i = with_io i refl refl (Only-Advance a i.io)
  Permitted-Step (telemetry_runs s t p a) i = record {
    io = i.io;
    telemetry = Only-Advance a i.telemetry;
    raw_velocity = i.raw_velocity;
  }
  Permitted-Step (raw_velocity_runs s t p a) i = record {
    io = i.io;
    telemetry = i.telemetry;
    raw_velocity = Only-Advance a i.raw_velocity;
  }
  Permitted-Step (moves s x y yaw now) i = with_io i refl refl i.io
  Permitted-Step (wants_ready s e) i = with_io i refl refl i.io
  Permitted-Step (wants_stop s emergency e) i = with_io i refl refl i.io
  Permitted-Step (readies s ticket e f) i =
      with_io i refl refl (Only-forget (Asks-ready js o ticket))
  Permitted-Step (stops s emergency ticket e f) i =
      with_io i refl refl (Only-forget (Asks-stop js o emergency ticket))
  Permitted-Step (controls s previous e) i = with_io i refl refl (Asks-control_round js o previous)
  Permitted-Step (prepares s ticket e) i =
      with_io i refl refl (Only-forget (Asks-prepare js o false ticket))
  Permitted-Step (reconnects s ticket e f) i = with_io i refl refl (Asks-reconnect js o ticket)
  Permitted-Step (polls s e) i = record {
    io = i.io;
    telemetry = Asks-poll_round js o;
    raw_velocity = i.raw_velocity;
  }
  Permitted-Step (polls_battery s e) i = record {
    io = i.io;
    telemetry = Asks-battery_round js o;
    raw_velocity = i.raw_velocity;
  }
  Permitted-Step (polls_raw_velocity s e) i = record {
    io = i.io;
    telemetry = i.telemetry;
    raw_velocity = Asks-raw_velocity_round js o;
  }
  Permitted-Step (connects s e) i = with_io i refl refl i.io
  Permitted-Step (quits s) i = with_io i refl refl i.io
  Permitted-Step (quits_inhibited s e) i = with_io i refl refl i.io
  Permitted-Step (closes s e f) i = with_io i refl refl (Only-forget (Asks-close js o))

  Permitted-Reach : {s : System d} → Reach js o s → Permitted s
  Permitted-Reach here = record { io = Only.ends; telemetry = Only.ends; raw_velocity = Only.ends }
  Permitted-Reach (next r step) = Permitted-Step step (Permitted-Reach r)

  Only-ask :
      {p : Process d Unit} {r : Request d} {k : Reply → Process d Unit}
      → Only (IsPermitted o) p
      → p ≡ ask r k
      → IsPermitted o r
  Only-ask {r = r} {k = k} h e = elim (subst (λ q. Only (IsPermitted o) q) e h) [
    | Only.asks permitted h' ↦ permitted
  ]

  -- With motion output disabled, in every state that the threads reach: a request that a thread is
  -- about to make is one of the four that read the state of the device.
  pub diagnostic-reads :
      (s : System d) (r : Request d) (k : Reply → Process d Unit)
      → Reach js o s
      → o.enable_motion_output ≡ false
      → (s.io ≡ ask r k) ⊎ ((s.telemetry ≡ ask r k) ⊎ (s.raw_velocity ≡ ask r k))
      → is_read_path r.path ≡ true
  diagnostic-reads s r k reach disabled waiting =
      let i = Permitted-Reach reach in
      let permitted : IsPermitted o r = elim waiting [
        | inl e ↦ Only-ask i.io e
        | inr (inl e) ↦ Only-ask i.telemetry e
        | inr (inr e) ↦ Only-ask i.raw_velocity e
      ] in
      subst (λ b. b || is_read_path r.path ≡ true) disabled permitted
