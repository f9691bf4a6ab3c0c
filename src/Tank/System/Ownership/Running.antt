-- ===== src/Tank/System/Ownership/Running.antt =====
-- A thread in the course of its run, and what the others do to it.
use nav_bridge.Prelude.{ℕ, ◌≡◌, Bool, true, false, not, ◌&&◌, Option, none, some, arith}
use nav_bridge.Backend.{Doubles}
use nav_bridge.Tank.State.{Options, Tank}
use nav_bridge.Tank.Process.{Process, done}
use nav_bridge.Tank.System.{Purpose, System, Advance, run, hear}
use nav_bridge.Tank.System.Ownership.{control, Inv, Known, Thread, Wp, no_grant}
use nav_bridge.Tank.System.Ownership.Sections.{want_lost}
use nav_bridge.Tank.System.Ownership.Threads.{Safe}

-- What a thread knows of its ticket: what it was drawn for.
abbrev pub Fact : Option (ℕ × Purpose) → (ℕ → Option Purpose) → Type 0
Fact none drawn = Unit
Fact (some ticket) drawn = drawn ticket.0 ≡ some ticket.1

module _ {d : Doubles} (o : Options d) where
  abbrev pub thread : Bool → Option (ℕ × Purpose) → Thread
  thread inside fact = record {
    enabled = o.enable_motion_output;
    inside = inside;
    Fact = Fact fact;
  }

  -- A thread that has this much to run.
  pub record Running (drawn : ℕ → Option Purpose) (t : Tank d) (inside : Bool) (p : Process d Unit)
      : Type 0 where
    pub fact : Option (ℕ × Purpose)
    pub quiet : Bool
    pub holds : Fact fact drawn
    pub known : Known (thread inside fact) quiet (control t)
    pub safe : Safe (thread inside fact) quiet p

  pub record Invariant (s : System d) : Type 0 where
    pub inv : Inv o.enable_motion_output s.drawn s.closing (control s.tank)
    pub io : Running s.drawn s.tank true s.io
    pub telemetry : Running s.drawn s.tank false s.telemetry
    pub raw_velocity : Running s.drawn s.tank false s.raw_velocity

  -- A thread that knows nothing.
  pub starts :
      (drawn : ℕ → Option Purpose) (t : Tank d) (inside : Bool) {p : Process d Unit}
      → Safe (thread inside none) false p
      → Running drawn t inside p
  starts drawn t inside h = record {
    fact = none;
    quiet = false;
    holds = tt;
    known = want_lost inside;
    safe = h;
  }

  pub idle :
      (drawn : ℕ → Option Purpose) (t : Tank d) (inside : Bool) → Running drawn t inside (done tt)
  idle drawn t inside = starts drawn t inside (Wp.ends tt)

  pub known_kept :
      (inside quiet owned owned' : Bool)
      → inside && (quiet && owned) ≡ false
      → inside && not owned && owned' ≡ false
      → inside && (quiet && owned') ≡ false
  known_kept inside quiet owned owned' h e = ground arith

  -- What another thread does, unless it grants control.
  pub waits :
      {drawn : ℕ → Option Purpose} {t : Tank d} {inside : Bool} {p : Process d Unit}
      → Running drawn t inside p
      → (u : Tank d) → inside && not t.cached.control_owned && u.cached.control_owned ≡ false
      → Running drawn u inside p
  waits {t = t} {inside = inside} r u e = record {
    fact = r.fact;
    quiet = r.quiet;
    holds = r.holds;
    known = known_kept inside r.quiet t.cached.control_owned u.cached.control_owned r.known e;
    safe = r.safe;
  }

  pub record Advanced (drawn : ℕ → Option Purpose) (closing : Bool) (t u : Tank d) (inside : Bool)
      (q : Process d Unit) : Type 0 where
    pub after : Inv o.enable_motion_output drawn closing (control u)
    pub runs : Running drawn u inside q
    pub grants : not inside && not t.cached.control_owned && u.cached.control_owned ≡ false

  advance :
      {drawn : ℕ → Option Purpose} {closing : Bool} {t u : Tank d} {inside quiet : Bool}
      {p q : Process d Unit} (fact : Option (ℕ × Purpose))
      → Advance t p u q
      → Inv o.enable_motion_output drawn closing (control t)
      → Fact fact drawn
      → Known (thread inside fact) quiet (control t)
      → Safe (thread inside fact) quiet p
      → Advanced drawn closing t u inside q
  advance {drawn = drawn} {closing = closing} fact (run t now f k) inv holds known
        (Wp.keeps after e h) =
      let (kept, knows) = (e now t).kept drawn closing holds inv known in
      record {
        after = kept;
        runs = record {
          fact = fact;
          quiet = after now t;
          holds = holds;
          known = knows;
          safe = h now t;
        };
        grants = (e now t).grants;
      }
  advance {inside = inside} {quiet = quiet} fact (hear t r k reply) inv holds known (Wp.asks h) =
      record {
        after = inv;
        runs = record { fact = fact; quiet = quiet; holds = holds; known = known; safe = h reply };
        grants = no_grant inside t.cached.control_owned;
      }

  pub advances :
      {drawn : ℕ → Option Purpose} {closing : Bool} {t u : Tank d} {inside : Bool}
      {p q : Process d Unit}
      → Advance t p u q
      → Inv o.enable_motion_output drawn closing (control t)
      → Running drawn t inside p
      → Advanced drawn closing t u inside q
  advances a inv r = advance r.fact a inv r.holds r.known r.safe
