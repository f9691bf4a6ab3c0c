-- ===== src/Cyvet/Queue/Reaches.antt =====
-- src/cyvet/cyvet_backend.cpp: the steps of the queue and what its stops rely on.
use nav_bridge.Prelude.{
  ℕ, suc, ◌+◌, ◌-◌, ◌<◌, ◌≡◌, refl, Bool, true, false, not, ◌&&◌, ◌||◌, none, some, [], ltb, length,
  arith, if-elim, if◌then◌else◌,
}
use nav_bridge.Backend.{Doubles, BackendResult}
use nav_bridge.Cyvet.Queue.{
  Action, connect_robot, acquire, stand, lie, release, estop, disconnect, switch_profile,
  is_priority, Job, Gate, inhibit, interrupted, refusal, accepted, stood, switched, move, System,
  stops, Step, submits, inhibits, quits, takes, stands, switches, ends, returns, moves, drops,
  reports, clears, Reach, here, next,
}
use nav_bridge.Cyvet.Queue.Stops.{
  Each-map, Runs-map, IsOld-fewer, Invariant, Invariant-inhibit, Invariant-stopping,
  Invariant-queued, Invariant-granted, Invariant-taken, queued,
}
use Prim.Native.String.{String}

no_stop :
    (quitting full : Bool) (m : ℕ) (halt : Bool) (x y z : String)
    → (if quitting
        then some x
        else if true && (ltb 0 m || halt)
        then some y
        else if full
        then some z
        else none)
      ≡ none
    → m ≡ 0
no_stop quitting full m halt x y z e = ground arith

module _ {d : Doubles} where
  Invariant-prepare :
      (a : Action) (s : System d)
      → is_priority a ≡ false
      → s.gate.stop_requests ≡ 0
      → Invariant s
      → Invariant (queued a (record s { gate = inhibit s.gate }))
  Invariant-prepare a s e z i =
      Invariant-queued a (record s { gate = inhibit s.gate }) e (λ h. absurd (omega arith))
        (Invariant-inhibit s i)

  Invariant-submitted :
      (s : System d) (a : Action)
      → refusal a s.gate ≡ none
      → Invariant s
      → Invariant (record s { gate = accepted a s.gate })
  Invariant-submitted s connect_robot e i = Invariant-queued connect_robot s refl (λ h. refl) i
  Invariant-submitted s acquire e i = Invariant-queued acquire s refl (λ h. refl) i
  Invariant-submitted s stand e i = Invariant-prepare stand s refl (no_stop _ _ _ _ _ _ _ e) i
  Invariant-submitted s lie e i = Invariant-stopping lie s refl refl i
  Invariant-submitted s release e i = Invariant-stopping release s refl refl i
  Invariant-submitted s estop e i = Invariant-stopping estop s refl refl i
  Invariant-submitted s disconnect e i = Invariant-stopping disconnect s refl refl i
  Invariant-submitted s (switch_profile p) e i =
      Invariant-prepare (switch_profile p) s refl (no_stop _ _ _ _ _ _ _ e) i

  Invariant-ended :
      (s : System d)
      → Invariant s
      → Invariant (record s { running = none; ended = stops s.running + s.ended })
  Invariant-ended s i =
      let c = i.counted in
      record {
        counted = omega arith;
        urgent = i.urgent;
        normal = i.normal;
        old_urgent = i.old_urgent;
        old_normal = i.old_normal;
        old_running = tt;
        unready = i.unready;
      }

  Invariant-returned :
      (s : System d) (n : ℕ)
      → s.ended ≡ suc n
      → Invariant s
      → Invariant (record s {
        gate = record s.gate { stop_requests = s.gate.stop_requests - 1 };
        ended = n;
      })
  Invariant-returned s n e i =
      let c = i.counted in
      let fewer = λ (job : Job).
        IsOld-fewer s.gate.stop_requests (s.gate.stop_requests - 1) s.gate.generation job
          (λ h. omega arith) in
      record {
        counted = omega arith;
        urgent = i.urgent;
        normal = i.normal;
        old_urgent = Each-map s.gate.urgent fewer i.old_urgent;
        old_normal = Each-map s.gate.normal fewer i.old_normal;
        old_running = Runs-map s.running fewer i.old_running;
        unready = λ h. i.unready (omega arith);
      }

  Invariant-cleared :
      (s : System d)
      → Invariant s
      → Invariant (record s {
        gate = record s.gate { urgent = []; normal = [] };
        ended = length s.gate.urgent + s.ended;
      })
  Invariant-cleared s i =
      let c = i.counted in
      record {
        counted = omega arith;
        urgent = tt;
        normal = tt;
        old_urgent = tt;
        old_normal = tt;
        old_running = i.old_running;
        unready = i.unready;
      }

  Invariant-stood :
      (s : System d) (profile : String) (token : ℕ)
      → s.running ≡ some (record { action = stand; generation = token })
      → Invariant s
      → Invariant (record s { gate = (stood profile token s.gate).1 })
  Invariant-stood s profile token e i =
      if-elim (λ (r : BackendResult × Gate d). Invariant (record s { gate = r.1 }))
        (interrupted token s.gate) _ _ (λ h. i) (λ h. Invariant-granted s stand token e refl h i)

  Invariant-switched :
      (s : System d) (profile : String) (token : ℕ)
      → s.running ≡ some (record { action = switch_profile profile; generation = token })
      → Invariant s
      → Invariant (record s { gate = (switched profile token s.gate).1 })
  Invariant-switched s profile token e i =
      if-elim (λ (r : BackendResult × Gate d). Invariant (record s { gate = r.1 }))
        (interrupted token s.gate) _ _ (λ h. i)
        (λ h. Invariant-granted s (switch_profile profile) token e refl h i)

  Invariant-moved :
      (s : System d) (x y yaw : d.Value) (now : ℕ)
      → Invariant s
      → Invariant (record s { gate = (move x y yaw now s.gate).1 })
  Invariant-moved s x y yaw now i =
      let P = λ (r : BackendResult × Gate d). Invariant (record s { gate = r.1 }) in
      if-elim P (not (d.is_finite x && d.is_finite y && d.is_finite yaw)) _ _ (λ h. i)
        (λ h.
          if-elim P (not s.gate.ready || not s.gate.control_owned || not s.gate.connected) _ _
            (λ k. i) (λ k. i))

  Invariant-Step :
      {profile : String} {s u : System d} → Step profile s u → Invariant s → Invariant u
  Invariant-Step (submits s a e) i = Invariant-submitted s a e i
  Invariant-Step (inhibits s) i = Invariant-inhibit s i
  Invariant-Step (quits s) i = i
  Invariant-Step (takes s e) i = Invariant-taken s e i
  Invariant-Step {profile} (stands s token e) i = Invariant-stood s profile token e i
  Invariant-Step (switches s profile token e) i = Invariant-switched s profile token e i
  Invariant-Step (ends s) i = Invariant-ended s i
  Invariant-Step (returns s n e) i = Invariant-returned s n e i
  Invariant-Step (moves s x y yaw now) i = Invariant-moved s x y yaw now i
  Invariant-Step (drops s timeout now) i = i
  Invariant-Step (reports s c o h e v m r f) i = i
  Invariant-Step (clears s q) i = Invariant-cleared s i

  pub Invariant-Reach : {profile : String} {s : System d} → Reach profile s → Invariant s
  Invariant-Reach here = record {
    counted = refl;
    urgent = tt;
    normal = tt;
    old_urgent = tt;
    old_normal = tt;
    old_running = tt;
    unready = λ h. refl;
  }
  Invariant-Reach (next r k) = Invariant-Step k (Invariant-Reach r)

  -- In every state that the queue of the Cyvet backend reaches: while lie, release, an emergency
  -- stop or disconnect waits in the queue or runs, the backend is not ready, whatever preparation
  -- runs or was accepted before.
  pub stop_unready :
      {profile : String} {s : System d}
      → Reach profile s
      → 0 < length s.gate.urgent + stops s.running
      → s.gate.ready ≡ false
  stop_unready r h = let i = Invariant-Reach r in let c = i.counted in i.unready (omega arith)
