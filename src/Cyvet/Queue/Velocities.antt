-- ===== src/Cyvet/Queue/Velocities.antt =====
-- src/cyvet/cyvet_backend.cpp: the velocity that waits for the worker.
use nav_bridge.Prelude.{
  ℕ, ◌≡◌, refl, Bool, true, false, not, ◌&&◌, ◌||◌, Option, none, some, if-elim,
}
use mathlib.Core.Path.{subst}
use nav_bridge.Backend.{Doubles, BackendResult}
use nav_bridge.Cyvet.Queue.{
  Action, connect_robot, acquire, stand, lie, release, estop, disconnect, switch_profile, Velocity,
  Gate, interrupted, is_stale, unless_stale, accepted, stood, switched, move, System, Step, submits,
  inhibits, quits, takes, stands, switches, ends, returns, moves, drops, reports, clears, Reach,
  here, next,
}
use Prim.Native.String.{String}

granted : (a b c : Bool) → not a || not b || not c ≡ false → a ≡ true
granted true b c e = refl
granted false b c e = absurd (cc e)

module _ {d : Doubles} where
  -- A velocity is held only while the backend is ready, and it is of this generation.
  abbrev Current : Option (Velocity d) → Bool → ℕ → Type 0
  Current none ready generation = Unit
  Current (some v) ready generation = (ready ≡ true) × (v.generation ≡ generation)

  abbrev Held : Gate d → Type 0
  Held s = Current s.velocity s.ready s.generation

  Held-accepted : (s : Gate d) (a : Action) → Held s → Held (accepted a s)
  Held-accepted s connect_robot i = i
  Held-accepted s acquire i = i
  Held-accepted s stand i = tt
  Held-accepted s lie i = tt
  Held-accepted s release i = tt
  Held-accepted s estop i = tt
  Held-accepted s disconnect i = tt
  Held-accepted s (switch_profile p) i = tt

  Held-stood : (s : Gate d) (profile : String) (token : ℕ) → Held s → Held (stood profile token s).1
  Held-stood s profile token i =
      if-elim (λ (r : BackendResult × Gate d). Held r.1) (interrupted token s) _ _ (λ h. i)
        (λ h. tt)

  Held-switched :
      (s : Gate d) (profile : String) (token : ℕ) → Held s → Held (switched profile token s).1
  Held-switched s profile token i =
      if-elim (λ (r : BackendResult × Gate d). Held r.1) (interrupted token s) _ _ (λ h. i)
        (λ h. tt)

  Held-moved : (s : Gate d) (x y yaw : d.Value) (now : ℕ) → Held s → Held (move x y yaw now s).1
  Held-moved s x y yaw now i =
      let P = λ (r : BackendResult × Gate d). Held r.1 in
      if-elim P (not (d.is_finite x && d.is_finite y && d.is_finite yaw)) _ _ (λ h. i)
        (λ h.
          if-elim P (not s.ready || not s.control_owned || not s.connected) _ _ (λ k. i)
            (λ k. (granted s.ready s.control_owned s.connected k, refl)))

  Held-expire :
      (timeout now : ℕ) (s : Gate d) (o : Option (Velocity d))
      → Current o s.ready s.generation
      → Current (unless_stale timeout now s o) s.ready s.generation
  Held-expire timeout now s none i = i
  Held-expire timeout now s (some v) i =
      if-elim (λ (o : Option (Velocity d)). Current o s.ready s.generation)
        (is_stale timeout now s v) _ _ (λ h. tt) (λ h. i)

  Held-Step : {profile : String} {s u : System d} → Step profile s u → Held s.gate → Held u.gate
  Held-Step (submits s a e) i = Held-accepted s.gate a i
  Held-Step (inhibits s) i = tt
  Held-Step (quits s) i = i
  Held-Step (takes s e) i = i
  Held-Step {profile} (stands s token e) i = Held-stood s.gate profile token i
  Held-Step (switches s profile token e) i = Held-switched s.gate profile token i
  Held-Step (ends s) i = i
  Held-Step (returns s n e) i = i
  Held-Step (moves s x y yaw now) i = Held-moved s.gate x y yaw now i
  Held-Step (drops s timeout now) i = Held-expire timeout now s.gate s.gate.velocity i
  Held-Step (reports s c o h e v m r f) i = i
  Held-Step (clears s q) i = i

  Held-Reach : {profile : String} {s : System d} → Reach profile s → Held s.gate
  Held-Reach here = tt
  Held-Reach (next r k) = Held-Step k (Held-Reach r)

  -- In every state that the queue of the Cyvet backend reaches: a velocity that waits to be sent
  -- is of the current generation, and the backend is ready.
  pub held_velocity :
      {profile : String} {s : System d} (v : Velocity d)
      → Reach profile s
      → s.gate.velocity ≡ some v
      → (s.gate.ready ≡ true) × (v.generation ≡ s.gate.generation)
  held_velocity {s} v r e = subst (λ o. Current o s.gate.ready s.gate.generation) e (Held-Reach r)
