-- ===== src/Cyvet/Queue/Order.antt =====
-- src/cyvet/cyvet_backend.cpp: the places of the stops that wait.
use nav_bridge.Prelude.{
  ℕ, zero, suc, ◌≡◌, false, not, ◌&&◌, ◌||◌, Option, none, some, List, [], ◌∷◌, if-elim, ◌⊎◌, inl,
  inr,
}
use nav_bridge.Backend.{Doubles, BackendResult}
use nav_bridge.Cyvet.Queue.{
  Action, connect_robot, acquire, stand, lie, release, estop, disconnect, switch_profile, Job, Gate,
  interrupted, accepted, added, popped, stood, switched, move, System, Step, submits, inhibits,
  quits, takes, stands, switches, ends, returns, moves, drops, reports, clears,
}
use Prim.Native.String.{String}

abbrev pub get_elem? : List Job → ℕ → Option Job
get_elem? [] n = none
get_elem? (x ∷ xs) zero = some x
get_elem? (x ∷ xs) (suc n) = get_elem? xs n

-- The job at this place has come one place nearer, or it is the one that runs.
abbrev pub Nearer : Job → ℕ → List Job → Option Job → Type 0
Nearer job zero urgents running = running ≡ some job
Nearer job (suc n) urgents running = get_elem? urgents n ≡ some job

get_elem?-added :
    (xs : List Job) (last job : Job) (n : ℕ)
    → get_elem? xs n ≡ some job
    → get_elem? (added xs last) n ≡ some job
get_elem?-added [] last job n e = absurd (cc e)
get_elem?-added (x ∷ xs) last job zero e = e
get_elem?-added (x ∷ xs) last job (suc n) e = get_elem?-added xs last job n e

popped-Nearer :
    (xs normals : List Job) (job : Job) (n : ℕ)
    → get_elem? xs n ≡ some job
    → Nearer job n (popped xs normals).1.0 (popped xs normals).0
popped-Nearer [] normals job n e = absurd (cc e)
popped-Nearer (x ∷ xs) normals job zero e = e
popped-Nearer (x ∷ xs) normals job (suc n) e = e

module _ {d : Doubles} (job : Job) (n : ℕ) where
  abbrev Waits : Gate d → Type 0
  Waits s = get_elem? s.urgent n ≡ some job

  Waits-accepted : (s : Gate d) (a : Action) → Waits s → Waits (accepted a s)
  Waits-accepted s connect_robot w = w
  Waits-accepted s acquire w = w
  Waits-accepted s stand w = w
  Waits-accepted s lie w = get_elem?-added s.urgent _ job n w
  Waits-accepted s release w = get_elem?-added s.urgent _ job n w
  Waits-accepted s estop w = get_elem?-added s.urgent _ job n w
  Waits-accepted s disconnect w = get_elem?-added s.urgent _ job n w
  Waits-accepted s (switch_profile p) w = w

  Waits-stood :
      (s : Gate d) (profile : String) (token : ℕ) → Waits s → Waits (stood profile token s).1
  Waits-stood s profile token w =
      if-elim (λ (r : BackendResult × Gate d). Waits r.1) (interrupted token s) _ _ (λ h. w)
        (λ h. w)

  Waits-switched :
      (s : Gate d) (profile : String) (token : ℕ) → Waits s → Waits (switched profile token s).1
  Waits-switched s profile token w =
      if-elim (λ (r : BackendResult × Gate d). Waits r.1) (interrupted token s) _ _ (λ h. w)
        (λ h. w)

  Waits-moved : (s : Gate d) (x y yaw : d.Value) (now : ℕ) → Waits s → Waits (move x y yaw now s).1
  Waits-moved s x y yaw now w =
      let P = λ (r : BackendResult × Gate d). Waits r.1 in
      if-elim P (not (d.is_finite x && d.is_finite y && d.is_finite yaw)) _ _ (λ h. w)
        (λ h.
          if-elim P (not s.ready || not s.control_owned || not s.connected) _ _ (λ k. w) (λ k. w))

-- A stop that waits in the queue of the Cyvet backend is not lost: after any step from a state
-- that is not quitting, it waits at its place, or one place nearer to the front, or it was at the
-- front and is the job that the worker runs.
pub waiting_stop :
    {d : Doubles} {profile : String} {s u : System d} (job : Job) (n : ℕ)
    → Step profile s u
    → s.gate.quitting ≡ false
    → get_elem? s.gate.urgent n ≡ some job
    → (get_elem? u.gate.urgent n ≡ some job) ⊎ Nearer job n u.gate.urgent u.running
waiting_stop job n (submits s a e) q w = inl (Waits-accepted job n s.gate a w)
waiting_stop job n (inhibits s) q w = inl w
waiting_stop job n (quits s) q w = inl w
waiting_stop job n (takes s e) q w = inr (popped-Nearer s.gate.urgent s.gate.normal job n w)
waiting_stop {profile} job n (stands s token e) q w = inl (Waits-stood job n s.gate profile token w)
waiting_stop job n (switches s profile token e) q w =
    inl (Waits-switched job n s.gate profile token w)
waiting_stop job n (ends s) q w = inl w
waiting_stop job n (returns s m e) q w = inl w
waiting_stop job n (moves s x y yaw now) q w = inl (Waits-moved job n s.gate x y yaw now w)
waiting_stop job n (drops s timeout now) q w = inl w
waiting_stop job n (reports s c o h e v m r f) q w = inl w
waiting_stop job n (clears s e) q w = absurd (cc (q, e))
