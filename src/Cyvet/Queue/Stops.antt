-- ===== src/Cyvet/Queue/Stops.antt =====
-- src/cyvet/cyvet_backend.cpp: what the stops of the queue rely on, and the steps that keep it.
use nav_bridge.Prelude.{
  ℕ, suc, ◌+◌, ◌≤◌, ◌<◌, ◌≡◌, refl, sym, ap, Bool, true, false, not, ◌||◌, Option, none, some, List,
  [], ◌∷◌, ◌==◌, length, arith, if◌then◌else◌,
}
use mathlib.Core.Path.{subst}
use nav_bridge.Backend.{Doubles}
use nav_bridge.Cyvet.Queue.{
  Action, is_priority, is_prepare, Job, inhibit, interrupted, added, popped, take, System, stops,
}

-- Every job of the list is such.
abbrev pub Each : (Job → Type 0) → List Job → Type 0
Each P [] = Unit
Each P (x ∷ xs) = P x × Each P xs

pub Each-map :
    {P Q : Job → Type 0} (xs : List Job) → ((x : Job) → P x → Q x) → Each P xs → Each Q xs
Each-map [] f h = tt
Each-map (x ∷ xs) f (h, hs) = (f x h, Each-map xs f hs)

Each-added :
    (P : Job → Type 0) (xs : List Job) (job : Job) → Each P xs → P job → Each P (added xs job)
Each-added P [] job h p = (p, tt)
Each-added P (x ∷ xs) job (h, hs) p = (h, Each-added P xs job hs p)

length-added : (xs : List Job) (job : Job) → length (added xs job) ≡ suc (length xs)
length-added [] job = refl
length-added (x ∷ xs) job = ap suc (length-added xs job)

-- The job that runs, if one does, is such.
abbrev pub Runs : (Job → Type 0) → Option Job → Type 0
Runs P none = Unit
Runs P (some job) = P job

pub Runs-map : {P Q : Job → Type 0} (o : Option Job) → ((x : Job) → P x → Q x) → Runs P o → Runs Q o
Runs-map none f h = tt
Runs-map (some job) f h = f job h

abbrev pub IsStop : Job → Type 0
IsStop job = is_priority job.action ≡ true

-- A job drawn by now; while stops are asked for, a preparation is older than the last of them.
abbrev pub IsOld : ℕ → ℕ → Job → Type 0
IsOld stop_requests generation job =
    (job.generation ≤ generation)
    × (0 < stop_requests → is_prepare job.action ≡ true → job.generation < generation)

pub record Kept (stop_requests generation : ℕ) (urgents normals : List Job) (ready : Bool)
    (running : Option Job) (ended : ℕ) : Type 0 where
  pub counted : stop_requests ≡ length urgents + stops running + ended
  pub urgent : Each IsStop urgents
  pub normal : Each (λ job. is_priority job.action ≡ false) normals
  pub old_urgent : Each (IsOld stop_requests generation) urgents
  pub old_normal : Each (IsOld stop_requests generation) normals
  pub old_running : Runs (IsOld stop_requests generation) running
  pub unready : 0 < stop_requests → ready ≡ false

abbrev pub Invariant : {d : Doubles} → System d → Type 0
Invariant s =
    Kept s.gate.stop_requests s.gate.generation s.gate.urgent s.gate.normal s.gate.ready s.running
      s.ended

-- A new generation makes every job old.
IsOld-later : (m n g : ℕ) (job : Job) → IsOld m g job → IsOld n (suc g) job
IsOld-later m n g job (h, k) = (omega arith, λ x y. omega arith)

-- With no more stops than before, what was old is.
pub IsOld-fewer : (m n g : ℕ) (job : Job) → (0 < n → 0 < m) → IsOld m g job → IsOld n g job
IsOld-fewer m n g job f (h, k) = (h, λ x y. k (f x) y)

current :
    (quitting : Bool) (generation token : ℕ)
    → quitting || not (generation == token) ≡ false
    → token < generation
    → ⊥
current quitting generation token h less = ground arith

-- The worker takes a job.
popped-Kept :
    (m g : ℕ) (urgents normals : List Job) (ready : Bool) (ended : ℕ)
    → m ≡ length urgents + 0 + ended
    → Each IsStop urgents
    → Each (λ job. is_priority job.action ≡ false) normals
    → Each (IsOld m g) urgents
    → Each (IsOld m g) normals
    → (0 < m → ready ≡ false)
    → (let (job, queues) = popped urgents normals in Kept m g queues.0 queues.1 ready job ended)
popped-Kept m g (x ∷ xs) normals ready ended c (u, us) n (v, vs) o r = record {
  counted = subst (λ b. m ≡ length xs + (if b then 1 else 0) + ended) (sym u) (omega arith);
  urgent = us;
  normal = n;
  old_urgent = vs;
  old_normal = o;
  old_running = v;
  unready = r;
}
popped-Kept m g [] (x ∷ xs) ready ended c u (n, ns) v (o, os) r = record {
  counted = subst (λ b. m ≡ 0 + (if b then 1 else 0) + ended) (sym n) (omega arith);
  urgent = tt;
  normal = ns;
  old_urgent = tt;
  old_normal = os;
  old_running = o;
  unready = r;
}
popped-Kept m g [] [] ready ended c u n v o r = record {
  counted = c;
  urgent = tt;
  normal = tt;
  old_urgent = tt;
  old_normal = tt;
  old_running = tt;
  unready = r;
}

module _ {d : Doubles} where
  pub Invariant-inhibit :
      (s : System d) → Invariant s → Invariant (record s { gate = inhibit s.gate })
  Invariant-inhibit s i =
      let older = IsOld-later s.gate.stop_requests s.gate.stop_requests s.gate.generation in
      record {
        counted = i.counted;
        urgent = i.urgent;
        normal = i.normal;
        old_urgent = Each-map s.gate.urgent older i.old_urgent;
        old_normal = Each-map s.gate.normal older i.old_normal;
        old_running = Runs-map s.running older i.old_running;
        unready = λ h. refl;
      }

  abbrev pub stopping : Action → System d → System d
  stopping a s =
      let g = inhibit s.gate in
      record s {
        gate = record g {
          stop_requests = suc g.stop_requests;
          urgent = added g.urgent (record { action = a; generation = g.generation });
        };
      }

  pub Invariant-stopping :
      (a : Action) (s : System d)
      → is_priority a ≡ true
      → is_prepare a ≡ false
      → Invariant s
      → Invariant (stopping a s)
  Invariant-stopping a s e f i =
      let older = IsOld-later s.gate.stop_requests (suc s.gate.stop_requests) s.gate.generation in
      let job : Job = record { action = a; generation = suc s.gate.generation } in
      let n = length-added s.gate.urgent job in
      let c = i.counted in
      record {
        counted = omega arith;
        urgent = Each-added _ s.gate.urgent job i.urgent e;
        normal = i.normal;
        old_urgent =
            Each-added _ (s.gate.urgent) job (Each-map s.gate.urgent older i.old_urgent)
              (omega arith, λ x y. absurd (cc (f, y)));
        old_normal = Each-map s.gate.normal older i.old_normal;
        old_running = Runs-map s.running older i.old_running;
        unready = λ h. refl;
      }

  abbrev pub queued : Action → System d → System d
  queued a s = record s {
    gate = record s.gate {
      normal = added s.gate.normal (record { action = a; generation = s.gate.generation });
    };
  }

  -- A job that is none of the stops, and no preparation while stops are asked for.
  pub Invariant-queued :
      (a : Action) (s : System d)
      → is_priority a ≡ false
      → (0 < s.gate.stop_requests → is_prepare a ≡ false)
      → Invariant s
      → Invariant (queued a s)
  Invariant-queued a s e f i =
      let job : Job = record { action = a; generation = s.gate.generation } in
      record {
        counted = i.counted;
        urgent = i.urgent;
        normal = Each-added _ s.gate.normal job i.normal e;
        old_urgent = i.old_urgent;
        old_normal =
            Each-added _ s.gate.normal job i.old_normal (omega arith, λ x y. absurd (cc (f x, y)));
        old_running = i.old_running;
        unready = i.unready;
      }

  pub Invariant-granted :
      (s : System d) (a : Action) (token : ℕ)
      → s.running ≡ some (record { action = a; generation = token })
      → is_prepare a ≡ true
      → interrupted token s.gate ≡ false
      → Invariant s
      → Kept s.gate.stop_requests s.gate.generation s.gate.urgent s.gate.normal true s.running
          s.ended
  Invariant-granted s a token e f g i =
      let old =
        subst (λ o. Runs (IsOld s.gate.stop_requests s.gate.generation) o) e i.old_running in
      record {
        counted = i.counted;
        urgent = i.urgent;
        normal = i.normal;
        old_urgent = i.old_urgent;
        old_normal = i.old_normal;
        old_running = i.old_running;
        unready = λ h. absurd (current s.gate.quitting s.gate.generation token g (old.1 h f));
      }

  pub Invariant-taken :
      (s : System d)
      → s.running ≡ none
      → Invariant s
      → Invariant (record s { gate = (take s.gate).1; running = (take s.gate).0 })
  Invariant-taken s e i =
      let counted =
        subst (λ o. s.gate.stop_requests ≡ length s.gate.urgent + stops o + s.ended) e i.counted in
      popped-Kept s.gate.stop_requests s.gate.generation s.gate.urgent s.gate.normal s.gate.ready
        s.ended counted i.urgent i.normal i.old_urgent i.old_normal i.unready
