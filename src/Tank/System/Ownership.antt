-- ===== src/Tank/System/Ownership.antt =====
-- The invariant of the threads: whoever owns control may, and a stop that was drawn last has its way.
pub mod Quiet
pub mod Sections
pub mod Threads
pub mod Running
pub mod Reaches
use mathlib.Core.Path.{subst}
use nav_bridge.Prelude.{
  ℕ, suc, ◌≤◌, ◌<◌, ◌≡◌, refl, sym, Bool, true, false, not, ◌&&◌, ◌||◌, Option, none, some, arith,
  ◌==◌, if◌then◌else◌,
}
use nav_bridge.Backend.{Doubles}
use nav_bridge.Tank.State.{Options, Tank}
use nav_bridge.Tank.Process.{Reply, Process, done, section, ask, Request, ◌>>=◌}
use nav_bridge.Tank.System.{Purpose, to_ready, to_stop}

-- What the invariant is about.
pub record Control : Type 0 where
  pub running : Bool
  pub epoch : ℕ
  pub connected : Bool
  pub owned : Bool
  pub want : Bool
  pub brake : Bool
  pub estopped : Bool

abbrev pub control : {d : Doubles} → Tank d → Control
control t = record {
  running = t.running;
  epoch = t.epoch;
  connected = t.cached.connected;
  owned = t.cached.control_owned;
  want = t.want_control;
  brake = t.brake;
  estopped = t.local_estop;
}

abbrev pub is_stop : Option Purpose → Bool
is_stop (some to_stop) = true
is_stop (some to_ready) = false
is_stop none = false

-- Control is owned only over a link, with motion enabled and wanted, the brake off, and no stop.
abbrev pub is_allowed : Bool → Control → Bool
is_allowed enabled c =
    not c.owned || (enabled && c.connected && c.want && not c.brake && not c.estopped)

pub record Inv (enabled : Bool) (drawn : ℕ → Option Purpose) (closing : Bool) (c : Control)
    : Type 0 where
  pub allowed : is_allowed enabled c ≡ true
  pub obeyed : is_stop (drawn c.epoch) && c.want ≡ false
  pub unused : (k : ℕ) → c.epoch < k → drawn k ≡ none
  pub closed : closing && (c.running || c.owned) ≡ false

-- Whether motion is enabled, whether the thread holds `io`, and what it knows of its ticket.
pub record Thread : Type 1 where
  pub enabled : Bool
  pub inside : Bool
  pub Fact : (ℕ → Option Purpose) → Type 0

-- What a thread that holds `io` may know of the ownership: no other thread grants it.
abbrev pub Known : Thread → Bool → Control → Type 0
Known w quiet c = w.inside && (quiet && c.owned) ≡ false

pub no_grant : (inside owned : Bool) → not inside && not owned && owned ≡ false
no_grant inside owned = ground arith

-- What a section does to the invariant: it keeps it, and grants ownership only within `io`.
pub record Keeps {d : Doubles} (w : Thread) (quiet after : Bool) (t u : Tank d) : Type 0 where
  pub kept :
      (drawn : ℕ → Option Purpose) (closing : Bool)
      → w.Fact drawn
      → Inv w.enabled drawn closing (control t)
      → Known w quiet (control t)
      → Inv w.enabled drawn closing (control u) × Known w after (control u)
  pub grants : not w.inside && not t.cached.control_owned && u.cached.control_owned ≡ false

-- The states have the same control.
pub record Same {d : Doubles} (t u : Tank d) : Type 0 where
  pub same : control u ≡ control t

-- A section that changes nothing of what the invariant is about.
pub Keeps-same :
    {d : Doubles} {w : Thread} {quiet : Bool} {t u : Tank d}
    → control u ≡ control t
    → Keeps w quiet quiet t u
Keeps-same {w = w} {quiet = quiet} {t = t} e = record {
  kept = λ drawn closing known inv q. (
    subst (λ c. Inv w.enabled drawn closing c) (sym e) inv,
    subst (λ c. Known w quiet c) (sym e) q,
  );
  grants =
      subst (λ c. not w.inside && not t.cached.control_owned && c.owned ≡ false) (sym e)
        (no_grant w.inside t.cached.control_owned);
}

module _ {d : Doubles} {A : Type 0} where
  -- Every section of the thread keeps the invariant. What is known changes along it, and `Q` is about
  -- its end.
  pub data Wp (w : Thread) (Q : A → Bool → Type 0) : Bool → Process d A → Type 0 where
    ends : {quiet : Bool} {a : A} → Q a quiet → Wp w Q quiet (done a)
    keeps :
        {quiet : Bool} {f : ℕ → Tank d → Tank d} {k : ℕ → Tank d → Process d A}
        (after : ℕ → Tank d → Bool)
        → ((now : ℕ) (t : Tank d) → Keeps w quiet (after now t) t (f now t))
        → ((now : ℕ) (t : Tank d) → Wp w Q (after now t) (k now t))
        → Wp w Q quiet (section f k)
    asks :
        {quiet : Bool} {r : Request d} {k : Reply → Process d A}
        → ((reply : Reply) → Wp w Q quiet (k reply))
        → Wp w Q quiet (ask r k)

  -- A thread that changes nothing of what the invariant is about.
  pub data Silent : Process d A → Type 0 where
    ends : {a : A} → Silent (done a)
    keeps :
        {f : ℕ → Tank d → Tank d} {k : ℕ → Tank d → Process d A}
        → ((now : ℕ) (t : Tank d) → control (f now t) ≡ control t)
        → ((now : ℕ) (t : Tank d) → Silent (k now t))
        → Silent (section f k)
    asks :
        {r : Request d} {k : Reply → Process d A}
        → ((reply : Reply) → Silent (k reply))
        → Silent (ask r k)

  pub Silent-if : (b : Bool) {p q : Process d A} → Silent p → Silent q → Silent (if b then p else q)
  Silent-if true h k = h
  Silent-if false h k = k

  pub Wp-if :
      {w : Thread} {Q : A → Bool → Type 0} {quiet : Bool} (b : Bool) {p q : Process d A}
      → Wp w Q quiet p
      → Wp w Q quiet q
      → Wp w Q quiet (if b then p else q)
  Wp-if true h k = h
  Wp-if false h k = k

  -- To go on with what a test has found out.
  pub Wp-test :
      {w : Thread} {Q : A → Bool → Type 0} (b : Bool) {p q : Process d A}
      → Wp w Q true p
      → Wp w Q false q
      → Wp w Q b (if b then p else q)
  Wp-test true h k = h
  Wp-test false h k = k

  pub Wp-keep :
      {w : Thread} {Q : A → Bool → Type 0} {quiet : Bool} {f : ℕ → Tank d → Tank d}
      {k : ℕ → Tank d → Process d A}
      → ((now : ℕ) (t : Tank d) → control (f now t) ≡ control t)
      → ((now : ℕ) (t : Tank d) → Wp w Q quiet (k now t))
      → Wp w Q quiet (section f k)
  Wp-keep {quiet = quiet} e h = Wp.keeps (λ now t. quiet) (λ now t. Keeps-same (e now t)) h

  pub Wp-Silent :
      {w : Thread} {Q : A → Bool → Type 0} {quiet : Bool} {m : Process d A}
      → Silent m
      → ((a : A) → Q a quiet)
      → Wp w Q quiet m
  Wp-Silent Silent.ends q = Wp.ends (q _)
  Wp-Silent (Silent.keeps e h) q = Wp-keep e (λ now t. Wp-Silent (h now t) q)
  Wp-Silent (Silent.asks h) q = Wp.asks (λ reply. Wp-Silent (h reply) q)

module _ {d : Doubles} {A B : Type 0} where
  pub Silent-bind :
      {m : Process d A} {f : A → Process d B}
      → Silent m
      → ((a : A) → Silent (f a))
      → Silent (m >>= f)
  unfolding ◌>>=◌
  Silent-bind Silent.ends k = k _
  Silent-bind (Silent.keeps e h) k = Silent.keeps e (λ now t. Silent-bind (h now t) k)
  Silent-bind (Silent.asks h) k = Silent.asks (λ reply. Silent-bind (h reply) k)

  pub Wp-bind :
      {w : Thread} {P : A → Bool → Type 0} {Q : B → Bool → Type 0} {quiet : Bool} {m : Process d A}
      {f : A → Process d B}
      → Wp w P quiet m
      → ((a : A) (q : Bool) → P a q → Wp w Q q (f a))
      → Wp w Q quiet (m >>= f)
  unfolding ◌>>=◌
  Wp-bind (Wp.ends h) k = k _ _ h
  Wp-bind (Wp.keeps after e h) k = Wp.keeps after e (λ now t. Wp-bind (h now t) k)
  Wp-bind (Wp.asks h) k = Wp.asks (λ reply. Wp-bind (h reply) k)

  -- What follows a silent thread.
  pub Wp-after :
      {w : Thread} {Q : B → Bool → Type 0} {quiet : Bool} {m : Process d A} {f : A → Process d B}
      → Silent m
      → ((a : A) → Wp w Q quiet (f a))
      → Wp w Q quiet (m >>= f)
  unfolding ◌>>=◌
  Wp-after Silent.ends k = k _
  Wp-after (Silent.keeps e h) k = Wp-keep e (λ now t. Wp-after (h now t) k)
  Wp-after (Silent.asks h) k = Wp.asks (λ reply. Wp-after (h reply) k)
