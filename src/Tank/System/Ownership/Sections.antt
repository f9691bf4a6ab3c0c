-- ===== src/Tank/System/Ownership/Sections.antt =====
-- src/tank/tank_backend.cpp: the sections that change the control of the robot.
use nav_bridge.Prelude.{
  ℕ, suc, ◌<◌, ◌≡◌, refl, sym, Bool, true, false, not, ◌&&◌, ◌||◌, Option, none, some, arith, ◌==◌,
  if-elim,
}
use mathlib.Core.Path.{subst}
use nav_bridge.Backend.{Doubles}
use nav_bridge.Tank.State.{Options, Tank, link_failed, prepared, polled}
use nav_bridge.Tank.System.{Purpose, to_ready}
use nav_bridge.Tank.System.Ownership.{is_stop, Thread, Keeps, Keeps-same, no_grant}
use Prim.Native.String.{String}

-- The lemmas on the Booleans that the sections need.
pub closed_still :
    (closing running owned : Bool)
    → closing && (running || owned) ≡ false
    → closing && (running || false) ≡ false
closed_still closing running owned h = ground arith

pub want_lost : (b : Bool) → b && false ≡ false
want_lost b = ground arith

known_lost : (inside quiet : Bool) → inside && (quiet && false) ≡ false
known_lost inside quiet = ground arith

no_grant_lost : (inside owned : Bool) → not inside && not owned && false ≡ false
no_grant_lost inside owned = ground arith

fresh_obeyed :
    (drawn : ℕ → Option Purpose) (k : ℕ) (want : Bool)
    → drawn k ≡ none
    → is_stop (drawn k) && want ≡ false
fresh_obeyed drawn k want e = subst (λ p. is_stop p && want ≡ false) (sym e) refl

unused_later :
    (drawn : ℕ → Option Purpose) (n : ℕ)
    → ((k : ℕ) → n < k → drawn k ≡ none)
    → (k : ℕ) → suc n < k
    → drawn k ≡ none
unused_later drawn n h k less = h k (omega arith)

released :
    (enabled connected owned want brake estopped device_brake idle : Bool)
    → device_brake || not idle ≡ false
    → not owned || (enabled && connected && want && not brake && not estopped) ≡ true
    → not owned || (enabled && connected && want && not device_brake && not estopped) ≡ true
released enabled connected owned want brake estopped device_brake idle e h = ground arith

module _ {d : Doubles} (o : Options d) (w : Thread) (quiet : Bool) where
  pub Keeps-link_failed :
      (ticket : ℕ) (t : Tank d) → Keeps w quiet quiet t (link_failed d o ticket t)
  Keeps-link_failed ticket t =
      if-elim (λ (u : Tank d). Keeps w quiet quiet t u) _ _ _ (λ _. Keeps-same refl)
        (λ _. record {
          kept = λ drawn closing known inv q. (
            record {
              allowed = refl;
              obeyed =
                  fresh_obeyed drawn (suc t.epoch) t.want_control
                    (inv.unused (suc t.epoch) (omega arith));
              unused = unused_later drawn t.epoch inv.unused;
              closed = closed_still closing t.running t.cached.control_owned inv.closed;
            },
            known_lost w.inside quiet,
          );
          grants = no_grant_lost w.inside t.cached.control_owned;
        })

  pub Keeps-polled :
      (ticket : ℕ) (state : String) (idle device_brake : Bool) (now : ℕ) (t : Tank d)
      → Keeps w quiet quiet t (polled d o ticket state idle device_brake now t)
  Keeps-polled ticket state idle device_brake now t =
      if-elim (λ (u : Tank d). Keeps w quiet quiet t u) _ _ _ (λ _. Keeps-same refl)
        (λ _.
          if-elim (λ (u : Tank d). Keeps w quiet quiet t u) _ _ _
            (λ _. record {
              kept = λ drawn closing known inv q. (
                record {
                  allowed = refl;
                  obeyed = want_lost (is_stop (drawn t.epoch));
                  unused = inv.unused;
                  closed = closed_still closing t.running t.cached.control_owned inv.closed;
                },
                known_lost w.inside quiet,
              );
              grants = no_grant_lost w.inside t.cached.control_owned;
            })
            (λ e. record {
              kept = λ drawn closing known inv q. (
                record {
                  allowed =
                      released w.enabled t.cached.connected t.cached.control_owned t.want_control
                        t.brake t.local_estop device_brake idle e inv.allowed;
                  obeyed = inv.obeyed;
                  unused = inv.unused;
                  closed = inv.closed;
                },
                q,
              );
              grants = no_grant w.inside t.cached.control_owned;
            }))

-- A thread that holds `io`, with what it knows of its ticket, and one that does not.
abbrev pub holder : {d : Doubles} → Options d → ((ℕ → Option Purpose) → Type 0) → Thread
holder o F = record { enabled = o.enable_motion_output; inside = true; Fact = F }

abbrev pub other : {d : Doubles} → Options d → Thread
other o = record { enabled = o.enable_motion_output; inside = false; Fact = λ drawn. Unit }

granted :
    (enabled want brake stopped : Bool)
    → (let owned = enabled && want && not brake && not stopped in
        not owned || (enabled && true && want && not brake && not stopped))
      ≡ true
granted enabled want brake stopped = ground arith

obeyed_prepared :
    (p : Option Purpose) (want explicit_ready : Bool)
    → is_stop p && want ≡ false
    → (explicit_ready ≡ true → p ≡ some to_ready)
    → is_stop p && (want || explicit_ready) ≡ false
obeyed_prepared p want true h k =
    subst (λ r. is_stop r && (want || true) ≡ false) (sym (k refl)) refl
obeyed_prepared p true false h k = h
obeyed_prepared p false false h k = h

running_open :
    (closing running owned owned' wrong : Bool)
    → not running || wrong ≡ false
    → closing && (running || owned) ≡ false
    → closing && (running || owned') ≡ false
running_open closing running owned owned' wrong e h = ground arith

same_ticket :
    (ticket epoch : ℕ) (running : Bool)
    → not running || not (ticket == epoch) ≡ false
    → ticket ≡ epoch
same_ticket ticket epoch running h = ground arith

module _ {d : Doubles} (o : Options d) (F : (ℕ → Option Purpose) → Type 0) where
  pub Keeps-prepared :
      (explicit_ready : Bool) (ticket : ℕ) (quiet : Bool)
      → ((drawn : ℕ → Option Purpose)
          → F drawn
          → explicit_ready ≡ true
          → drawn ticket ≡ some to_ready)
      → (state : String) (brake : Bool) (now : ℕ) (t : Tank d)
      → Keeps (holder o F) quiet false t ((prepared d o explicit_ready ticket state brake now t).1)
  Keeps-prepared explicit_ready ticket quiet h state brake now t =
      let want = t.want_control || explicit_ready in
      let stopped = t.local_estop && not explicit_ready in
      if-elim (λ (r : Bool × Tank d). Keeps (holder o F) quiet false t r.1) _ _ _
        (λ _. record { kept = λ drawn closing known inv q. (inv, refl); grants = refl })
        (λ e. record {
          kept = λ drawn closing known inv q. (
            record {
              allowed = granted o.enable_motion_output want brake stopped;
              obeyed = obeyed_prepared (drawn t.epoch) t.want_control explicit_ready inv.obeyed λ x.
                  subst (λ k. drawn k ≡ some to_ready) (same_ticket ticket t.epoch t.running e)
                    (h drawn known x);
              unused = inv.unused;
              closed = running_open closing t.running t.cached.control_owned _ _ e inv.closed;
            },
            refl,
          );
          grants = refl;
        })
