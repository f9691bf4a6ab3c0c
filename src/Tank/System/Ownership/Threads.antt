-- ===== src/Tank/System/Ownership/Threads.antt =====
-- src/tank/tank_backend.cpp: the threads and the invariant of control ownership.
use nav_bridge.Prelude.{
  ℕ, ◌≡◌, refl, Bool-cases, inl, inr, sym, Bool, true, false, not, ◌&&◌, ◌||◌, Option, none, some,
  arith, ◌==◌, if◌then◌else◌,
}
use mathlib.Core.Path.{subst}
use nav_bridge.Backend.{Doubles, BackendResult}
use nav_bridge.Tank.State.{Options, Tank, ControlView, control_view}
use nav_bridge.Tank.Process.{Process, velocity, set_brake, ◌>>=◌}
use nav_bridge.Tank.Http.{Jsoncpp, StateAnswer}
use nav_bridge.Tank.Actions.{
  fail_link, halt_device, conclude, prepare, reconnect, ready, brake_device, stop, close,
}
use nav_bridge.Tank.Workers.{
  drive, controlled, control_round, poll_answered, poll_round, battery_round, raw_velocity_round,
}
use nav_bridge.Tank.System.{Purpose, to_ready, to_stop}
use nav_bridge.Tank.System.Ownership.{
  Control, control, is_stop, Inv, Thread, Keeps, Wp, Wp-if, Wp-test, Wp-keep, Wp-bind, Wp-after,
  Silent, Silent-if, Wp-Silent,
}
use nav_bridge.Tank.System.Ownership.Quiet.{
  Silent-request, Silent-send_move, Silent-query_state, Silent-query_brake, Silent-enter_idle,
  Silent-state_after, Silent-brake_after, Silent-release_after, Silent-halt_device,
  Silent-stand_still, Same-move_answered, Same-battery_polled,
}
use nav_bridge.Tank.System.Ownership.Sections.{
  Keeps-link_failed, Keeps-polled, Keeps-prepared, holder,
}
use Prim.Native.String.{String}

-- The thread keeps the invariant to its end.
abbrev pub Safe : {d : Doubles} {A : Type 0} → Thread → Bool → Process d A → Type 0
Safe w quiet p = Wp w (λ a q. Unit) quiet p

module _ {d : Doubles} (js : Jsoncpp d) (o : Options d) (w : Thread) where
  pub Safe-fail_link :
      (quiet : Bool) (message : String) (ticket : ℕ) → Safe w quiet (fail_link js o message ticket)
  unfolding fail_link ◌>>=◌
  Safe-fail_link quiet message ticket =
      Wp.keeps (λ now t. quiet) (λ now t. Keeps-link_failed o w quiet ticket t)
        λ now t. Wp-if _ (Wp-keep (λ now t. refl) (λ now t. Wp.ends tt)) (Wp.ends tt)

  Safe-drive :
      (quiet : Bool) (previous : Option ℕ) (view : ControlView d o)
      → Safe w quiet (drive js o previous view)
  unfolding drive ◌>>=◌
  Safe-drive quiet previous view =
      Wp-keep (λ now t. refl)
        λ started t.
          Wp-after
            (Silent-request js o "/robot/cmd/move" (some (velocity view.linear view.angular)))
            λ a.
              Wp-keep
                (λ now t.
                  (Same-move_answered o view started previous a.result a.transport_failure now
                    t).same)
                λ now t. Wp-if _ (Wp.ends tt) (
                  Wp-if _ (Safe-fail_link quiet _ _)
                    (Wp-keep (λ now t. refl) (λ now t. Wp.ends tt)))

  Safe-controlled :
      (quiet : Bool) (previous : Option ℕ) (view : ControlView d o)
      → Safe w quiet (controlled js o previous view)
  unfolding controlled
  Safe-controlled quiet previous view =
      Wp-if _ (Wp-after (Silent-send_move js o d.nought d.nought) (λ a. Safe-fail_link quiet _ _))
        (Wp-if _ (Safe-drive quiet previous view) (Wp.ends tt))

  pub Safe-control_round :
      (quiet : Bool) (previous : Option ℕ) → Safe w quiet (control_round js o previous)
  unfolding control_round ◌>>=◌
  Safe-control_round quiet previous =
      Wp-keep (λ now t. refl) (λ now t. Safe-controlled quiet previous (control_view d o now t))

  Safe-poll_answered :
      (quiet : Bool) (ticket : ℕ) (state : StateAnswer js o) (r : BackendResult)
      (brake failure : Bool)
      → Safe w quiet (poll_answered js o ticket state r brake failure)
  unfolding poll_answered ◌>>=◌
  Safe-poll_answered quiet ticket state r brake failure =
      Wp-keep (λ now t. refl)
        λ now t. Wp-if _ (Wp.ends tt) (
          Wp-if _
            (Wp.keeps (λ now t. quiet) (λ now t. Keeps-polled o w quiet ticket _ _ brake now t)
              (λ now t. Wp.ends tt))
            (Wp-keep (λ now t. refl)
              λ now t.
                Wp-if _ (Safe-fail_link quiet _ _) (Wp-keep (λ now t. refl) (λ now t. Wp.ends tt))))

  pub Safe-poll_round : (quiet : Bool) → Safe w quiet (poll_round js o)
  unfolding poll_round ◌>>=◌
  Safe-poll_round quiet =
      Wp-keep (λ now t. refl)
        λ now t. Wp-after (Silent-query_state js o) λ state.
          Wp-if _
            (Wp-after (Silent-query_brake js o true) (λ b.
              Safe-poll_answered quiet t.epoch state b.result b.device_brake b.transport_failure))
            (Safe-poll_answered quiet t.epoch state state.result true state.transport_failure)

  pub Safe-battery_round : (quiet : Bool) → Safe w quiet (battery_round js o)
  unfolding battery_round ◌>>=◌
  Safe-battery_round quiet =
      Wp-keep (λ now t. refl)
        λ now t. Wp-after (Silent-request js o "/robot/sensor_data/battery" none) λ a.
          Wp-keep (λ now t. (Same-battery_polled o _ _ _ t).same)
            λ now t. Wp-if _ (Wp-keep (λ now t. refl) (λ now t. Wp.ends tt)) (Wp.ends tt)

  pub Safe-raw_velocity_round : (quiet : Bool) → Safe w quiet (raw_velocity_round js o)
  unfolding raw_velocity_round ◌>>=◌
  Safe-raw_velocity_round quiet =
      Wp-after (Silent-request js o "/robot/sensor_data/raw_velocity" none) λ a.
        Wp-keep (λ now t. refl)
          λ now t.
            Wp-keep (λ now t. refl)
              λ now t. Wp-if _ (Wp-keep (λ now t. refl) (λ now t. Wp.ends tt)) (Wp.ends tt)

-- A preparation, which may grant control, and what it must know of its ticket for that.
module _ {d : Doubles} (js : Jsoncpp d) (o : Options d) (F : (ℕ → Option Purpose) → Type 0) where
  module _ (explicit_ready : Bool) (ticket : ℕ)
      (h : (drawn : ℕ → Option Purpose)
        → F drawn
        → explicit_ready ≡ true
        → drawn ticket ≡ some to_ready)
      (quiet : Bool) where
    Safe-conclude :
        (state : String) (brake : Bool) (moved : BackendResult)
        → Safe (holder o F) quiet (conclude js o explicit_ready ticket state brake moved)
    unfolding conclude ◌>>=◌
    Safe-conclude state brake moved =
        Wp-if moved.success
          (Wp.keeps (λ now t. false)
            (λ now t. Keeps-prepared o F explicit_ready ticket quiet h state brake now t)
            (λ now t. Wp-if _ (Wp.ends tt) (Wp.ends tt)))
          (Wp-bind (Safe-fail_link js o (holder o F) quiet moved.message ticket)
            (λ a q r. Wp.ends tt))

    pub Safe-prepare : Safe (holder o F) quiet (prepare js o explicit_ready ticket)
    unfolding prepare
    Safe-prepare = Wp-after (Silent-if _ (Silent-enter_idle js o) Silent.ends) λ entered.
        Wp-after (Silent-state_after js o entered) λ state.
          Wp-after (Silent-brake_after js o _) λ brake.
            Wp-after (Silent-release_after js o explicit_ready ticket brake) λ released.
              Wp-after (Silent-stand_still js o _)
                λ moved. Safe-conclude state.device_state released.device_brake moved

module _ {d : Doubles} (js : Jsoncpp d) (o : Options d) where
  pub Safe-reconnect :
      (ticket : ℕ) (quiet : Bool) → Safe (holder o (λ drawn. Unit)) quiet (reconnect js o ticket)
  unfolding reconnect ◌>>=◌
  Safe-reconnect ticket quiet =
      Wp-keep (λ now t. refl)
        λ now t.
          Wp-if _
            (Wp-bind (Safe-prepare js o _ false ticket (λ drawn known e. absurd (cc e)) quiet)
              (λ a q x. Wp.ends tt))
            (Wp.ends tt)

  pub Safe-ready :
      (ticket : ℕ) (quiet : Bool)
      → Safe (holder o (λ drawn. drawn ticket ≡ some to_ready)) quiet (ready js o ticket)
  unfolding ready ◌>>=◌
  Safe-ready ticket quiet =
      Wp-keep (λ now t. refl)
        λ now t.
          Wp-if _ (Safe-prepare js o _ true ticket (λ drawn known x. known) quiet) (Wp.ends tt)

abandoned :
    (enabled connected owned want brake estopped : Bool)
    → not owned || (enabled && connected && want && not brake && not estopped) ≡ true
    → want ≡ false
    → owned ≡ false
abandoned enabled connected owned want brake estopped h e = ground arith

-- Control is not owned where a stop was drawn last.
pub Inv-abandoned :
    (enabled : Bool) (drawn : ℕ → Option Purpose) (closing : Bool) (c : Control)
    → Inv enabled drawn closing c
    → drawn c.epoch ≡ some to_stop
    → (c.want ≡ false) × (c.owned ≡ false)
Inv-abandoned enabled drawn closing c inv e =
    let want = subst (λ p. is_stop p && c.want ≡ false) e inv.obeyed in
    (want, abandoned enabled c.connected c.owned c.want c.brake c.estopped inv.allowed want)

-- Where control is not owned, the brake and the link may be anything.
module _ {d : Doubles} (o : Options d) (F : (ℕ → Option Purpose) → Type 0) where
  Keeps-braked :
      (t : Tank d) → Keeps (holder o F) true true t (record t { brake = true; brake_known = true })
  Keeps-braked t = record {
    kept = λ drawn closing known inv q. (
      record {
        allowed =
            subst
              (λ b.
                not b
                  || (o.enable_motion_output
                      && t.cached.connected
                      && t.want_control
                      && not true
                      && not t.local_estop)
                ≡ true)
              (sym q) refl;
        obeyed = inv.obeyed;
        unused = inv.unused;
        closed = inv.closed;
      },
      q,
    );
    grants = refl;
  }

  Keeps-unlinked :
      (v : d.Value) (t : Tank d)
      → Keeps
          (holder o F)
          true
          true
          t
          (record t { cached = record t.cached { connected = false; battery_percent = v } })
  Keeps-unlinked v t = record {
    kept = λ drawn closing known inv q. (
      record {
        allowed =
            subst
              (λ b.
                not b
                  || (o.enable_motion_output
                      && false
                      && t.want_control
                      && not t.brake
                      && not t.local_estop)
                ≡ true)
              (sym q) refl;
        obeyed = inv.obeyed;
        unused = inv.unused;
        closed = inv.closed;
      },
      q,
    );
    grants = refl;
  }

stopped_quiet :
    (running : Bool) (ticket epoch : ℕ) (owned : Bool)
    → (ticket ≡ epoch → owned ≡ false)
    → (running && ticket == epoch) && owned ≡ false
stopped_quiet running ticket epoch owned h = elim (Bool-cases (running && ticket == epoch)) [
  | inl e ↦
      subst (λ b. (running && ticket == epoch) && b ≡ false) (sym (h (ground arith))) (ground arith)
  | inr e ↦ ground arith
]

module _ {d : Doubles} (js : Jsoncpp d) (o : Options d) (F : (ℕ → Option Purpose) → Type 0) where
  Safe-brake_device : Safe (holder o F) true (brake_device js o)
  unfolding brake_device ◌>>=◌
  Safe-brake_device =
      Wp-after (Silent-request js o "/robot/cmd/move_brake" (some (set_brake true))) λ a.
        Wp-if _
          (Wp-after (Silent-query_brake js o false) λ b.
            Wp-if _ (Wp.keeps (λ now t. true) (λ now t. Keeps-braked o F t) (λ now t. Wp.ends tt))
              (Wp.ends tt))
          (Wp.ends tt)

  Safe-act :
      (emergency : Bool)
      → Safe (holder o F) true (if emergency then brake_device js o else halt_device js o)
  Safe-act emergency =
      Wp-if emergency Safe-brake_device (Wp-Silent (Silent-halt_device js o) (λ a. tt))

  pub Safe-close : Safe (holder o F) true (close js o)
  unfolding close ◌>>=◌
  Safe-close = Wp-after (Silent-if _ (Silent-halt_device js o) Silent.ends) λ r.
      Wp.keeps (λ now t. true) (λ now t. Keeps-unlinked o F d.minus_one t) (λ now t. Wp.ends tt)

module _ {d : Doubles} (js : Jsoncpp d) (o : Options d) where
  pub Safe-stop :
      (emergency : Bool) (ticket : ℕ) (quiet : Bool)
      → Safe (holder o (λ drawn. drawn ticket ≡ some to_stop)) quiet (stop js o emergency ticket)
  unfolding stop ◌>>=◌
  Safe-stop emergency ticket quiet =
      Wp.keeps (λ now t. t.running && ticket == t.epoch)
        (λ now t. record {
          kept = λ drawn closing known inv q. (
            inv,
            stopped_quiet t.running ticket t.epoch t.cached.control_owned λ e.
                (Inv-abandoned o.enable_motion_output drawn closing (control t) inv
                  (subst (λ k. drawn k ≡ some to_stop) e known)).1,
          );
          grants = refl;
        })
        (λ now t.
          Wp-test (t.running && ticket == t.epoch)
            (Wp-bind (Safe-act js o (λ drawn. drawn ticket ≡ some to_stop) emergency) λ r q x.
              Wp-if r.success (Wp.ends tt)
                (Wp-bind (Safe-fail_link js o _ q r.message ticket) (λ a q y. Wp.ends tt)))
            (Wp.ends tt))
