-- ===== src/Tank/State/Commands.antt =====
-- Velocity commands: their bounds, what a failure does to them, and the samples of the rate.
use nav_bridge.Prelude.{
  ℕ, ◌-◌, ◌*◌, ◌≤◌, ◌≡◌, refl, sym, Bool, true, false, not, ◌&&◌, ◌||◌, Option, some, List, [], ◌∷◌,
  ◌++◌, arith, ltb, leb, ◌==◌, if-elim, if◌then◌else◌, ap, ◌∙◌, Bool-cases, inl, inr,
}
use mathlib.Core.Path.{subst}
use nav_bridge.Backend.{Doubles, clamp, BackendResult}
use nav_bridge.Tank.State.{
  Options, Tank, tick, drop_old, move, ControlView, control_view, move_started, move_answered,
  is_fresh,
}
use nav_bridge.Tank.State.Sections.{Sections, Sections-Kept, Zero, Section-Zero}

permitted :
    (running connected owned estopped brake : Bool)
    → not running || not connected || not owned || estopped || brake ≡ false
    → running && connected && owned && not estopped && not brake ≡ true
permitted running connected owned estopped brake h = ground arith

module _ (d : Doubles) (irreflexive : (v : d.Value) → d.lt v v ≡ false) where
  open d use {Value, lt, negate}

  clamp-bound :
      (v low high : Value)
      → lt high low ≡ false
      → (lt (clamp d v low high) low ≡ false) × (lt high (clamp d v low high) ≡ false)
  clamp-bound v low high h =
      if-elim (λ r. (lt r low ≡ false) × (lt high r ≡ false)) (lt v low) _ _
        (λ _. (irreflexive low, h))
        (λ e.
          if-elim (λ r. (lt r low ≡ false) × (lt high r ≡ false)) (lt high v) _ _
            (λ _. (h, irreflexive high)) (λ f. (e, f)))

  module _ (o : Options d) where
    -- With a comparison that is irreflexive and limits that are not below their negations: where
    -- TankBackend::move returns with success, the cached velocities lie within the limits, the
    -- command is stamped with this instant, and the backend runs with control over a link, without
    -- brake and emergency stop.
    pub move-bound :
        (x y yaw : Value) (now : ℕ) (t : Tank d)
        → lt o.max_linear_speed (negate o.max_linear_speed) ≡ false
        → lt o.max_angular_speed (negate o.max_angular_speed) ≡ false
        → (move d o x y yaw now t).0.success ≡ true
        → (let u = (move d o x y yaw now t).1 in
            (lt u.vx (negate o.max_linear_speed) ≡ false)
            × (lt o.max_linear_speed u.vx ≡ false)
            × (lt u.wz (negate o.max_angular_speed) ≡ false)
            × (lt o.max_angular_speed u.wz ≡ false)
            × (u.command_time ≡ some now)
            × (u.running
                  && u.cached.connected
                  && u.cached.control_owned
                  && not u.local_estop
                  && not u.brake
                ≡ true))
    move-bound x y yaw now t h k =
        let odd = not (d.is_finite x) || not (d.is_finite y) || not (d.is_finite yaw) in
        let inhibited =
          not t.running
          || not t.cached.connected
          || not t.cached.control_owned
          || t.local_estop
          || t.brake in
        let P = λ (r : BackendResult × Tank d).
          r.0.success ≡ true
          → (lt r.1.vx (negate o.max_linear_speed) ≡ false)
            × (lt o.max_linear_speed r.1.vx ≡ false)
            × (lt r.1.wz (negate o.max_angular_speed) ≡ false)
            × (lt o.max_angular_speed r.1.wz ≡ false)
            × (r.1.command_time ≡ some now)
            × (r.1.running
                  && r.1.cached.connected
                  && r.1.cached.control_owned
                  && not r.1.local_estop
                  && not r.1.brake
                ≡ true) in
        if-elim P odd _ _ (λ _ e. absurd (cc e))
          λ _.
            if-elim P inhibited _ _ (λ _ e. absurd (cc e))
              λ f e.
                let a = clamp-bound x (negate o.max_linear_speed) o.max_linear_speed h in
                let b = clamp-bound yaw (negate o.max_angular_speed) o.max_angular_speed k in
                (
                  a.0,
                  a.1,
                  b.0,
                  b.1,
                  refl,
                  permitted t.running t.cached.connected t.cached.control_owned t.local_estop
                      t.brake f,
                )

superseded :
    (ticket epoch : ℕ) (owned : Bool)
    → ticket ≡ epoch
    → owned ≡ true
    → not (ticket == epoch && owned) ≡ false
superseded ticket epoch owned e h = ground arith

module _ (d : Doubles) (o : Options d) where
  answered-Zero :
      (view : ControlView d o) (started : ℕ) (previous : Option ℕ) (answer : BackendResult)
      (transport_failure : Bool) (now : ℕ) (t : Tank d)
      → answer.success ≡ false
      → view.ticket ≡ t.epoch
      → t.cached.control_owned ≡ true
      → Zero d o (move_answered d o view started previous answer transport_failure now t).1
  answered-Zero view started previous answer b now t failed same owned =
      let P = λ (r : Bool × Tank d). Zero d o r.1 in
      if-elim P (not (view.ticket == t.epoch && t.cached.control_owned)) _ _
        (λ e. absurd (cc (e, superseded view.ticket t.epoch t.cached.control_owned same owned)))
        λ _. if-elim P answer.success _ _ (λ e. absurd (cc (e, failed))) (λ _. (refl, refl))

  view-Zero :
      (later : ℕ) (t : Tank d)
      → Zero d o t
      → (let next = control_view d o later t in
          (next.linear ≡ d.nought) × (next.angular ≡ d.nought))
  view-Zero later t z =
      let fresh = is_fresh d o later t.command_time in
      (
        if-elim (λ v. v ≡ d.nought) fresh t.vx d.nought (λ _. z.0) (λ _. refl),
        if-elim (λ v. v ≡ d.nought) fresh t.wz d.nought (λ _. z.1) (λ _. refl),
      )

  -- After a move that failed, of the current ticket and with control owned, a round of the control
  -- loop reads zero velocities, whenever it comes and whatever sections the threads have taken in
  -- between, if none of them was that of a new /cmd_vel.
  pub move_answered-cleared :
      (view : ControlView d o) (started : ℕ) (previous : Option ℕ) (answer : BackendResult)
      (transport_failure : Bool) (now : ℕ) (t : Tank d)
      → answer.success ≡ false
      → view.ticket ≡ t.epoch
      → t.cached.control_owned ≡ true
      → {u : Tank d}
      → Sections d o false
          (move_answered d o view started previous answer transport_failure now t).1
          u
      → (later : ℕ)
      → (let next = control_view d o later u in
          (next.linear ≡ d.nought) × (next.angular ≡ d.nought))
  move_answered-cleared view started previous answer b now t failed same owned {u} run later =
      view-Zero later u (
        Sections-Kept d o (Zero d o) (Section-Zero d o) (λ _ _ e. absurd (cc e)) run
          (answered-Zero view started previous answer b now t failed same owned))

-- The samples that are not older than five seconds.
unfoldable pub filter : (ℕ → Bool) → List ℕ → List ℕ
filter keep [] = []
filter keep (x ∷ xs) = if keep x then x ∷ filter keep xs else filter keep xs

abbrev pub recent : ℕ → ℕ → Bool
recent now at = leb (now - at) (5000 * tick)

-- Every element is at least the bound, and at least what comes before it.
abbrev pub IsAscending : ℕ → List ℕ → Type 0
IsAscending low [] = Unit
IsAscending low (x ∷ xs) = (low ≤ x) × IsAscending x xs

recent-not : (now at : ℕ) → recent now at ≡ not (ltb (5000 * tick) (now - at))
recent-not now at = ground arith

recent_later : (now low at : ℕ) → low ≤ at → recent now low ≡ true → recent now at ≡ true
recent_later now low at h e = ground arith

filter_all :
    (now low : ℕ) (xs : List ℕ)
    → recent now low ≡ true
    → IsAscending low xs
    → filter (recent now) xs ≡ xs
unfolding filter
filter_all now low [] e h = refl
filter_all now low (x ∷ xs) e (le, h) =
    let f = recent_later now low x le e in
    subst (λ b. (if b then x ∷ filter (recent now) xs else filter (recent now) xs) ≡ x ∷ xs) (sym f)
      (ap (λ ys. x ∷ ys) (filter_all now x xs f h))

drop_old-filter :
    (now low : ℕ) (xs : List ℕ)
    → IsAscending low xs
    → drop_old (λ at. ltb (5000 * tick) (now - at)) xs ≡ filter (recent now) xs
unfolding filter
drop_old-filter now low [] h = refl
drop_old-filter now low (x ∷ xs) (le, h) =
    let old = ltb (5000 * tick) (now - x) in
    let rest = drop_old (λ at. ltb (5000 * tick) (now - at)) xs in
    subst
      (λ b.
        (if old then rest else x ∷ xs)
        ≡ (if b then x ∷ filter (recent now) xs else filter (recent now) xs))
      (sym (recent-not now x))
      (elim (Bool-cases old) [
        | inl e ↦
            subst
              (λ b.
                (if b then rest else x ∷ xs)
                ≡ (if not b then x ∷ filter (recent now) xs else filter (recent now) xs))
              (sym e) (drop_old-filter now x xs h)
        | inr e ↦
            subst
              (λ b.
                (if b then rest else x ∷ xs)
                ≡ (if not b then x ∷ filter (recent now) xs else filter (recent now) xs))
              (sym e)
              (ap (λ ys. x ∷ ys) (sym (filter_all now x xs (recent-not now x ∙ ap not e) h)))
      ])

-- Where the instants of the moves are ascending, popping from the front of the queue leaves just
-- those of the last five seconds.
pub move_started-filter :
    (d : Doubles) (o : Options d) (started : ℕ) (t : Tank d)
    → IsAscending 0 (t.move_starts ++ (started ∷ []))
    → (move_started d o started t).move_starts
      ≡ filter (recent started) (t.move_starts ++ (started ∷ []))
move_started-filter d o started t h = drop_old-filter started 0 (t.move_starts ++ (started ∷ [])) h
