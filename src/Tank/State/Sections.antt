-- ===== src/Tank/State/Sections.antt =====
-- src/tank/tank_backend.cpp: the sections that hold the mutex of the state, in whatever order the
-- threads take them.
use nav_bridge.Prelude.{
  ℕ, ◌≤◌, ◌≡◌, refl, Bool, true, false, not, ◌&&◌, ◌||◌, Option, arith, ◌==◌, if-elim,
}
use nav_bridge.Backend.{Doubles, BackendResult}
use nav_bridge.Tank.State.{
  Options, Tank, inhibit, link_failed, prepared, move, report_error, ControlView, move_started,
  move_answered, poll_failed, polled, battery_polled, raw_velocity_polled,
}
use Prim.Native.String.{String}

module _ (d : Doubles) (o : Options d) where
  -- A section, and whether it is that of a /cmd_vel. The first is the exchange of `running` in
  -- connect and disconnect, the second the end of disconnect, the third is what a
  -- query reads of the state, and the fourth follows the answer of an emergency brake.
  pub data Section : Bool → Tank d → Tank d → Type 0 where
    runs : (t : Tank d) (running : Bool) → Section false t (record t { running = running })
    forgets :
        (t : Tank d)
        → Section false t (record t {
          cached = record t.cached { connected = false; battery_percent = d.minus_one };
        })
    reads_state :
        (t : Tank d) (known initialized : Bool)
        → Section false t (record t { initialized_known = known; initialized = initialized })
    brakes : (t : Tank d) → Section false t (record t { brake = true; brake_known = true })
    inhibits : (t : Tank d) (emergency : Bool) → Section false t (inhibit d o emergency t)
    fails : (t : Tank d) (ticket : ℕ) → Section false t (link_failed d o ticket t)
    prepares :
        (t : Tank d) (explicit_ready : Bool) (ticket : ℕ) (device_state : String)
        (device_brake : Bool) (now : ℕ)
        → Section false t (prepared d o explicit_ready ticket device_state device_brake now t).1
    reports : (t : Tank d) (message : String) → Section false t (report_error d o message t)
    starts_move : (t : Tank d) (started : ℕ) → Section false t (move_started d o started t)
    answers_move :
        (t : Tank d) (view : ControlView d o) (started : ℕ) (previous : Option ℕ)
        (answer : BackendResult) (transport_failure : Bool) (now : ℕ)
        → Section false t (move_answered d o view started previous answer transport_failure now t).1
    fails_poll :
        (t : Tank d) (message : String) (transport_failure : Bool) (now : ℕ)
        → Section false t (poll_failed d o message transport_failure now t).1
    polls :
        (t : Tank d) (ticket : ℕ) (device_state : String) (is_idle device_brake : Bool) (now : ℕ)
        → Section false t (polled d o ticket device_state is_idle device_brake now t)
    polls_battery :
        (t : Tank d) (ticket : ℕ) (percentage : d.Value) (error : String)
        → Section false t (battery_polled d o ticket percentage error t)
    polls_raw_velocity :
        (t : Tank d) (answer : BackendResult) (now : ℕ)
        → Section false t (raw_velocity_polled d o answer now t)
    moves : (t : Tank d) (x y yaw : d.Value) (now : ℕ) → Section true t (move d o x y yaw now t).1

  -- Any number of sections; those of /cmd_vel only where the flag is set.
  pub data Sections (with_moves : Bool) (t : Tank d) : Tank d → Type 0 where
    none_yet : Sections with_moves t t
    then_any :
        {u v : Tank d} → Sections with_moves t u → Section false u v → Sections with_moves t v
    then_move :
        {u v : Tank d}
        → with_moves ≡ true
        → Sections with_moves t u
        → Section true u v
        → Sections with_moves t v

  -- What each section keeps, so does any number of them.
  pub Sections-Kept :
      {with_moves : Bool} (P : Tank d → Type 0)
      → ((u v : Tank d) → Section false u v → P u → P v)
      → ((u v : Tank d) → with_moves ≡ true → Section true u v → P u → P v)
      → {t u : Tank d} → Sections with_moves t u
      → P t
      → P u
  Sections-Kept P f g none_yet h = h
  Sections-Kept P f g (then_any r s) h = f _ _ s (Sections-Kept P f g r h)
  Sections-Kept P f g (then_move e r s) h = g _ _ e s (Sections-Kept P f g r h)

  -- The cached velocities are zero.
  abbrev pub Zero : Tank d → Type 0
  Zero t = (t.vx ≡ d.nought) × (t.wz ≡ d.nought)

  Zero-prepared :
      (t : Tank d) (explicit_ready : Bool) (ticket : ℕ) (state : String) (brake : Bool) (now : ℕ)
      → Zero t
      → Zero (prepared d o explicit_ready ticket state brake now t).1
  Zero-prepared t explicit_ready ticket state brake now z =
      if-elim (λ (r : Bool × Tank d). Zero r.1) (not t.running || not (ticket == t.epoch)) _ _
        (λ _. z) (λ _. (refl, refl))

  Zero-answered :
      (t : Tank d) (view : ControlView d o) (started : ℕ) (previous : Option ℕ)
      (answer : BackendResult) (transport_failure : Bool) (now : ℕ)
      → Zero t
      → Zero (move_answered d o view started previous answer transport_failure now t).1
  Zero-answered t view started previous answer b now z =
      let P = λ (r : Bool × Tank d). Zero r.1 in
      if-elim P (not (view.ticket == t.epoch && t.cached.control_owned)) _ _ (λ _. z)
        λ _. if-elim P answer.success _ _ (λ _. z) (λ _. (refl, refl))

  Zero-polled :
      (t : Tank d) (ticket : ℕ) (state : String) (idle brake : Bool) (now : ℕ)
      → Zero t
      → Zero (polled d o ticket state idle brake now t)
  Zero-polled t ticket state idle brake now z =
      if-elim Zero (not (ticket == t.epoch)) _ _ (λ _. z)
        λ _. if-elim Zero (brake || not idle) _ _ (λ _. (refl, refl)) (λ _. z)

  pub Section-Zero : (t u : Tank d) → Section false t u → Zero t → Zero u
  Section-Zero _ _ (runs t running) z = z
  Section-Zero _ _ (forgets t) z = z
  Section-Zero _ _ (reads_state t known initialized) z = z
  Section-Zero _ _ (brakes t) z = z
  Section-Zero _ _ (inhibits t emergency) z = (refl, refl)
  Section-Zero _ _ (fails t ticket) z =
      if-elim Zero (not (ticket == t.epoch)) _ _ (λ _. z) (λ _. (refl, refl))
  Section-Zero _ _ (prepares t e ticket state brake now) z =
      Zero-prepared t e ticket state brake now z
  Section-Zero _ _ (reports t message) z = z
  Section-Zero _ _ (starts_move t started) z = z
  Section-Zero _ _ (answers_move t view started previous answer b now) z =
      Zero-answered t view started previous answer b now z
  Section-Zero _ _ (fails_poll t message b now) z = z
  Section-Zero _ _ (polls t ticket state idle brake now) z =
      Zero-polled t ticket state idle brake now z
  Section-Zero _ _ (polls_battery t ticket v error) z =
      if-elim Zero (ticket == t.epoch && t.cached.connected) _ _ (λ _. z) (λ _. z)
  Section-Zero _ _ (polls_raw_velocity t answer now) z = z

  -- The epoch has come to this number.
  abbrev pub Since : ℕ → Tank d → Type 0
  Since n t = n ≤ t.epoch

  pub Section-Since : {b : Bool} (n : ℕ) (t u : Tank d) → Section b t u → Since n t → Since n u
  Section-Since n _ _ (runs t running) h = h
  Section-Since n _ _ (forgets t) h = h
  Section-Since n _ _ (reads_state t known initialized) h = h
  Section-Since n _ _ (brakes t) h = h
  Section-Since n _ _ (inhibits t emergency) h = omega arith
  Section-Since n _ _ (fails t ticket) h =
      if-elim (Since n) (not (ticket == t.epoch)) _ _ (λ _. h) (λ _. omega arith)
  Section-Since n _ _ (prepares t e ticket state brake now) h =
      if-elim (λ (r : Bool × Tank d). Since n r.1) (not t.running || not (ticket == t.epoch)) _ _
        (λ _. h) (λ _. h)
  Section-Since n _ _ (reports t message) h = h
  Section-Since n _ _ (starts_move t started) h = h
  Section-Since n _ _ (answers_move t view started previous answer b now) h =
      let P = λ (r : Bool × Tank d). Since n r.1 in
      if-elim P (not (view.ticket == t.epoch && t.cached.control_owned)) _ _ (λ _. h)
        λ _. if-elim P answer.success _ _ (λ _. h) (λ _. h)
  Section-Since n _ _ (fails_poll t message b now) h = h
  Section-Since n _ _ (polls t ticket state idle brake now) h =
      if-elim (Since n) (not (ticket == t.epoch)) _ _ (λ _. h)
        λ _. if-elim (Since n) (brake || not idle) _ _ (λ _. h) (λ _. h)
  Section-Since n _ _ (polls_battery t ticket v error) h =
      if-elim (Since n) (ticket == t.epoch && t.cached.connected) _ _ (λ _. h) (λ _. h)
  Section-Since n _ _ (polls_raw_velocity t answer now) h = h
  Section-Since n _ _ (moves t x y yaw now) h =
      let P = λ (r : BackendResult × Tank d). Since n r.1 in
      if-elim P (not (d.is_finite x) || not (d.is_finite y) || not (d.is_finite yaw)) _ _ (λ _. h)
        λ _.
          if-elim P
            (not t.running
              || not t.cached.connected
              || not t.cached.control_owned
              || t.local_estop
              || t.brake)
            _ _ (λ _. h) (λ _. h)
