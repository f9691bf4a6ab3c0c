-- ===== src/Tank/Http/Shown.antt =====
-- What a run of a request, or of a query, shows of the device.
use nav_bridge.Prelude.{
  ℕ, ◌≡◌, refl, sym, ◌∙◌, ap, Bool, true, false, not, ◌||◌, Option, none, some, ◌++◌, arith,
  if-elim, if◌then◌else◌,
}
use mathlib.Core.Path.{subst}
use nav_bridge.Prelude.Text.{same_text}
use nav_bridge.Backend.{Doubles, failed}
use nav_bridge.Tank.State.{Options, Tank}
use nav_bridge.Tank.Process.{Body, velocity, Request, Reply, Process, done, section, ask, ◌>>=◌}
use nav_bridge.Tank.Process.Trace.{
  Log, Has, Has-left, Has-right, Has-map, Trace, Trace-done, Trace-bind,
}
use nav_bridge.Tank.Http.{
  Jsoncpp, Answer, StateAnswer, BrakeAnswer, interpret, request, read_state, query_state,
  read_brake, query_brake, no_state,
}
use Prim.Native.String.{String}

pub accepted : (b : Bool) → not b ≡ false → b ≡ true
accepted b h = ground arith

pub refused : (b : Bool) → not b ≡ true → b ≡ true → ⊥
refused b h e = ground arith

module _ {d : Doubles} (js : Jsoncpp d) (o : Options d) where
  open js use {member, as_bool, as_string}

  -- The exchange is this request, and a reply that acknowledges it.
  abbrev pub IsAcknowledged : String → Option (Body d) → Request d × Reply → Type 0
  IsAcknowledged path body e =
      (e.0 ≡ record { path = path; body = body }) × ((interpret js path e.1).result.success ≡ true)

  -- The device says that it is in this state.
  abbrev pub ShowsState : String → Request d × Reply → Type 0
  ShowsState name e =
      IsAcknowledged "/robot/cmd/get_robot_state" none e
      × (as_string (
            member (member (interpret js "/robot/cmd/get_robot_state" e.1).response "data")
              "state_operation")
          ≡ name)

  -- The device says whether its brake is on.
  abbrev pub ShowsBrake : Bool → Request d × Reply → Type 0
  ShowsBrake on e =
      IsAcknowledged "/robot/cmd/get_move_brake" none e
      × (as_bool (
            member (member (interpret js "/robot/cmd/get_move_brake" e.1).response "data")
              "brake_state")
          ≡ on)

  -- The device acknowledges a zero velocity.
  abbrev pub Halts : Request d × Reply → Type 0
  Halts e = IsAcknowledged "/robot/cmd/move" (some (velocity d.nought d.nought)) e

  -- The exchange is this request, and the reply is read as this answer.
  abbrev pub Asked : String → Option (Body d) → Answer js → Request d × Reply → Type 0
  Asked path body a e = (e.0 ≡ record { path = path; body = body }) × (interpret js path e.1 ≡ a)

  guarded-Asked :
      (b : Bool) (refusal : Answer js) (path : String) (body : Option (Body d)) {log : Log d}
      {a : Answer js}
      → refusal.result.success ≡ false
      → Trace
          (if b
            then done refusal
            else ask
                (record { path = path; body = body })
                (λ reply. done (interpret js path reply)))
          log
          a
      → a.result.success ≡ true
      → Has (Asked path body a) log
  guarded-Asked true refusal path body unsuccessful Trace.ends e = absurd (cc (unsuccessful, e))
  guarded-Asked false refusal path body unsuccessful (Trace.asks reply Trace.ends) e =
      Has.first (refl, refl)

  pub request-Asked :
      (path : String) (body : Option (Body d)) {log : Log d} {a : Answer js}
      → Trace (request js o path body) log a
      → a.result.success ≡ true
      → Has (Asked path body a) log
  unfolding request
  request-Asked path body h e = guarded-Asked _ _ path body refl h e

  read_brake-ends :
      (before : Bool) (a : Answer js)
      → (read_brake js o before a).result.success ≡ true
      → (a.result.success ≡ true)
        × (as_bool (member (member a.response "data") "brake_state")
            ≡ (read_brake js o before a).device_brake)
  read_brake-ends before a =
      let content = member a.response "data" in
      let P = λ (b : BrakeAnswer js o).
        b.result.success ≡ true
        → (a.result.success ≡ true) × (as_bool (member content "brake_state") ≡ b.device_brake) in
      if-elim P (not a.result.success) _ _ (λ e f. absurd (refused a.result.success e f))
        λ e.
          let wrong =
            not (js.is_object content) || not (js.is_bool (member content "brake_state")) in
          if-elim P wrong _ _ (λ _ f. absurd (cc f)) (λ _ f. (accepted a.result.success e, refl))

  pub query_brake-Shows :
      (before : Bool) {log : Log d} {b : BrakeAnswer js o}
      → Trace (query_brake js o before) log b
      → b.result.success ≡ true
      → Has (ShowsBrake b.device_brake) log
  unfolding query_brake
  query_brake-Shows before {b = b} h e =
      let p =
        Trace-bind (request js o "/robot/cmd/get_move_brake" none)
          (λ a. done (read_brake js o before a)) h in
      let same = (Trace-done p.rest).1 in
      let (acknowledged, on) =
        read_brake-ends before p.value
          (ap (λ (r : BrakeAnswer js o). r.result.success) (sym same) ∙ e) in
      let asked = request-Asked "/robot/cmd/get_move_brake" none p.head acknowledged in
      subst (λ l. Has (ShowsBrake b.device_brake) l) (sym p.split)
        (Has-left p.back (
          Has-map
            (λ x y. (
              (y.0, ap (λ (r : Answer js). r.result.success) y.1 ∙ acknowledged),
              ap (λ (r : Answer js). as_bool (member (member r.response "data") "brake_state")) y.1
                  ∙ on
                  ∙ ap (λ (r : BrakeAnswer js o). r.device_brake) (sym same),
            ))
            asked))

  -- A part of a run that shows something.
  pub within :
      {P : Request d × Reply → Type 0} {log front : Log d} (back : Log d)
      → log ≡ front ++ back
      → Has P front
      → Has P log
  within {P = P} back e h = subst (λ l. Has P l) (sym e) (Has-left back h)

  pub beyond :
      {P : Request d × Reply → Type 0} {log : Log d} (front : Log d) {back : Log d}
      → log ≡ front ++ back
      → Has P back
      → Has P log
  beyond {P = P} front e h = subst (λ l. Has P l) (sym e) (Has-right front h)

  -- The ends of a test that two refusals guard.
  guarded-ends :
      {A : Type 0} (b c : Bool) (r q : A) (p : Process d A) {log : Log d} {a : A} (P : A → Type 0)
      → Trace (if b then done r else if c then done q else p) log a
      → (b ≡ true → P r → ⊥)
      → (P q → ⊥)
      → P a
      → (b ≡ false) × Trace p log a
  guarded-ends true c r q p P Trace.ends x y h = absurd (x refl h)
  guarded-ends false true r q p P Trace.ends x y h = absurd (y h)
  guarded-ends false false r q p P t x y h = (refl, t)

  set-ends :
      {f : ℕ → Tank d → Tank d} {s r : StateAnswer js o} {log : Log d}
      → Trace (section f (λ now t. done s)) log r
      → s ≡ r
  set-ends (Trace.keeps now t Trace.ends) = refl

  read_state-ends :
      (a : Answer js) {log : Log d} {s : StateAnswer js o}
      → Trace (read_state js o a) log s
      → s.result.success ≡ true
      → (a.result.success ≡ true)
        × (as_string (member (member a.response "data") "state_operation") ≡ s.device_state)
  unfolding read_state ◌>>=◌
  read_state-ends a h e =
      let content = member a.response "data" in
      let field = member content "state_operation" in
      let wrong =
        not (js.is_object content) || not (js.is_string field) || same_text (as_string field) "" in
      let (b, t) =
        guarded-ends (not a.result.success) wrong (no_state js o a.result a.transport_failure)
          (no_state js o (failed "Robot state_operation missing or invalid") false) _
          (λ r. r.result.success ≡ true) h (λ f x. refused a.result.success f x)
          (λ f. absurd (cc f)) e in
      (accepted a.result.success b, ap (λ (r : StateAnswer js o). r.device_state) (set-ends t))

  pub query_state-Shows :
      {log : Log d} {s : StateAnswer js o}
      → Trace (query_state js o) log s
      → s.result.success ≡ true
      → Has (ShowsState s.device_state) log
  unfolding query_state
  query_state-Shows {s = s} h e =
      let p = Trace-bind (request js o "/robot/cmd/get_robot_state" none) (read_state js o) h in
      let (acknowledged, name) = read_state-ends p.value p.rest e in
      let asked = request-Asked "/robot/cmd/get_robot_state" none p.head acknowledged in
      within p.back p.split (
        Has-map
          (λ x y. (
            (y.0, ap (λ (r : Answer js). r.result.success) y.1 ∙ acknowledged),
            ap (λ (r : Answer js). as_string (member (member r.response "data") "state_operation"))
                  y.1
                ∙ name,
          ))
          asked)
