-- ===== src/Tank/Actions/Confirmed.antt =====
-- What the device has confirmed where `ready` succeeds.
use nav_bridge.Prelude.{
  ℕ, ◌≡◌, ◌⊎◌, inl, inr, sym, ◌∙◌, ap, Bool, true, false, not, ◌&&◌, some, ◌==◌, arith, if-elim,
  if◌then◌else◌,
}
use mathlib.Core.Path.{subst}
use nav_bridge.Prelude.Text.{same_text}
use nav_bridge.Backend.{Doubles, BackendResult, failed}
use nav_bridge.Tank.State.{Options}
use nav_bridge.Tank.Process.{velocity, set_brake, Process, done, section}
use nav_bridge.Tank.Process.Trace.{Log, Has, Has-map, Trace, Trace-done, Trace-bind, Trace-if}
use nav_bridge.Tank.Http.{
  Jsoncpp, Answer, StateAnswer, BrakeAnswer, request, send_move, query_state, query_brake,
}
use nav_bridge.Tank.Actions.{
  state_after, is_idle, brake_after, release_brake, release_after, is_released, stand_still,
  conclude, prepare, ready, fail_link,
}
use Prim.Native.String.{String}
use nav_bridge.Tank.Http.Shown.{
  ShowsState, ShowsBrake, Halts, request-Asked, within, beyond, query_state-Shows,
  query_brake-Shows,
}

both_left : (b c : Bool) → b && c ≡ true → b ≡ true
both_left b c h = ground arith

not_both : (b c : Bool) → b && c ≡ false → c ≡ true → b ≡ true → ⊥
not_both b c h e f = ground arith

idle_left : (b c i : Bool) → c ≡ true → b && c && not i ≡ false → b ≡ true → i ≡ true
idle_left b c i e h f = ground arith

free : (b c : Bool) → b && true && c ≡ false → b ≡ true → c ≡ false
free b c h f = ground arith

module _ {d : Doubles} (js : Jsoncpp d) (o : Options d) where
  state_after-Shows :
      (r : BackendResult) {log : Log d} {s : StateAnswer js o}
      → Trace (state_after js o r) log s
      → s.result.success ≡ true
      → Has (ShowsState js o s.device_state) log
  unfolding state_after
  state_after-Shows r h e = elim (Trace-if r.success (query_state js o) (done _) h) [
    | inl (f, t) ↦ query_state-Shows js o t e
    | inr (f, t) ↦
        absurd (cc (f, sym (ap (λ (s : StateAnswer js o). s.result.success) (Trace-done t).1) ∙ e))
  ]

  brake_after-Shows :
      (r : BackendResult) {log : Log d} {b : BrakeAnswer js o}
      → Trace (brake_after js o r) log b
      → b.result.success ≡ true
      → (r.success ≡ true) × Has (ShowsBrake js o b.device_brake) log
  unfolding brake_after
  brake_after-Shows r h e = elim (Trace-if r.success (query_brake js o true) (done _) h) [
    | inl (f, t) ↦ (f, query_brake-Shows js o true t e)
    | inr (f, t) ↦
        absurd (cc (f, sym (ap (λ (s : BrakeAnswer js o). s.result.success) (Trace-done t).1) ∙ e))
  ]

  release_brake-Shows :
      (seen : BrakeAnswer js o) {log : Log d} {b : BrakeAnswer js o}
      → Trace (release_brake js o seen) log b
      → b.result.success ≡ true
      → Has (ShowsBrake js o b.device_brake) log
  unfolding release_brake
  release_brake-Shows seen {b = b} h e =
      let p = Trace-bind (request js o "/robot/cmd/move_brake" (some (set_brake false))) _ h in
      beyond js o p.front p.split
        (elim (Trace-if p.value.result.success (query_brake js o seen.device_brake) (done _)
          p.rest) [
            | inl (f, t) ↦ query_brake-Shows js o seen.device_brake t e
            | inr (f, t) ↦
                absurd (
                  cc
                    (f, sym (ap (λ (s : BrakeAnswer js o). s.result.success) (Trace-done t).1) ∙ e))
          ])

  abbrev test : ℕ → Process d Bool
  test ticket = section (λ now t. t) (λ now t. done (ticket == t.epoch))

  wanted_success :
      (ticket : ℕ) (success brake : Bool) {log : Log d} {wanted : Bool}
      → Trace (if success && true && brake then test ticket else done false) log wanted
      → wanted ≡ true
      → success ≡ true
  wanted_success ticket success brake h e =
      elim (Trace-if (success && true && brake) (test ticket) (done false) h) [
        | inl (f, t) ↦ both_left success true (both_left (success && true) brake f)
        | inr (f, t) ↦ absurd (cc ((Trace-done t).1, e))
      ]

  -- Either the brake was asked for again, or the answer is the one there was.
  release_after-Shows :
      (ticket : ℕ) (seen : BrakeAnswer js o) {log : Log d} {b : BrakeAnswer js o}
      → Trace (release_after js o true ticket seen) log b
      → b.result.success ≡ true
      → (seen.result.success ≡ true) × ((b ≡ seen) ⊎ Has (ShowsBrake js o b.device_brake) log)
  unfolding release_after
  release_after-Shows ticket seen h e =
      let guard = seen.result.success && true && seen.device_brake in
      let p =
        Trace-bind (if guard then test ticket else done false)
          (λ wanted. if wanted then release_brake js o seen else done seen) h in
      elim (Trace-if p.value (release_brake js o seen) (done seen) p.rest) [
        | inl (f, t) ↦ (
          wanted_success ticket seen.result.success seen.device_brake p.head f,
          inr (beyond js o p.front p.split (release_brake-Shows seen t e)),
        )
        | inr (f, t) ↦
            let same = (Trace-done t).1 in
            (ap (λ (s : BrakeAnswer js o). s.result.success) (sym same) ∙ e, inl same)
      ]

  stand_still-Halts :
      (r : BackendResult) {log : Log d} {moved : BackendResult}
      → Trace (stand_still js o r) log moved
      → o.enable_motion_output ≡ true
      → moved.success ≡ true
      → (r.success ≡ true) × Has (Halts js o) log
  unfolding stand_still send_move
  stand_still-Halts r h enabled e =
      elim (Trace-if (r.success && o.enable_motion_output) _ (done r) h) [
        | inl (f, t) ↦
            let p =
              Trace-bind (request js o "/robot/cmd/move" (some (velocity d.nought d.nought)))
                (λ a. done a.result) t in
            let acknowledged =
              ap (λ (s : BackendResult). s.success) (sym (Trace-done p.rest).1) ∙ e in
            (
              both_left r.success o.enable_motion_output f,
              within js o p.back p.split (
                  Has-map
                    (λ x y. (y.0, ap (λ (s : Answer js). s.result.success) y.1 ∙ acknowledged))
                    (request-Asked js o "/robot/cmd/move" (some (velocity d.nought d.nought)) p.head
                      acknowledged)),
            )
        | inr (f, t) ↦ absurd (
            not_both r.success o.enable_motion_output f enabled
              (ap (λ (s : BackendResult). s.success) (sym (Trace-done t).1) ∙ e))
      ]

  conclude-moved :
      (ticket : ℕ) (state : String) (brake : Bool) (moved : BackendResult) {log : Log d}
      {r : BackendResult}
      → Trace (conclude js o true ticket state brake moved) log r
      → r.success ≡ true
      → moved.success ≡ true
  unfolding conclude
  conclude-moved ticket state brake moved h e = elim (Trace-if moved.success _ _ h) [
    | inl (f, t) ↦ f
    | inr (f, t) ↦
        let p = Trace-bind (fail_link js o moved.message ticket) (λ _. done moved) t in
        ap (λ (s : BackendResult). s.success) (sym (Trace-done p.rest).1) ∙ e
  ]

  is_idle-ends :
      (seen : StateAnswer js o)
      → o.enable_motion_output ≡ true
      → (is_idle js o seen).success ≡ true
      → (seen.result.success ≡ true) × (same_text seen.device_state "Idle" ≡ true)
  is_idle-ends seen enabled =
      if-elim
        (λ (r : BackendResult).
          r.success ≡ true
          → (seen.result.success ≡ true) × (same_text seen.device_state "Idle" ≡ true))
        (seen.result.success && o.enable_motion_output && not (same_text seen.device_state "Idle"))
        _ _ (λ _ f. absurd (cc f))
        (λ g f. (
          f,
          idle_left seen.result.success o.enable_motion_output (same_text seen.device_state "Idle")
              enabled g f,
        ))

  is_released-ends :
      (seen : BrakeAnswer js o)
      → (is_released js o true seen).success ≡ true
      → (seen.result.success ≡ true) × (seen.device_brake ≡ false)
  is_released-ends seen =
      if-elim
        (λ (r : BackendResult).
          r.success ≡ true → (seen.result.success ≡ true) × (seen.device_brake ≡ false))
        (seen.result.success && true && seen.device_brake) _ _ (λ _ f. absurd (cc f))
        (λ g f. (f, free seen.result.success seen.device_brake g f))

  -- What a log shows.
  abbrev pub IsReady : Log d → Type 0
  IsReady log =
      Has (λ e. (name : String) × ShowsState js o name e × (same_text name "Idle" ≡ true)) log
      × Has (ShowsBrake js o false) log
      × Has (Halts js o) log

  prepare-IsReady :
      (ticket : ℕ) {log : Log d} {r : BackendResult}
      → Trace (prepare js o true ticket) log r
      → o.enable_motion_output ≡ true
      → r.success ≡ true
      → IsReady log
  unfolding prepare
  prepare-IsReady ticket {log = log} {r = r} h enabled e =
      let p = Trace-bind _ _ h in
      let s = Trace-bind (state_after js o p.value) _ p.rest in
      let b = Trace-bind (brake_after js o (is_idle js o s.value)) _ s.rest in
      let l = Trace-bind (release_after js o true ticket b.value) _ b.rest in
      let m = Trace-bind (stand_still js o (is_released js o true l.value)) _ l.rest in
      let moved =
        conclude-moved ticket s.value.device_state l.value.device_brake m.value m.rest e in
      let (let_go, halts) =
        stand_still-Halts (is_released js o true l.value) m.head enabled moved in
      let (released, off) = is_released-ends l.value let_go in
      let (seen, shown) = release_after-Shows ticket b.value l.head released in
      let (entered, on) = brake_after-Shows (is_idle js o s.value) b.head seen in
      let (known, named) = is_idle-ends s.value enabled entered in
      let brake : Has (ShowsBrake js o l.value.device_brake) s.back = elim shown [
        | inl same ↦ within js o b.back b.split (
            subst (λ (v : BrakeAnswer js o). Has (ShowsBrake js o v.device_brake) b.front)
              (sym same) on)
        | inr again ↦ beyond js o b.front b.split (within js o l.back l.split again)
      ] in
      (
        beyond js o p.front p.split (
            within js o s.back s.split (
              Has-map (λ x y. (s.value.device_state, y, named))
                (state_after-Shows p.value s.head known))),
        beyond js o p.front p.split
            (beyond js o s.front s.split (subst (λ v. Has (ShowsBrake js o v) s.back) off brake)),
        beyond js o p.front p.split (
            beyond js o s.front s.split (
              beyond js o b.front b.split
                (beyond js o l.front l.split (within js o m.back m.split halts)))),
      )

  -- With motion output enabled, in every run of ready that ends with success, whatever the other
  -- threads do meanwhile: among its exchanges with the device there is a state query answered with
  -- Idle, a brake query answered with the brake off, and a zero velocity that was acknowledged.
  pub ready-IsReady :
      (ticket : ℕ) (log : Log d) (r : BackendResult)
      → Trace (ready js o ticket) log r
      → o.enable_motion_output ≡ true
      → r.success ≡ true
      → IsReady log
  unfolding ready
  ready-IsReady ticket log r h enabled e =
      let p =
        Trace-bind _
          (λ current.
            if current
            then prepare js o true ticket
            else done (failed "Ready superseded or backend stopped"))
          h in
      elim (Trace-if p.value (prepare js o true ticket) (done _) p.rest) [
        | inl (f, t) ↦
            let (a, b, c) = prepare-IsReady ticket t enabled e in
            (
              beyond js o p.front p.split a,
              beyond js o p.front p.split b,
              beyond js o p.front p.split c,
            )
        | inr (f, t) ↦ absurd (cc (ap (λ (s : BackendResult). s.success) (Trace-done t).1, e))
      ]
