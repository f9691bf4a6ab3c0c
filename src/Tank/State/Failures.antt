-- ===== src/Tank/State/Failures.antt =====
-- src/tank/tank_backend.cpp: old tickets, and repeated failures.
use nav_bridge.Prelude.{
  ℕ, suc, ◌+◌, ◌-◌, ◌*◌, ◌≤◌, ◌<◌, ◌≡◌, ap, ◌&&◌, Bool, true, false, not, ◌||◌, List, [], ◌∷◌,
  arith, leb, ◌==◌, length,
}
use nav_bridge.Backend.{Doubles}
use nav_bridge.Tank.State.{
  Options, Tank, tick, inhibit, link_failed, prepared, poll_failed, polled, battery_polled,
}
use nav_bridge.Tank.State.Sections.{Sections, Sections-Kept, Since, Section-Since}
use Prim.Native.String.{String}

old_ticket : (ticket epoch : ℕ) → ticket < epoch → (ticket == epoch) ≡ false
old_ticket ticket epoch h = ground arith

limit_reached : (limit n : ℕ) (a b : Bool) → limit ≤ suc n → a || leb limit (suc n) || b ≡ true
limit_reached limit n a b h = ground arith

refused_ticket :
    (ticket epoch : ℕ) (running : Bool)
    → ticket < epoch
    → not running || not (ticket == epoch) ≡ true
refused_ticket ticket epoch running h = ground arith

module _ (d : Doubles) (o : Options d) where
  Sections-Since : {t u : Tank d} (n : ℕ) → Sections d o true t u → Since d o n t → Since d o n u
  Sections-Since n run h =
      Sections-Kept d o (Since d o n) (Section-Since d o n) (λ a b _. Section-Since d o n a b) run h

  -- A ticket and the epoch after an inhibit that came later.
  outlived :
      (s t u : Tank d) (emergency : Bool)
      → Sections d o true s t
      → Sections d o true (inhibit d o emergency t) u
      → s.epoch < u.epoch
  outlived s t u emergency before after =
      let drawn : s.epoch ≤ t.epoch = Sections-Since s.epoch before (omega arith) in
      let raised : suc s.epoch ≤ suc t.epoch = omega arith in
      Sections-Since (suc s.epoch) after raised

  -- For a ticket that was drawn before an inhibit, whatever sections the threads took between the
  -- two and have taken since: linkFailed, the end of prepare, the recording of a poll and that of
  -- the battery leave the state as it is, and prepare reports that it was superseded.
  pub superseded-unchanged :
      (s t u : Tank d) (emergency : Bool)
      → Sections d o true s t
      → Sections d o true (inhibit d o emergency t) u
      → (explicit_ready idle brake : Bool) (state error : String) (v : d.Value) (now : ℕ)
      → (link_failed d o s.epoch u ≡ u)
        × (prepared d o explicit_ready s.epoch state brake now u ≡ (false, u))
        × (polled d o s.epoch state idle brake now u ≡ u)
        × (battery_polled d o s.epoch v error u ≡ u)
  superseded-unchanged s t u emergency before after explicit_ready idle brake state error v now =
      let h = outlived s t u emergency before after in
      let e = old_ticket s.epoch u.epoch h in
      let stale = refused_ticket s.epoch u.epoch u.running h in
      (rw e, rw stale, rw e, rw (ap (λ b. b && u.cached.connected) e))

  -- The polls that fail one after the other.
  pub polls_failed : String → Bool → List ℕ → Tank d → Tank d
  polls_failed message transport_failure [] t = t
  polls_failed message transport_failure (now ∷ later) t =
      polls_failed message transport_failure later
        (poll_failed d o message transport_failure now t).1

  counted :
      (message : String) (transport_failure : Bool) (times : List ℕ) (t : Tank d)
      → (polls_failed message transport_failure times t).consecutive_state_failures
        ≡ length times + t.consecutive_state_failures
  unfolding polls_failed
  counted message b [] t = omega arith
  counted message b (now ∷ later) t =
      let h = counted message b later (poll_failed d o message b now t).1 in omega arith

  -- After failed polls in a row that with this one come to state_failure_limit, a poll that fails
  -- gives up the link, whether or not the transport failed, and whatever the clock says.
  pub polls_failed-limit :
      (message : String) (transport_failure : Bool) (times : List ℕ) (now : ℕ) (t : Tank d)
      → o.state_failure_limit ≤ suc (length times)
      → (poll_failed d o message transport_failure now
          (polls_failed message transport_failure times t)).0
        ≡ true
  polls_failed-limit message b times now t h =
      let u = polls_failed message b times t in
      let n = counted message b times t in
      let k =
        limit_reached o.state_failure_limit u.consecutive_state_failures (not b)
          (leb (o.telemetry_timeout_ms * tick) (now - u.telemetry_time)) (omega arith) in
      k
