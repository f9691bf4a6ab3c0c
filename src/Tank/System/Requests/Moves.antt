-- ===== src/Tank/System/Requests/Moves.antt =====
-- The velocities that a round of the control loop sends.
use nav_bridge.Prelude.{
  ℕ, ◌≡◌, refl, true, not, ◌&&◌, ◌||◌, ◌⊎◌, inl, inr, Option, some, if-elim, Bool-cases,
}
use Prim.Native.String.{String}
use nav_bridge.Backend.{Doubles}
use nav_bridge.Tank.State.{Options, Tank, is_fresh, ControlView, control_view}
use nav_bridge.Tank.Process.{velocity, Request, ◌>>=◌}
use nav_bridge.Tank.Http.{Jsoncpp, request, send_move}
use nav_bridge.Tank.Actions.{fail_link}
use nav_bridge.Tank.Workers.{drive, controlled}
use nav_bridge.Tank.System.Requests.{Only, Only-if, Only-bind}

module _ {d : Doubles} (js : Jsoncpp d) (o : Options d) where
  open d use {nought}

  -- A round that sees this state may send a zero velocity, or the one that is cached while control is
  -- owned and the command is fresh.
  abbrev pub IsSafe : ℕ → Tank d → Request d → Type 0
  IsSafe now t r =
      (r.body ≡ some (velocity nought nought))
      ⊎ ((r.body ≡ some (velocity t.vx t.wz))
          × (t.running
                && o.enable_motion_output
                && t.cached.connected
                && t.cached.control_owned
                && not t.local_estop
                && not t.brake
              ≡ true)
          × (is_fresh d o now t.command_time ≡ true))

  Safe-request :
      {P : Request d → Type 0} (x y : d.Value)
      → P (record { path = "/robot/cmd/move"; body = some (velocity x y) })
      → Only P (send_move js o x y)
  unfolding send_move request
  Safe-request x y h = Only-if _ Only.ends (Only.asks h (λ reply. Only.ends))

  Safe-fail_link :
      {P : Request d → Type 0} (message : String) (ticket : ℕ)
      → Only P (fail_link js o message ticket)
  unfolding fail_link ◌>>=◌
  Safe-fail_link message ticket =
      Only.keeps (λ now t. Only-if _ (Only.keeps (λ now t. Only.ends)) Only.ends)

  Safe-drive :
      {P : Request d → Type 0} (previous : Option ℕ) (view : ControlView d o)
      → P (record { path = "/robot/cmd/move"; body = some (velocity view.linear view.angular) })
      → Only P (drive js o previous view)
  unfolding drive ◌>>=◌
  Safe-drive previous view h = Only.keeps λ started t.
      Only-bind (Safe-request view.linear view.angular h) λ a. Only.keeps λ now t.
        Only-if _ Only.ends (Only-if _ (Safe-fail_link _ _) (Only.keeps (λ now t. Only.ends)))

  Safe-view :
      (now : ℕ) (t : Tank d)
      → (control_view d o now t).active ≡ true
      → (let view = control_view d o now t in
          IsSafe now t
            (record { path = "/robot/cmd/move"; body = some (velocity view.linear view.angular) }))
  Safe-view now t e = elim (Bool-cases (is_fresh d o now t.command_time)) [
    | inl f ↦ inr (cc f, e, f)
    | inr f ↦ inl (cc f)
  ]

  -- What a round of the control loop asks for, given what it has read of the state at an instant:
  -- a zero velocity, or the cached one, and this only while the backend runs, owns control over a
  -- link with motion enabled and neither brake nor emergency stop, and the command is not older
  -- than its timeout.
  pub controlled-IsSafe :
      (previous : Option ℕ) (now : ℕ) (t : Tank d)
      → Only (IsSafe now t) (controlled js o previous (control_view d o now t))
  unfolding controlled
  controlled-IsSafe previous now t =
      let view = control_view d o now t in
      if-elim (Only (IsSafe now t)) (view.stale || view.ack_expired) _ _
        (λ _. Only-bind (Safe-request nought nought (inl refl)) (λ a. Safe-fail_link _ _))
        (λ _.
          if-elim (Only (IsSafe now t)) view.active _ _
            (λ e. Safe-drive previous view (Safe-view now t e)) (λ _. Only.ends))
