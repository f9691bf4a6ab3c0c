-- ===== src/X30/Gait/Reaches.antt =====
-- src/x30/x30_nav_bridge.cpp: runs of `setNavigationGait`.
use nav_bridge.Prelude.{
  ℕ, ◌≡◌, refl, Bool, true, false, not, ◌&&◌, some, List, [], ◌∷◌, arith, ◌==◌,
}
use nav_bridge.Prelude.Exec.{
  Runs, lift, Runs-pure, Runs-leave, Runs-if, Runs-bind, Runs-pre, Runs-post, Keeps-bind,
  Runs-require, call,
}
use nav_bridge.X30.Protocol.{
  cmd_heartbeat, cmd_query_103, cmd_motion, GaitState, gait_of, stepping, rl_mode,
}
use nav_bridge.X30.Store.{Store, is_basic}
use nav_bridge.X30.Platform.{Platform, IsPlatform, Reading, World, ActionResult, wait_for_state}
use nav_bridge.X30.Control.{is_rl_gait}
use nav_bridge.X30.Executor.Rules.{IsLater, IsLater-refl, Includes, Saw, Saw-map, IsCallbacks}
use nav_bridge.X30.Executor.Steps.{
  IsFrame, Answered, Answered-frame, look-Saw, gait_wait-Answered, state_wait-Answered,
  basic_wait-time, state_wait-time, takeover-Keeps, sender-Keeps,
}
use nav_bridge.X30.Executor.Actions.{
  Ended, Finishes, Holds-Finishes, Finishes-Goal, Later-frame, refuse-Keeps,
}
use nav_bridge.X30.Executor.{Callbacks}
use nav_bridge.X30.Gait.Loop.{start_motion_until-Answered, Since-frame}
use nav_bridge.X30.Gait.{
  gait_switch, expected_basic_state, target_stepping, await_stepping, start_motion_until,
  from_force_stand, await_rl, await_non_rl, switch_gait, guarded_switch, begin_gait,
  set_navigation_gait,
}
use Prim.Native.String.{String}

abbrev pub gait_codes : ℕ → List ℕ
gait_codes command = cmd_heartbeat ∷ cmd_query_103 ∷ cmd_motion ∷ command ∷ []

base_codes : (command : ℕ) → Includes (cmd_heartbeat ∷ cmd_query_103 ∷ []) (gait_codes command)
base_codes command code e = ground arith

motion_code : (command : ℕ) → Includes (cmd_motion ∷ []) (gait_codes command)
motion_code command code e = ground arith

own_code : (command : ℕ) → Includes (command ∷ []) (gait_codes command)
own_code command code e = ground arith

is_gait : ℕ → Reading → Bool
is_gait gait r = r.gait_state == gait

-- Between `w` and `w'` the gait was seen, and the basic state that belongs to it.
abbrev pub Switched : Platform → ℕ → World → World → Type 0
Switched p gait w w' =
    Saw p (λ r. r.gait_state == gait) w.now w'
    × Saw p (λ r. expected_basic_state gait r.basic_state) w.now w'

module _ (p : Platform) (c : Callbacks) (ip : IsPlatform p) (ic : IsCallbacks c) (command gait : ℕ)
    (w₀ : World) where
  abbrev Later : World → Type 0
  Later = IsLater (gait_codes command) w₀

  abbrev Out : ActionResult → World → Type 0
  Out = Ended (gait_codes command) w₀ (Switched p gait w₀)

  frame : IsFrame (gait_codes command) w₀.now Later
  frame = Later-frame (gait_codes command) w₀

  -- Of a wait for stepping, and of one for stepping in the gait.
  abbrev is_stepping : Reading → Bool
  is_stepping r = is_basic stepping r.basic_state

  stepping_loop :
      Runs ⊥ Out Later
        (start_motion_until p c (λ basic g. is_basic stepping basic) (await_stepping p c))
        (Answered p w₀.now Later is_stepping)
  unfolding await_stepping
  stepping_loop =
      start_motion_until-Answered p c ip ic ⊥ Out (gait_codes command) w₀.now (motion_code command)
        (λ basic g. is_basic stepping basic) _ Later frame
        λ deadline start fuel d.
          Runs-post (λ b w h. ((h.0.0, λ e. Saw-map (λ r x. ground arith) (h.0.1 e)), h.1))
            (basic_wait-time p c ip ⊥ Out (gait_codes command) w₀.now _
              (Since-frame p c ip ic ⊥ Out (gait_codes command) w₀.now (motion_code command)
                (λ basic g. is_basic stepping basic) (await_stepping p c) Later frame deadline start
                fuel)
              (stepping ∷ []) d start)

  target_loop :
      Runs ⊥ Out Later
        (start_motion_until p c
          (target_stepping p c gait)
          (λ d. lift (wait_for_state p (target_stepping p c gait) d)))
        (Answered p w₀.now Later (λ r. target_stepping p c gait r.basic_state r.gait_state))
  target_loop =
      start_motion_until-Answered p c ip ic ⊥ Out (gait_codes command) w₀.now (motion_code command)
        (target_stepping p c gait) _ Later frame
        λ deadline start fuel d.
          state_wait-time p c ip ⊥ Out (gait_codes command) w₀.now _
            (Since-frame p c ip ic ⊥ Out (gait_codes command) w₀.now (motion_code command)
              (target_stepping p c gait) (λ d. lift (wait_for_state p (target_stepping p c gait) d))
              Later frame deadline start fuel)
            (target_stepping p c gait) d start

  from_force_stand-Later :
      (name : String) → Runs ⊥ Out Later (from_force_stand p c gait name) (λ _. Later)
  unfolding from_force_stand
  from_force_stand-Later name =
      Runs-bind (Answered p w₀.now Later is_stepping) _ _ stepping_loop λ entered.
        Runs-bind (λ _. Answered p w₀.now Later is_stepping true) _ _
          (Runs-require entered _ (λ w e h. (h.0, λ _. h.1 e)) (λ w e h. (h.0, λ e'. cc)))
          λ _.
            Runs-bind
              (λ snap.
                Answered p w₀.now (Answered p w₀.now Later is_stepping true)
                  (λ r. r.gait_state == gait) (snap.gait_state == gait))
              _ _
              (look-Saw p c ip ⊥ Out _ _ _ (Answered-frame p is_stepping true frame) (λ r. r.store)
                (λ s. s.gait_state == gait))
              λ snap.
                Runs-if (not (is_rl_gait gait) && snap.gait_state == gait) _ _
                  (λ e. Runs-leave _ λ w h.
                    (h.0.0, λ _. (h.1 (ground arith), Saw-map (λ r x. ground arith) (h.0.1 refl))))
                  (λ e. Runs-pure tt λ w h. h.0.0)

  abbrev Done : World → Type 0
  Done w = Later w × Switched p gait w₀ w

  await_rl-Done :
      (name : String)
      → is_rl_gait gait ≡ true
      → Runs ⊥ Out Later (await_rl p c gait name) (λ _. Done)
  unfolding await_rl
  await_rl-Done name rl =
      Runs-bind
        (Answered p w₀.now Later (λ r. is_basic rl_mode r.basic_state && r.gait_state == gait)) _ _
        (state_wait-Answered p c ip ⊥ Out _ _ _ frame
          (λ basic g. is_basic rl_mode basic && g == gait) _)
        λ reached.
          Runs-require reached _
            (λ w e h.
              (h.0, (Saw-map (λ r x. ground arith) (h.1 e), Saw-map (λ r x. ground arith) (h.1 e))))
            (λ w e h. (h.0, λ e'. cc))

  await_non_rl-Done :
      (g : GaitState) (name : String)
      → is_rl_gait gait ≡ false
      → Runs ⊥ Out Later (await_non_rl p c gait g name) (λ _. Done)
  unfolding await_non_rl
  await_non_rl-Done g name mpc =
      Runs-bind (λ _. Later) _ _
        (Runs-post (λ b w h. h.0) (gait_wait-Answered p c ip ⊥ Out _ _ _ frame (g ∷ []) _))
        λ seen.
          Runs-bind (λ _. Later) _ _ (Runs-require seen _ (λ w e h. h) (λ w e h. (h, λ e'. cc)))
            λ _.
              Runs-bind
                (Answered p w₀.now Later (λ r. target_stepping p c gait r.basic_state r.gait_state))
                _ _ target_loop
                λ entered.
                  Runs-require entered _
                    (λ w e h. (
                      h.0,
                      (
                        Saw-map (λ r x. ground arith) (h.1 e),
                        Saw-map (λ r x. ground arith) (h.1 e),
                      ),
                    ))
                    (λ w e h. (h.0, λ e'. cc))

  switch_gait-Done :
      (g : GaitState) (starts : Bool)
      → (gait_switch g).0 ≡ command
      → Runs ⊥ Out Later (switch_gait p c gait g starts) Out
  unfolding switch_gait
  switch_gait-Done g starts own =
      Keeps-bind _ _ (takeover-Keeps p c ip ⊥ Out _ _ Later frame ic (base_codes command) _ _) λ _.
        Keeps-bind _ _
          (Runs-if starts _ _ (λ _. from_force_stand-Later _) (λ _. Runs-pure tt λ w h. h))
          λ _.
            Keeps-bind _ _
              (sender-Keeps p c ip ⊥ Out _ _ Later frame ic (gait_switch g).0
                (rw own (own_code command)))
              λ _.
                Runs-bind (λ _. Done) _ _
                  (Runs-if (is_rl_gait gait) _ _ (await_rl-Done _) (await_non_rl-Done g _))
                  λ _. Runs-pure _ λ w h. (h.0, λ _. h.1)

  -- A refusal of the guards; the gait as it is; the switch.
  guarded_switch-Done :
      (g : GaitState) (snapshot : Store)
      → (gait_switch g).0 ≡ command
      → Runs ⊥ Out
          (Answered p w₀.now Later
            (λ r. r.gait_state == gait && expected_basic_state gait r.basic_state)
            (snapshot.gait_state == gait && expected_basic_state gait snapshot.basic_state))
          (guarded_switch p c gait g snapshot)
          Out
  unfolding guarded_switch
  guarded_switch-Done g snapshot own =
      Keeps-bind _ _ (refuse-Keeps _ λ message w h. (h.0, λ e. cc)) λ _.
        Runs-if (snapshot.gait_state == gait && expected_basic_state gait snapshot.basic_state) _ _
          (λ e. Runs-leave _ λ w h. (
            h.0,
            λ _. (Saw-map (λ r x. ground arith) (h.1 e), Saw-map (λ r x. ground arith) (h.1 e)),
          ))
          (λ _. Runs-pre (λ w h. h.0) (switch_gait-Done g _ own))

gait-Finishes :
    (p : Platform) (c : Callbacks)
    → IsPlatform p
    → IsCallbacks c
    → (gait : ℕ) {g : GaitState} → gait_of gait ≡ some g
    → (w : World)
    → Finishes (gait_codes (gait_switch g).0) (Switched p gait w) (set_navigation_gait p c gait) w
unfolding set_navigation_gait begin_gait
gait-Finishes p c ip ic gait {g} e w = Holds-Finishes (set_navigation_gait p c gait) (
    rw e (
      (Runs-bind
          (λ snapshot.
            Answered p w.now (IsLater (gait_codes (gait_switch g).0) w)
              (λ r. r.gait_state == gait && expected_basic_state gait r.basic_state)
              (snapshot.gait_state == gait && expected_basic_state gait snapshot.basic_state))
          _ _
          (look-Saw p c ip ⊥ _ _ _ _ (Later-frame (gait_codes (gait_switch g).0) w) (λ r. r.store)
            (λ s. s.gait_state == gait && expected_basic_state gait s.basic_state))
          λ snapshot. guarded_switch-Done p c ip ic (gait_switch g).0 gait w g snapshot refl).at
        w (IsLater-refl _ w)))

-- With a platform whose clock moves on with every statement and whose waits and sleeps take their
-- time, and with callbacks that keep what the executor relies on: setNavigationGait for a gait
-- that the switch knows returns, whatever the robot does, and it has sent no packet but
-- heartbeats, queries, the motion command and the command of the gait, and left the suppression of
-- /cmd_vel as it was.
pub set_navigation_gait_returns :
    (p : Platform) (c : Callbacks)
    → IsPlatform p
    → IsCallbacks c
    → (gait : ℕ) {g : GaitState} → gait_of gait ≡ some g
    → (w : World)
    → (r : ActionResult) × (w' : World) × (call (set_navigation_gait p c gait) w ≡ (some r, w'))
      × IsLater (gait_codes (gait_switch g).0) w w'
set_navigation_gait_returns p c ip ic gait e w =
    let done = gait-Finishes p c ip ic gait e w in
    (done.answer, done.after, done.returns, done.later)

-- With a platform whose clock moves on with every statement and whose waits and sleeps take their
-- time, and with callbacks that keep what the executor relies on: where setNavigationGait returns
-- with success for a gait that the switch knows, the store has held that gait, and the basic state
-- that belongs to it (RL mode for an RL gait, stepping for another), at instants between the call
-- and the return.
pub set_navigation_gait-Switched :
    (p : Platform) (c : Callbacks)
    → IsPlatform p
    → IsCallbacks c
    → (gait : ℕ) {g : GaitState} → gait_of gait ≡ some g
    → (w w' : World) (r : ActionResult) → call (set_navigation_gait p c gait) w ≡ (some r, w')
    → r.success ≡ true
    → Switched p gait w w'
set_navigation_gait-Switched p c ip ic gait e w w' r returns s =
    Finishes-Goal (gait-Finishes p c ip ic gait e w) returns s
