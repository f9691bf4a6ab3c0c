-- ===== src/X30/Height/Reaches.antt =====
-- src/x30/x30_nav_bridge.cpp: runs of `setBodyHeight`.
use nav_bridge.Prelude.{ℕ, ◌≡◌, true, some, List, [], ◌∷◌, arith, ◌==◌}
use nav_bridge.Prelude.Int.{ℤ}
use nav_bridge.Prelude.Exec.{
  Runs, lift, Runs-pure, Runs-leave, Runs-lift, Runs-if, Runs-bind, Runs-pre, Keeps-bind,
  Runs-require, call,
}
use nav_bridge.X30.Protocol.{
  BodyHeightState, height_code, cmd_heartbeat, cmd_query_103, cmd_height_switch,
  make_simple_command,
}
use nav_bridge.X30.Store.{Store, height_matches}
use nav_bridge.X30.Platform.{
  Platform, IsPlatform, World, ActionResult, motion, send, wait_for_body_height_state,
}
use nav_bridge.X30.Executor.Rules.{IsLater, IsLater-refl, Includes, Saw, Saw-map, IsCallbacks}
use nav_bridge.X30.Executor.Steps.{IsFrame, Answered, look-Saw, wait_for-Answered, takeover-Keeps}
use nav_bridge.X30.Executor.Actions.{
  Ended, Finishes, Holds-Finishes, Finishes-Goal, Later-frame, refuse-Keeps,
}
use nav_bridge.X30.Executor.{Callbacks}
use nav_bridge.X30.Height.{height_of, switch_height, guarded_height, begin_height, set_body_height}

abbrev pub height_codes : List ℕ
height_codes = cmd_heartbeat ∷ cmd_query_103 ∷ cmd_height_switch ∷ []

base_codes : Includes (cmd_heartbeat ∷ cmd_query_103 ∷ []) height_codes
base_codes code e = ground arith

-- Between `w` and `w'` the body height was seen.
abbrev pub Lowered : Platform → BodyHeightState → World → World → Type 0
Lowered p target w w' = Saw p (λ r. r.body_height_state == height_code target) w.now w'

module _ (p : Platform) (c : Callbacks) (ip : IsPlatform p) (ic : IsCallbacks c)
    (target : BodyHeightState) (w₀ : World) where
  abbrev Later : World → Type 0
  Later = IsLater height_codes w₀

  abbrev Out : ActionResult → World → Type 0
  Out = Ended height_codes w₀ (Lowered p target w₀)

  frame : IsFrame height_codes w₀.now Later
  frame = Later-frame height_codes w₀

  send-Later :
      (value : ℤ)
      → Runs ⊥ Out Later
          (lift (send p motion (make_simple_command cmd_height_switch value)))
          (λ _. Later)
  unfolding send
  send-Later value = Runs-lift (send p motion (make_simple_command cmd_height_switch value)) λ w h.
      record {
        not_before = omega (arith, h.not_before, ip.after_lt w.now);
        only = λ code e. grind (arith, h.only code e);
        suppression = h.suppression;
      }

  switch_height-Done : (value : ℤ) → Runs ⊥ Out Later (switch_height p c value target) Out
  unfolding switch_height wait_for_body_height_state
  switch_height-Done value =
      Keeps-bind _ _ (takeover-Keeps p c ip ⊥ Out _ _ Later frame ic base_codes _ _) λ _.
        Keeps-bind _ _ (send-Later value) λ sent.
          Keeps-bind _ _ (Runs-require sent _ (λ w e h. h) (λ w e h. (h, λ e'. cc))) λ _.
            Runs-bind (Answered p w₀.now Later (λ r. height_matches (target ∷ []) r.store)) _ _
              (wait_for-Answered p c ip ⊥ Out _ _ Later frame
                (λ r. height_matches (target ∷ []) r.store) _)
              λ reached.
                Runs-bind (λ _ w. Later w × Lowered p target w₀ w) _ _
                  (Runs-require reached _ (λ w e h. (h.0, Saw-map (λ r x. ground arith) (h.1 e)))
                    (λ w e h. (h.0, λ e'. cc)))
                  λ _. Runs-pure _ λ w h. (h.0, λ _. h.1)

  guarded_height-Done :
      (value : ℤ) (snapshot : Store)
      → Runs ⊥ Out
          (Answered p w₀.now Later
            (λ r. r.body_height_state == height_code target)
            (snapshot.body_height_state == height_code target))
          (guarded_height p c value target snapshot)
          Out
  unfolding guarded_height
  guarded_height-Done value snapshot =
      Keeps-bind _ _ (Runs-require _ _ (λ w e h. h) (λ w e h. (h.0, λ e'. cc))) λ _.
        Runs-if (snapshot.body_height_state == height_code target) _ _
          (λ e. Runs-leave _ λ w h. (h.0, λ _. h.1 e))
          λ _.
            Keeps-bind _ _ (refuse-Keeps _ λ message w h. (h.0, λ e. cc))
              λ _. Runs-pre (λ w h. h.0) (switch_height-Done value)

height-Finishes :
    (p : Platform) (c : Callbacks)
    → IsPlatform p
    → IsCallbacks c
    → (value : ℤ) {target : BodyHeightState} → height_of value ≡ some target
    → (w : World) → Finishes height_codes (Lowered p target w) (set_body_height p c value) w
unfolding set_body_height begin_height
height-Finishes p c ip ic value {target} e w = Holds-Finishes (set_body_height p c value) (
    rw e (
      (Runs-bind
          (λ snapshot.
            Answered p w.now (IsLater height_codes w)
              (λ r. r.body_height_state == height_code target)
              (snapshot.body_height_state == height_code target))
          _ _
          (look-Saw p c ip ⊥ _ _ _ _ (Later-frame height_codes w) (λ r. r.store)
            (λ s. s.body_height_state == height_code target))
          λ snapshot. guarded_height-Done p c ip ic target w value snapshot).at
        w (IsLater-refl _ w)))

-- With a platform whose clock moves on with every statement and whose waits and sleeps take their
-- time, and with callbacks that keep what the executor relies on: setBodyHeight for a value that
-- the switch knows returns, whatever the robot does, and it has sent nothing but heartbeats,
-- queries and the height command, and left the suppression of /cmd_vel as it was.
pub set_body_height_returns :
    (p : Platform) (c : Callbacks)
    → IsPlatform p
    → IsCallbacks c
    → (value : ℤ) {target : BodyHeightState} → height_of value ≡ some target
    → (w : World)
    → (r : ActionResult) × (w' : World) × (call (set_body_height p c value) w ≡ (some r, w'))
      × IsLater height_codes w w'
set_body_height_returns p c ip ic value e w =
    let done = height-Finishes p c ip ic value e w in
    (done.answer, done.after, done.returns, done.later)

-- With a platform whose clock moves on with every statement and whose waits and sleeps take their
-- time, and with callbacks that keep what the executor relies on: where setBodyHeight returns with
-- success for a value that the switch knows, the store has held that height at an instant between
-- the call and the return.
pub set_body_height-Lowered :
    (p : Platform) (c : Callbacks)
    → IsPlatform p
    → IsCallbacks c
    → (value : ℤ) {target : BodyHeightState} → height_of value ≡ some target
    → (w w' : World) (r : ActionResult) → call (set_body_height p c value) w ≡ (some r, w')
    → r.success ≡ true
    → Lowered p target w w'
set_body_height-Lowered p c ip ic value e w w' r returns s =
    Finishes-Goal (height-Finishes p c ip ic value e w) returns s
