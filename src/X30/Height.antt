-- ===== src/X30/Height.antt =====
-- src/x30/x30_nav_bridge.cpp: `setBodyHeight`.
pub mod Reaches
use nav_bridge.Prelude.{
  ℕ, Bool, true, false, not, ◌&&◌, Option, none, some, [], ◌∷◌, ◌==◌, if◌then◌else◌,
}
use nav_bridge.Prelude.Int.{ℤ, pos, negsuc}
use nav_bridge.Prelude.Text.{to_string}
use nav_bridge.Prelude.Exec.{pure, lift, require, leave, ◌>>=◌, ◌>>◌}
use nav_bridge.X30.Protocol.{
  BodyHeightState, crawl, normal, height_code, cmd_height_switch, make_simple_command,
}
use nav_bridge.X30.Store.{Store}
use nav_bridge.X30.Platform.{
  Platform, Act, ActionResult, result, refuse, motion, look, send, wait_for_body_height_state,
}
use nav_bridge.X30.Control.{
  control_warmup_ms, control_warmup_pulse_ms, is_crawl_compatible_gait,
  is_body_height_switch_allowed_gait,
}
use nav_bridge.X30.Executor.{Callbacks, ensure_control_takeover}
use Prim.Native.String.{String, ◌++◌}

abbrev pub body_height_switch_timeout_ms : ℕ
body_height_switch_timeout_ms = 4000

-- The `switch` over the requested value.
unfoldable pub height_of : ℤ → Option BodyHeightState
height_of (pos n) = if n == 0 then some crawl else if n == 2 then some normal else none
height_of (negsuc n) = none

abbrev pub height_name : BodyHeightState → String
height_name crawl = "CRAWL"
height_name normal = "NORMAL"

is_crawl : BodyHeightState → Bool
is_crawl crawl = true
is_crawl normal = false

-- The guards on the snapshot that follow the test of the height.
height_refusal : BodyHeightState → Store → Option String
unfolding is_crawl
height_refusal target s =
    if is_crawl target && not (is_crawl_compatible_gait s.gait_state)
    then some (
        "Crawl height is only allowed when current gait is WALK or SLOPE. Current gait="
        ++ to_string s.gait_state
        ++ ".")
    else if not (is_body_height_switch_allowed_gait s.gait_state)
    then some "Body height switch is not supported in L_WALK, MOUNTAIN, SILENT, or L_STAIR gait."
    else none

module _ (p : Platform) (c : Callbacks) where
  switch_height : ℤ → BodyHeightState → Act ActionResult
  switch_height value target = do
    ensure_control_takeover p c control_warmup_ms control_warmup_pulse_ms
    sent ← lift (send p motion (make_simple_command cmd_height_switch value))
    require sent (result false "Failed to send body height switch command.")
    reached ← lift (wait_for_body_height_state p (target ∷ []) body_height_switch_timeout_ms)
    require reached
        (result false ("Timeout waiting for body height state: " ++ height_name target ++ "."))
    pure (result true ("Body height switched to " ++ height_name target ++ "."))

  guarded_height : ℤ → BodyHeightState → Store → Act ActionResult
  unfolding height_refusal switch_height
  guarded_height value target snapshot = do
    require snapshot.connected (result false "Robot is not connected.")
    let switch = do refuse (height_refusal target snapshot); switch_height value target
    if snapshot.body_height_state == height_code target
        then leave (result true "Robot is already at the requested body height.")
        else switch

  begin_height : ℤ → Option BodyHeightState → Act ActionResult
  unfolding guarded_height
  begin_height value none =
      leave (result false "Unsupported body height value. Use 0 (CRAWL) or 2 (NORMAL).")
  begin_height value (some target) = do
    snapshot ← lift (look p (λ r. r.store))
    guarded_height value target snapshot

  unfoldable pub set_body_height : ℤ → Act ActionResult
  unfolding begin_height height_of
  set_body_height value = begin_height value (height_of value)
