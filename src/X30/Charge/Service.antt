-- ===== src/X30/Charge/Service.antt =====
-- src/x30/x30_nav_bridge.cpp: the charge service: executeChargeCommand, the waits for the charge
-- manager's responses, the periodic query and the answer to the caller.
pub mod Reported
use nav_bridge.Prelude.{
  ℕ, zero, suc, Bool, true, false, not, ◌&&◌, ◌||◌, Option, none, some, List, [], ◌∷◌, map, ◌⊎◌,
  inl, inr, ltb, leb, ◌==◌, max, if◌then◌else◌,
}
use nav_bridge.Prelude.Int.{ℤ, pos}
use nav_bridge.Prelude.Text.{to_string, same_text}
use nav_bridge.Prelude.Exec.{
  Flow, next, exit, starved, Exec, returned, call, pure, leave, lift, starve, act, require, ◌>>=◌,
  ◌>>◌,
}
use nav_bridge.X30.Protocol.{cmd_vel_source, cmd_charge_manager_query, make_simple_command, rl_mode}
use nav_bridge.X30.Platform.{
  Platform, Reading, World, Act, ActionResult, result, charge, charge_config, look, sleep_for, send,
  elapse,
}
use nav_bridge.X30.Store.{is_basic}
use nav_bridge.X30.Executor.{Callbacks}
use nav_bridge.X30.Executor.Force.{force_stand_up}
use nav_bridge.X30.Manual.{ensure_manual_mode}
use nav_bridge.X30.Services.{Parameter, SetParametersResult, refused, execute_suppressed}
use nav_bridge.X30.Charge.{
  charge_state_idle, charge_state_to_string, is_expected_charge_state_for_command,
  is_failure_charge_state, charge_switch, parse_charge_command,
}
use Prim.Native.Char.{Char, code}
use Prim.Native.String.{String, ◌++◌}

pub record ChargeCommandResult : Type 0 where
  pub success : Bool
  pub charge_state : ℕ
  pub state_name : String
  pub message : String

abbrev pub Charged : Type 0 → Type 0
Charged A = Exec World ChargeCommandResult A

abbrev pub failed_at : String → String → ChargeCommandResult
failed_at name m = record {
  success = false;
  charge_state = charge_state_idle;
  state_name = name;
  message = m;
}

abbrev pub answered : Bool → ℕ → String → ChargeCommandResult
answered b state m = record {
  success = b;
  charge_state = state;
  state_name = charge_state_to_string state;
  message = m;
}

abbrev pub charge_prep_settle_ms : ℕ
charge_prep_settle_ms = 200

abbrev pub charge_query_poll_ms : ℕ
charge_query_poll_ms = 1000

escaped : Char → String
escaped c =
    if code c == 92
    then "\\\\"
    else if code c == 34
    then "\\\""
    else if code c == 10
    then "\\n"
    else if code c == 13
    then "\\r"
    else if code c == 9
    then "\\t"
    else String.◌∷◌ c ""

escape_json_string : String → String
escape_json_string String.[] = ""
escape_json_string (String.◌∷◌ c s) = escaped c ++ escape_json_string s

unfoldable pub encode_charge_command_result : ChargeCommandResult → String
unfolding escape_json_string escaped to_string
encode_charge_command_result r =
    "{\"charge_state\":"
    ++ to_string r.charge_state
    ++ ",\"state_name\":\""
    ++ escape_json_string r.state_name
    ++ "\",\"message\":\""
    ++ escape_json_string r.message
    ++ "\"}"

-- A call of an action, whose result is looked at.
pub taken : {A : Type 0} → Option A × World → Flow ChargeCommandResult A × World
taken (some a, w) = (next a, w)
taken (none, w) = (starved, w)

-- A routine that never leaves early, such as `ensureManualMode`.
pub settled : Flow ActionResult Bool × World → Option Bool × World
settled (next b, w) = (some b, w)
settled (exit r, w) = (some r.success, w)
settled (starved, w) = (none, w)

abbrev pub is_stop_command : ℕ → Bool
is_stop_command command = command == 1 || command == 4 || command == 5

-- A response that is newer than the one with this number, or the end of the node.
abbrev pub is_answered : ℕ → Reading → Bool
is_answered previous r = not r.running || ltb previous r.charge_response_seq

-- `until t q` is the instant at which a wait without a time limit, begun at t, sees q; it may never.
module _ (p : Platform) (c : Callbacks) (until : ℕ → (Reading → Bool) → Option ℕ) where
  pub woken : Option ℕ → World → Flow ChargeCommandResult (Option ℕ) × World
  woken none w = (starved, w)
  woken (some t) w =
      let r = p.read t in
      (next (if r.running then some r.latest_charge_response_state else none), elapse p t w)

  unfoldable pub wait_for_charge_response : ℕ → Charged (Option ℕ)
  unfolding woken
  wait_for_charge_response previous w = woken (until w.now (is_answered previous)) w

  unfoldable pub wait_for_charge_response_for : ℕ → ℕ → World → Option ℕ × World
  wait_for_charge_response_for previous timeout w =
      let t = p.wake w.now timeout (is_answered previous) in
      let r = p.read t in
      (
        if r.running && ltb previous r.charge_response_seq
            then some r.latest_charge_response_state
            else none,
        elapse p t w,
      )

  -- Before a start the robot leaves RL mode, and takes its velocity from the navigation.
  unfoldable pub prepare_start : Charged (Unit {0})
  unfolding taken
  prepare_start = do
    rl ← lift (look p (λ r. is_basic rl_mode r.basic_state))
    let exit_rl : Charged ActionResult = λ w. taken (execute_suppressed (force_stand_up p c) w)
    left ← if rl then exit_rl else pure (result true "")
    require left.success (
        failed_at "failed_to_exit_rl"
          ("Failed to exit RL mode before charge START: " ++ left.message))
    sent ← lift (send p charge_config (make_simple_command cmd_vel_source (pos 2)))
    require sent (
        failed_at "vel_source_send_failed"
          "Failed to switch velocity source to navigation before charge START.")
    act (sleep_for p charge_prep_settle_ms)

  -- `switchToManualModeAfterCharge`
  unfoldable pub switch_to_manual_mode_after_charge : Charged Bool
  unfolding taken settled
  switch_to_manual_mode_after_charge w = taken (settled (ensure_manual_mode p c w))

  -- The end of a command whose state was expected.
  unfoldable pub accept : ℕ → ℕ → Charged ChargeCommandResult
  unfolding switch_to_manual_mode_after_charge
  accept command state = do
    manual ← if is_stop_command command then switch_to_manual_mode_after_charge else pure true
    if manual
        then pure (answered true state "Charge command accepted.")
        else pure
            (answered false state "Charge STOP succeeded, but robot did not confirm manual mode.")

  -- The state is asked for again; `again` is the rounds that follow.
  unfoldable pub ask_charge_state :
      (ℕ → ℕ → Charged ChargeCommandResult) → ℕ → Charged ChargeCommandResult
  ask_charge_state again state = do
    act (sleep_for p charge_query_poll_ms)
    previous ← lift (look p (λ r. r.charge_response_seq))
    sent ← lift (send p charge (make_simple_command cmd_charge_manager_query (pos 0)))
    if sent
        then again previous state
        else pure (answered false state "Failed to query charge state after command.")

  -- What follows a response.
  unfoldable pub responded :
      ℕ → (ℕ → ℕ → Charged ChargeCommandResult) → ℕ → Charged ChargeCommandResult
  unfolding accept ask_charge_state
  responded command again state =
      if is_expected_charge_state_for_command command state
      then accept command state
      else if is_failure_charge_state state
      then pure (answered false state "Charge manager reported a failure state.")
      else if command == 0 || is_stop_command command
      then ask_charge_state again state
      else pure
          (answered false state "Charge manager responded, but state did not match the command.")

  unfoldable pub with_response :
      ℕ → (ℕ → ℕ → Charged ChargeCommandResult) → Option ℕ → Charged ChargeCommandResult
  unfolding responded
  with_response command again none =
      pure (failed_at "interrupted" "Charge wait was interrupted by node shutdown.")
  with_response command again (some state) = responded command again state

  -- The rounds of the loop, of which so many are followed: the code has no bound for them.
  -- `previous` is `before_seq`, `state` is `final_state`.
  unfoldable pub charge_loop : ℕ → ℕ → ℕ → ℕ → Charged ChargeCommandResult
  unfolding with_response wait_for_charge_response
  charge_loop zero command previous state = starve
  charge_loop (suc rounds) command previous state =
      let again = charge_loop rounds command in
      lift (look p (λ r. r.running)) >>= λ running.
      if running
      then wait_for_charge_response previous >>= with_response command again
      else pure (answered false state "Charge wait was interrupted.")

  unfoldable pub charge_with : ℕ → ℕ → Option (ℕ × ℤ) → Charged ChargeCommandResult
  unfolding prepare_start charge_loop
  charge_with rounds command none = pure (
      failed_at "invalid_command"
        "Invalid charge command. Allowed: 0(start),1(stop),2(reset),3(query).")
  charge_with rounds command (some (code, value)) = do
    if command == 0 then prepare_start else pure tt
    previous ← lift (look p (λ r. r.charge_response_seq))
    sent ← lift (send p charge (make_simple_command code value))
    require sent (failed_at "send_failed" "Failed to send charge command.")
    charge_loop rounds command previous charge_state_idle

  unfoldable pub execute_charge_command : ℕ → ℕ → World → Option ChargeCommandResult × World
  unfolding charge_with charge_switch
  execute_charge_command rounds command = call (charge_with rounds command (charge_switch command))

  -- A round of `chargeQueryLoop`, with the response that it gets, if it gets one; the service's mutex
  -- may be taken, and then nothing is asked.
  unfoldable pub charge_query_round : ℕ → ℕ → Bool → World → Option ℕ × World
  unfolding wait_for_charge_response_for
  charge_query_round interval_ms timeout_ms owns_lock w =
      let slept = sleep_for p (max 100 interval_ms) w in
      let (running, w1) = look p (λ r. r.running) slept in
      let (previous, w2) = look p (λ r. r.charge_response_seq) w1 in
      let (sent, w3) = send p charge (make_simple_command cmd_charge_manager_query (pos 0)) w2 in
      if not running || not owns_lock
      then (none, w1)
      else if not sent
      then (none, w3)
      else wait_for_charge_response_for previous (max 100 timeout_ms) w3

  -- `handleChargeCommandRequest`
  run_command : ℕ → String ⊎ ℕ → World → Option SetParametersResult × World
  unfolding execute_charge_command encode_charge_command_result
  run_command rounds (inl reason) w = (some (refused reason), w)
  run_command rounds (inr command) w =
      let (r, w') = execute_charge_command rounds command w in
      (
        elim r [
          | some a ↦
              some (record { successful = a.success; reason = encode_charge_command_result a })
          | none ↦ none
        ],
        w',
      )

  unfoldable pub handle_charge_command_request :
      ℕ → List Parameter → World → Option (List SetParametersResult) × World
  unfolding run_command parse_charge_command
  handle_charge_command_request rounds [] w = (
    some (refused "charge_command expects exactly one parameter named 'charge_command'." ∷ []),
    w,
  )
  handle_charge_command_request rounds (param ∷ []) w =
      let unknown =
        "Unknown parameter '" ++ param.name ++ "'. Only 'charge_command' is supported." in
      let parsed =
        if same_text param.name "charge_command"
        then parse_charge_command param.value
        else inl unknown in
      let (r, w') = run_command rounds parsed w in
      (elim r [ some a ↦ some (a ∷ []) | none ↦ none ], w')
  handle_charge_command_request rounds (param ∷ more ∷ rest) w = (
    some (
        map (λ _. refused "charge_command expects exactly one parameter named 'charge_command'.")
          (param ∷ more ∷ rest)),
    w,
  )
