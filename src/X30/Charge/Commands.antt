-- ===== src/X30/Charge/Commands.antt =====
-- src/x30/x30_nav_bridge.cpp: the commands of the charge service and its states.
use nav_bridge.Prelude.{ℕ, ◌≡◌, true, false, some, none, arith, inl, inr, Option-cases, leb, ◌==◌}
use nav_bridge.Prelude.Int.{ℤ, pos, negsuc}
use nav_bridge.X30.Services.{ParameterValue, integer, text, other}
use nav_bridge.X30.Charge.{
  is_failure_charge_state, is_expected_charge_state_for_command, charge_switch,
  parse_charge_command,
}

none-absurd : (command : ℕ) → leb command 5 ≡ true → charge_switch command ≡ none → ⊥
unfolding charge_switch
none-absurd command h e = ground arith

parsed-le :
    (value : ParameterValue) (command : ℕ)
    → parse_charge_command value ≡ inr command
    → leb command 5 ≡ true
unfolding parse_charge_command
parsed-le (integer (pos n)) command e = ground arith
parsed-le (integer (negsuc n)) command e = absurd (cc e)
parsed-le (text s) command e = ground arith
parsed-le (other n) command e = absurd (cc e)

switch-total :
    (command : ℕ) → leb command 5 ≡ true → (head : ℕ × ℤ) × (charge_switch command ≡ some head)
switch-total command h = elim (Option-cases (charge_switch command)) [
  | inl e ↦ absurd (none-absurd command h e)
  | inr found ↦ found
]

-- Every command that parseChargeCommandParameter accepts is one that the switch of
-- executeChargeCommand knows, so the answer of an invalid command does not occur.
pub parse_charge_command-known :
    (value : ParameterValue) (command : ℕ)
    → parse_charge_command value ≡ inr command
    → (head : ℕ × ℤ) × (charge_switch command ≡ some head)
parse_charge_command-known value command e = switch-total command (parsed-le value command e)

-- A state that ends a charge command other than the query with success is none of the failure
-- states.
is_failure_charge_state-expected :
    (command state : ℕ)
    → (command == 3) ≡ false
    → is_expected_charge_state_for_command command state ≡ true
    → is_failure_charge_state state ≡ false
unfolding is_expected_charge_state_for_command is_failure_charge_state
is_failure_charge_state-expected command state h e = ground arith
