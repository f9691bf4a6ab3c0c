-- ===== src/Cyvet/Battery/Tests.antt =====
-- What is told of a battery.
use nav_bridge.Prelude.Int.{pos}
use nav_bridge.Prelude.{Bool, false, Option, none, some, List, [], ◌∷◌}
use nav_bridge.Cyvet.Battery.{
  Event, status, motion, after, IsShown, shown_percent, shown_percent-IsShown,
}
use nav_bridge.Tank.Tests.{Json, flag, json, response}

-- `asBool` of what the tests name.
abbrev told_flag : Json → Option Bool
told_flag (flag b) = some b
told_flag j = none

-- A sample at instant 20 after a report at instant 10.
abbrev events : List (Event json (λ j name. false) told_flag)
events = motion (pos 80) (pos 24) 20 ∷ status (response "battery") 10 ∷ []

shown_percent-IsShown_example :
    IsShown json
      (λ j name. false)
      told_flag
      (after json (λ j name. false) told_flag events).battery_online
      (shown_percent 100 50 (after json (λ j name. false) told_flag events))
shown_percent-IsShown_example = shown_percent-IsShown json (λ j name. false) told_flag events 100 50
