-- ===== src/Cyvet/Queue/Tests.antt =====
-- Runs of the queue.
use nav_bridge.Prelude.Int.{pos}
use nav_bridge.Prelude.{◌≡◌, refl, true, false, none, some, ◌⊎◌, arith}
use nav_bridge.Cyvet.Queue.{
  stand, lie, Job, Velocity, initial, accepted, take, stood, move, System, submits, takes, stands,
  moves, reports, Reach, here, next,
}
use nav_bridge.Cyvet.Queue.Order.{get_elem?, Nearer, waiting_stop}
use nav_bridge.Cyvet.Queue.Reaches.{stop_unready}
use nav_bridge.Cyvet.Queue.Velocities.{held_velocity}
use nav_bridge.Tank.Tests.{integers}

abbrev asleep : System integers
asleep = record { gate = initial "slow"; running = none; ended = 0 }

abbrev asked : System integers
asked = record asleep { gate = accepted stand asleep.gate }

abbrev preparing : System integers
preparing = record asked { gate = (take asked.gate).1; running = (take asked.gate).0 }

preparing-Reach : Reach "slow" preparing
preparing-Reach = next (next here (submits asleep stand refl)) (takes asked refl)

-- `lie` is asked for while `stand` runs, which comes to its end.
abbrev stopped : System integers
stopped = record preparing { gate = accepted lie preparing.gate }

abbrev canceled : System integers
canceled = record stopped { gate = (stood "slow" 1 stopped.gate).1 }

stop_unready_example : canceled.gate.ready ≡ false
stop_unready_example =
    stop_unready (next (next preparing-Reach (submits preparing lie refl)) (stands stopped 1 refl))
      (omega arith)

-- `stand` comes to its end and a velocity follows.
abbrev prepared : System integers
prepared = record preparing { gate = (stood "slow" 1 preparing.gate).1 }

abbrev owned : System integers
owned = record prepared { gate = record prepared.gate { connected = true; control_owned = true } }

abbrev velocity_now : Velocity integers
velocity_now = record { x = pos 1; y = pos 0; yaw = pos 0; at = 7; generation = 1 }

abbrev moving : System integers
moving = record owned { gate = (move {d = integers} (pos 1) (pos 0) (pos 0) 7 owned.gate).1 }

moving-Reach : Reach "slow" moving
moving-Reach =
    next
      (next (next preparing-Reach (stands preparing 1 refl))
        (reports prepared true true false false false 0 "" ""))
      (moves owned (pos 1) (pos 0) (pos 0) 7)

held_velocity_example :
    (moving.gate.ready ≡ true) × (velocity_now.generation ≡ moving.gate.generation)
held_velocity_example = held_velocity velocity_now moving-Reach refl

-- The worker takes the stop before the preparation.
abbrev busy : System integers
busy = record asked { gate = accepted lie asked.gate }

abbrev stop_job : Job
stop_job = record { action = lie; generation = 2 }

waiting_stop_example :
    (get_elem? (take busy.gate).1.urgent 0 ≡ some stop_job)
    ⊎ Nearer stop_job 0 (take busy.gate).1.urgent (take busy.gate).0
waiting_stop_example = waiting_stop {profile = "slow"} stop_job 0 (takes busy refl) refl refl
