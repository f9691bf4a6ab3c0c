-- ===== src/Cyvet/Odometry/Tests.antt =====
-- Odometry on the integers, with the angles in half turns.
use mathlib.Core.Int.{ℤ, pos, negsuc, ◌+ℤ◌, ◌-ℤ◌, ◌*ℤ◌}
use mathlib.Core.Nat.{ℕ, zero, suc}
use nav_bridge.Prelude.{◌≡◌, refl, Bool, false, not, [], ◌∷◌, if◌then◌else◌}
use nav_bridge.Cyvet.Odometry.{
  Reals, Pose2, ContinuousOdometry, initial, aligned, moved, update, updates, updates-rigid,
}

abbrev is_odd : ℕ → Bool
is_odd zero = false
is_odd (suc n) = not (is_odd n)

abbrev is_back : ℤ → Bool
is_back (pos n) = is_odd n
is_back (negsuc n) = not (is_odd n)

abbrev grid : Reals
grid = record {
  Value = ℤ;
  nought = pos 0;
  add = λ a b. a +ℤ b;
  sub = λ a b. a -ℤ b;
  mul = λ a b. a *ℤ b;
  cos = λ a. if is_back a then negsuc 0 else pos 1;
  sin = λ a. pos 0;
}

abbrev pose : ℤ → ℤ → ℤ → Pose2 grid
pose x y yaw = record { x = x; y = y; yaw = yaw }

-- One epoch that ends at (5, 2) and half a turn, and another that begins elsewhere.
abbrev walked : ContinuousOdometry grid
walked =
    update grid 1 (pose (pos 5) (pos 2) (pos 1))
      (update grid 1 (pose (pos 0) (pos 0) (pos 0)) (initial grid))

updates-rigid_example :
    (updates grid 2
      (pose (pos 4) (pos 1) (pos 0) ∷ pose (pos 9) (pos 9) (pos 1) ∷ [])
      (update grid 2 (pose (pos 3) (negsuc 0) (pos 0)) walked)).last
    ≡ moved grid
        (aligned grid walked.last (pose (pos 3) (negsuc 0) (pos 0)))
        (pose (pos 4) (pos 1) (pos 0))
updates-rigid_example =
    updates-rigid grid walked 2 (pose (pos 3) (negsuc 0) (pos 0))
      (pose (pos 9) (pos 9) (pos 1) ∷ []) (pose (pos 4) (pos 1) (pos 0)) refl refl
