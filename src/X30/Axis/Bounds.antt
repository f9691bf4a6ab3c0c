-- ===== src/X30/Axis/Bounds.antt =====
-- include/nav_bridge/x30/x30_protocol.hpp: the range of `velocityToAxisValue`.
use nav_bridge.Prelude.{
  ℕ, suc, ◌*◌, ◌^◌, ◌<◌, ◌≤◌, ◌≡◌, ◌⊎◌, inl, inr, refl, true, false, arith, ltb, leb, ltb→le,
  if-elim, if◌then◌else◌, Bool-cases, sym, ap, ◌∙◌,
}
use mathlib.Core.Path.{subst}
use nav_bridge.Prelude.Int.{ℤ, pos, negsuc, abs}
use nav_bridge.X30.Axis.{
  Floats, axis_value_max, axis_dead_zone, clamp_ratio, velocity_to_axis_value,
}

-- What IEEE 754 and the conversion to `int32_t` promise. A number (what is not NaN) is an `x` with
-- `x <= x`, and the integers up to 2^24 are `float`s: a product is rounded monotonically and one with
-- 1 or -1 is exact, and the conversion drops the fraction.
pub record IsFloats (fl : Floats) : Type 0 where
  pub le_refl : (n : ℕ) → fl.le (fl.hundredths n) (fl.hundredths n) ≡ true
  pub negate_le : (x : fl.Value) → fl.le x x ≡ true → fl.le (fl.negate x) (fl.negate x) ≡ true
  pub le_total :
      (x y : fl.Value) → fl.le x x ≡ true → fl.le y y ≡ true → fl.lt y x ≡ false → fl.le x y ≡ true
  pub lt_asym : (x y : fl.Value) → fl.lt x y ≡ true → fl.lt y x ≡ false
  pub negate_one_below : fl.lt (fl.negate (fl.hundredths 100)) (fl.hundredths 100) ≡ true
  pub times_le :
      (x y : fl.Value) (n : ℕ)
      → 0 < n
      → n ≤ 2 ^ 24
      → fl.le x y ≡ true
      → fl.le (fl.times x n) (fl.times y n) ≡ true
  pub one_times : (n : ℕ) → n ≤ 2 ^ 24 → fl.times (fl.hundredths 100) n ≡ fl.hundredths (n * 100)
  pub minus_one_times :
      (n : ℕ)
      → n ≤ 2 ^ 24
      → fl.times (fl.negate (fl.hundredths 100)) n ≡ fl.negate (fl.hundredths (n * 100))
  pub truncate_bound :
      (x : fl.Value) (n : ℕ)
      → n ≤ 2 ^ 24
      → fl.le (fl.negate (fl.hundredths (n * 100))) x ≡ true
      → fl.le x (fl.hundredths (n * 100)) ≡ true
      → abs (fl.truncate x) ≤ n
  pub truncate_positive : (n : ℕ) → n ≤ 2 ^ 24 → fl.truncate (fl.hundredths (n * 100)) ≡ pos n
  pub truncate_negative :
      (n : ℕ) → suc n ≤ 2 ^ 24 → fl.truncate (fl.negate (fl.hundredths (suc n * 100))) ≡ negsuc n

module _ (fl : Floats) (ok : IsFloats fl) where
  open fl use {Value, hundredths, le, lt, negate, divide, times, truncate}

  one : Value
  one = hundredths 100

  minus_one : Value
  minus_one = negate (hundredths 100)

  -- What is left of a ratio that is a number.
  Clamped : Value → Type 0
  Clamped c = (le minus_one c ≡ true) × (le c one ≡ true)

  one-le : le one one ≡ true
  unfolding one
  one-le = ok.le_refl 100

  minus_one-le : le minus_one minus_one ≡ true
  unfolding minus_one
  minus_one-le = ok.negate_le _ (ok.le_refl 100)

  one-Clamped : Clamped one
  unfolding Clamped one minus_one
  one-Clamped = (ok.le_total _ _ minus_one-le one-le (ok.lt_asym _ _ ok.negate_one_below), one-le)

  minus_one-Clamped : Clamped minus_one
  unfolding Clamped one minus_one
  minus_one-Clamped =
      (minus_one-le, ok.le_total _ _ minus_one-le one-le (ok.lt_asym _ _ ok.negate_one_below))

  clamp_ratio-Clamped : (r : Value) → le r r ≡ true → Clamped (clamp_ratio fl r)
  unfolding clamp_ratio Clamped one minus_one
  clamp_ratio-Clamped r e =
      if-elim (λ u. Clamped (if lt u minus_one then minus_one else u)) (lt one r) one r
        (λ _.
          if-elim Clamped (lt one minus_one) minus_one one (λ _. minus_one-Clamped)
            (λ _. one-Clamped))
        λ h.
          if-elim Clamped (lt r minus_one) minus_one r (λ _. minus_one-Clamped)
            λ k. (ok.le_total _ _ minus_one-le e k, ok.le_total _ _ e one-le h)

  axis-bound : (c : Value) → Clamped c → abs (truncate (times c axis_value_max)) ≤ axis_value_max
  unfolding Clamped one minus_one
  axis-bound c (low, high) =
      ok.truncate_bound (times c axis_value_max) axis_value_max (omega arith)
        (subst (λ x. le x (times c axis_value_max) ≡ true)
          (ok.minus_one_times axis_value_max (omega arith))
          (ok.times_le _ c axis_value_max (omega arith) (omega arith) low))
        (subst (λ x. le (times c axis_value_max) x ≡ true)
          (ok.one_times axis_value_max (omega arith))
          (ok.times_le c _ axis_value_max (omega arith) (omega arith) high))

  -- A ratio beyond a limit.
  clamp_ratio-one : (r : Value) → lt one r ≡ true → clamp_ratio fl r ≡ one
  unfolding clamp_ratio one
  clamp_ratio-one r e = cc (e, ok.lt_asym _ _ ok.negate_one_below)

  clamp_ratio-minus_one :
      (r : Value) → lt one r ≡ false → lt r minus_one ≡ true → clamp_ratio fl r ≡ minus_one
  unfolding clamp_ratio one minus_one
  clamp_ratio-minus_one r e f = cc (e, f)

  -- The axis value of a ratio, where the limit is positive.
  axis_of : Value → ℤ
  axis_of r =
      let raw = truncate (times (clamp_ratio fl r) axis_value_max) in
      if ltb (abs raw) axis_dead_zone then pos 0 else raw

  axis_of-bound :
      (r : Value)
      → le r r ≡ true
      → (abs (axis_of r) ≤ axis_value_max)
        × ((abs (axis_of r) ≡ 0) ⊎ (axis_dead_zone ≤ abs (axis_of r)))
  unfolding axis_of
  axis_of-bound r e =
      let raw = truncate (times (clamp_ratio fl r) axis_value_max) in
      if-elim (λ (a : ℤ). (abs a ≤ axis_value_max) × ((abs a ≡ 0) ⊎ (axis_dead_zone ≤ abs a)))
        (ltb (abs raw) axis_dead_zone) (pos 0) raw (λ _. (omega arith, inl refl))
        λ h. (axis-bound (clamp_ratio fl r) (clamp_ratio-Clamped r e), inr (ltb→le _ _ h))

  axis_of-top : (r : Value) → lt one r ≡ true → axis_of r ≡ pos axis_value_max
  unfolding axis_of one
  axis_of-top r e =
      subst (λ a. (if ltb (abs a) axis_dead_zone then pos 0 else a) ≡ pos axis_value_max)
        (sym (
          ap (λ c. truncate (times c axis_value_max)) (clamp_ratio-one r e)
          ∙ ap truncate (ok.one_times axis_value_max (omega arith))
          ∙ ok.truncate_positive axis_value_max (omega arith)))
        refl

  axis_of-bottom : (r : Value) → lt one r ≡ false → lt r minus_one ≡ true → axis_of r ≡ negsuc 32766
  unfolding axis_of minus_one
  axis_of-bottom r e f =
      subst (λ a. (if ltb (abs a) axis_dead_zone then pos 0 else a) ≡ negsuc 32766)
        (sym (
          ap (λ c. truncate (times c axis_value_max)) (clamp_ratio-minus_one r e f)
          ∙ ap truncate (ok.minus_one_times axis_value_max (omega arith))
          ∙ ok.truncate_negative 32766 (omega arith)))
        refl

  -- With floating point that keeps what IEEE 754 and the conversion to an integer promise of
  -- numbers, a positive limit, and a velocity whose ratio to the limit is a number (not NaN): the
  -- axis value lies between -32767 and 32767 and is 0 or at least 655 in size, it is 32767 where
  -- the ratio is above 1, and -32767 where it is below -1.
  pub velocity_to_axis_value-bound :
      (velocity : Value) (max_vel : ℕ)
      → 0 < max_vel
      → le (divide velocity (hundredths max_vel)) (divide velocity (hundredths max_vel)) ≡ true
      → (let a = velocity_to_axis_value fl velocity max_vel in
          let ratio = divide velocity (hundredths max_vel) in
          (abs a ≤ axis_value_max)
          × ((abs a ≡ 0) ⊎ (axis_dead_zone ≤ abs a))
          × ((lt (hundredths 100) ratio ≡ false) ⊎ (a ≡ pos 32767))
          × ((lt (hundredths 100) ratio ≡ true)
              ⊎ ((lt ratio (negate (hundredths 100)) ≡ false) ⊎ (a ≡ negsuc 32766))))
  unfolding velocity_to_axis_value axis_of one minus_one
  velocity_to_axis_value-bound velocity max_vel positive e =
      let r = divide velocity (hundredths max_vel) in
      let range = axis_of-bound r e in
      if-elim
        (λ (a : ℤ).
          (abs a ≤ axis_value_max)
          × ((abs a ≡ 0) ⊎ (axis_dead_zone ≤ abs a))
          × ((lt (hundredths 100) r ≡ false) ⊎ (a ≡ pos 32767))
          × ((lt (hundredths 100) r ≡ true)
              ⊎ ((lt r (negate (hundredths 100)) ≡ false) ⊎ (a ≡ negsuc 32766))))
        (leb max_vel 0) (pos 0) (axis_of r) (λ h. absurd (ground (arith, positive, h)))
        λ _. elim (Bool-cases (lt (hundredths 100) r)) [
          | inl h ↦ (range.0, range.1, inr (axis_of-top r h), inl h)
          | inr h ↦ (
            range.0,
            range.1,
            inl h,
            inr (elim (Bool-cases (lt r (negate (hundredths 100)))) [
              | inl k ↦ inr (axis_of-bottom r h k)
              | inr k ↦ inl k
            ]),
          )
        ]
