-- ===== src/Cyvet/Battery.antt =====
-- src/cyvet/cyvet_backend.cpp: the battery, which the device tells of in JSON and in its motion samples.
pub mod Tests
use nav_bridge.Prelude.{
  ℕ, ◌-◌, ◌*◌, Option, none, some, ◌≡◌, refl, Bool, true, false, not, ◌&&◌, ◌||◌, List, [], ◌∷◌,
  ltb, arith, if-elim, if◌then◌else◌, ◌⊎◌, inl, inr,
}
use nav_bridge.Backend.{Doubles, nanoseconds_per_ms}
use nav_bridge.Tank.Http.{Jsoncpp}
use Prim.Native.String.{String}

pub record Battery (d : Doubles) : Type 0 where
  pub battery_percent : d.Value
  pub battery_at : ℕ
  pub battery_online : Bool

abbrev pub is_percentage : (d : Doubles) → d.Value → Bool
is_percentage d v = d.is_finite v && not (d.lt v d.nought) && not (d.lt d.hundred v)

module _ {d : Doubles} where
  abbrev pub unknown_battery : Battery d
  unknown_battery = record { battery_percent = d.minus_one; battery_at = 0; battery_online = true }

  abbrev pub offline : Battery d
  offline = record { battery_percent = d.minus_one; battery_at = 0; battery_online = false }

  -- The battery in `onMotion`.
  abbrev pub observe_power : d.Value → d.Value → ℕ → Battery d → Battery d
  observe_power power charge_voltage now b =
      if is_percentage d power
        && (d.is_finite charge_voltage && d.lt d.nought charge_voltage)
        && b.battery_online
      then record b { battery_percent = power; battery_at = now }
      else b

  -- The battery in `stateLocked`.
  abbrev pub shown_percent : ℕ → ℕ → Battery d → d.Value
  shown_percent telemetry_timeout_ms now b =
      if ltb (telemetry_timeout_ms * nanoseconds_per_ms) (now - b.battery_at)
      then d.minus_one
      else b.battery_percent

-- `!asBool()`; where `asBool` throws there is no value, and the callers of `updateBattery` catch it, so
-- that nothing more is recorded.
abbrev pub is_refused : Option Bool → Bool
is_refused none = true
is_refused (some online) = not online

-- `to_bool` is `asBool` of any value, which throws where there is no conversion.
module _ {d : Doubles} (js : Jsoncpp d) (is_member : js.Json → String → Bool)
    (to_bool : js.Json → Option Bool) where
  -- The end of `updateBattery`.
  abbrev pub charged : js.Json → ℕ → Battery d → Battery d
  charged battery now b =
      let power = js.member battery "power" in
      let value = js.as_double power in
      if not b.battery_online
      then b
      else if not (js.is_numeric power)
      then b
      else if not (is_percentage d value)
          || (is_member battery "online" && is_refused (to_bool (js.member battery "online")))
      then b
      else record b { battery_percent = value; battery_at = now }

  abbrev pub update_battery : js.Json → ℕ → Battery d → Battery d
  update_battery root now b =
      let battery = js.member root "battery" in
      let online = js.member battery "online" in
      if not (js.is_object battery)
      then b
      else if js.is_bool online
      then if js.as_bool online
        then charged battery now (record b { battery_online = true })
        else offline
      else charged battery now b

  pub data Event : Type 0 where
    status : js.Json → ℕ → Event
    motion : d.Value → d.Value → ℕ → Event
    -- `cached = BackendState{}`
    forgotten : Event

  abbrev pub told : Event → Battery d → Battery d
  told (status root now) b = update_battery root now b
  told (motion power charge_voltage now) b = observe_power power charge_voltage now b
  told forgotten b = record b { battery_percent = d.minus_one }

  -- The last event comes first.
  abbrev pub after : List Event → Battery d
  after [] = unknown_battery
  after (e ∷ es) = told e (after es)

  -- A percentage of a battery that is there, or none.
  abbrev pub IsShown : Bool → d.Value → Type 0
  IsShown online v = (v ≡ d.minus_one) ⊎ ((online ≡ true) × (is_percentage d v ≡ true))

  abbrev IsKept : Battery d → Type 0
  IsKept b = IsShown b.battery_online b.battery_percent

  IsKept-charged :
      (battery : js.Json) (now : ℕ) (b : Battery d) → IsKept b → IsKept (charged battery now b)
  IsKept-charged battery now b i =
      let power = js.member battery "power" in
      let value = js.as_double power in
      if-elim IsKept (not b.battery_online) _ _ (λ h. i)
        (λ h.
          if-elim IsKept (not (js.is_numeric power)) _ _ (λ k. i)
            (λ k.
              if-elim IsKept
                (not (is_percentage d value)
                  || (is_member battery "online"
                      && is_refused (to_bool (js.member battery "online"))))
                _ _ (λ l. i)
                (λ l. inr (kept b.battery_online h, first (is_percentage d value) _ l))))
    where
      kept : (x : Bool) → not x ≡ false → x ≡ true
      kept true e = refl
      kept false e = absurd (cc e)

      first : (x y : Bool) → not x || y ≡ false → x ≡ true
      first true y e = refl
      first false y e = absurd (cc e)

  IsKept-online : (b : Battery d) → IsKept b → IsKept (record b { battery_online = true })
  IsKept-online b (inl e) = inl e
  IsKept-online b (inr (o, p)) = inr (refl, p)

  IsKept-told : (e : Event) (b : Battery d) → IsKept b → IsKept (told e b)
  IsKept-told (status root now) b i =
      let battery = js.member root "battery" in
      let online = js.member battery "online" in
      if-elim IsKept (not (js.is_object battery)) _ _ (λ h. i)
        (λ h.
          if-elim IsKept (js.is_bool online) _ _
            (λ k.
              if-elim IsKept (js.as_bool online) _ _
                (λ l. IsKept-charged battery now _ (IsKept-online b i)) (λ l. inl refl))
            (λ k. IsKept-charged battery now b i))
  IsKept-told (motion power charge_voltage now) b i =
      if-elim IsKept
        (is_percentage d power
          && (d.is_finite charge_voltage && d.lt d.nought charge_voltage)
          && b.battery_online)
        _ _
        (λ h. inr (
          last (is_percentage d power) _ b.battery_online h,
          first (is_percentage d power) _ b.battery_online h,
        ))
        (λ h. i)
    where
      first : (x y z : Bool) → x && y && z ≡ true → x ≡ true
      first x y z e = ground arith

      last : (x y z : Bool) → x && y && z ≡ true → z ≡ true
      last x y z e = ground arith
  IsKept-told forgotten b i = inl refl

  IsKept-after : (es : List Event) → IsKept (after es)
  IsKept-after [] = inl refl
  IsKept-after (e ∷ es) = IsKept-told e (after es) (IsKept-after es)

  -- Whatever JSON and motion samples the Cyvet device has sent, and wherever the state was
  -- forgotten in between: the battery percentage that is shown is -1, or the battery counts as
  -- online and the percentage is finite, not below 0 and not above 100.
  pub shown_percent-IsShown :
      (es : List Event) (telemetry_timeout_ms now : ℕ)
      → IsShown (after es).battery_online (shown_percent telemetry_timeout_ms now (after es))
  shown_percent-IsShown es telemetry_timeout_ms now =
      if-elim (IsShown (after es).battery_online)
        (ltb (telemetry_timeout_ms * nanoseconds_per_ms) (now - (after es).battery_at)) _ _
        (λ h. inl refl) (λ h. IsKept-after es)
