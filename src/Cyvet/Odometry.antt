-- ===== src/Cyvet/Odometry.antt =====
-- include/nav_bridge/cyvet/motion_math.hpp: the odometry that is published over the walking epochs,
-- each of which has its own origin.
pub mod Tests
use mathlib.Core.Path.{subst}
use nav_bridge.Prelude.{
  ℕ, ◌≡◌, refl, sym, ◌∙◌, ap, Bool, true, false, not, ◌&&◌, ◌||◌, ◌==◌, arith, Option, none, some,
  List, [], ◌∷◌, if-elim, if◌then◌else◌,
}

-- `double`: 0.0, `+`, `-`, `*`, std::cos and std::sin.
pub record Reals : Type 1 where
  pub Value : Type 0
  pub nought : Value
  pub add : Value → Value → Value
  pub sub : Value → Value → Value
  pub mul : Value → Value → Value
  pub cos : Value → Value
  pub sin : Value → Value

module _ (d : Reals) where
  open d use {Value, nought, add, sub, mul, cos, sin}

  pub record Pose2 : Type 0 where
    pub x : Value
    pub y : Value
    pub yaw : Value

  pub record ContinuousOdometry : Type 0 where
    pub initialized : Bool
    pub reset : Bool
    pub epoch : ℕ
    pub offset : Pose2
    pub last : Pose2

  abbrev pub origin : Pose2
  origin = record { x = nought; y = nought; yaw = nought }

  abbrev pub initial : ContinuousOdometry
  initial = record { initialized = false; reset = false; epoch = 0; offset = origin; last = origin }

  -- The offset that puts the pose of the new epoch where the last one was.
  abbrev pub aligned : Pose2 → Pose2 → Pose2
  aligned last raw =
      let yaw = sub last.yaw raw.yaw in
      record {
        x = add (sub last.x (mul (cos yaw) raw.x)) (mul (sin yaw) raw.y);
        y = sub (sub last.y (mul (sin yaw) raw.x)) (mul (cos yaw) raw.y);
        yaw = yaw;
      }

  -- The pose of an epoch, seen from the origin of the first.
  abbrev pub moved : Pose2 → Pose2 → Pose2
  moved offset raw = record {
    x = sub (add offset.x (mul (cos offset.yaw) raw.x)) (mul (sin offset.yaw) raw.y);
    y = add (add offset.y (mul (sin offset.yaw) raw.x)) (mul (cos offset.yaw) raw.y);
    yaw = add offset.yaw raw.yaw;
  }

  -- The tests at the head of `update`.
  abbrev pub entered : ℕ → Pose2 → ContinuousOdometry → ContinuousOdometry
  entered epoch raw o =
      if not o.initialized
      then record o { initialized = true; reset = false; epoch = epoch }
      else if o.reset || not (epoch == o.epoch)
      then record o { reset = false; epoch = epoch; offset = aligned o.last raw }
      else o

  -- The pose that is returned is the new `last`.
  abbrev pub update : ℕ → Pose2 → ContinuousOdometry → ContinuousOdometry
  update epoch raw o =
      let inside = entered epoch raw o in record inside { last = moved inside.offset raw }

  abbrev pub new_session : ContinuousOdometry → ContinuousOdometry
  new_session o = record o { reset = true }

  -- The samples of one epoch, the last one first.
  abbrev pub updates : ℕ → List Pose2 → ContinuousOdometry → ContinuousOdometry
  updates epoch [] o = o
  updates epoch (raw ∷ raws) o = update epoch raw (updates epoch raws o)

  -- Within an epoch, the offset stays.
  abbrev Settled : ℕ → Pose2 → ContinuousOdometry → Type 0
  Settled epoch offset o =
      (o.initialized ≡ true) × (o.reset ≡ false) × (o.epoch ≡ epoch) × (o.offset ≡ offset)

  entered-Settled :
      (epoch : ℕ) (raw offset : Pose2) (o : ContinuousOdometry)
      → Settled epoch offset o
      → entered epoch raw o ≡ o
  entered-Settled epoch raw offset o (i, r, e, f) =
      if-elim (λ (u : ContinuousOdometry). u ≡ o) (not o.initialized) _ _ (λ h. absurd (cc (i, h)))
        λ _.
          if-elim (λ (u : ContinuousOdometry). u ≡ o) (o.reset || not (epoch == o.epoch)) _ _
            (λ h. absurd (ground (arith, r, e, h))) (λ _. refl)

  update-Settled :
      (epoch : ℕ) (raw offset : Pose2) (o : ContinuousOdometry)
      → Settled epoch offset o
      → Settled epoch offset (update epoch raw o)
  update-Settled epoch raw offset o s =
      subst
        (λ (u : ContinuousOdometry). Settled epoch offset (record u { last = moved u.offset raw }))
        (sym (entered-Settled epoch raw offset o s)) s

  updates-Settled :
      (epoch : ℕ) (raws : List Pose2) (offset : Pose2) (o : ContinuousOdometry)
      → Settled epoch offset o
      → Settled epoch offset (updates epoch raws o)
  updates-Settled epoch [] offset o s = s
  updates-Settled epoch (raw ∷ raws) offset o s =
      update-Settled epoch raw offset _ (updates-Settled epoch raws offset o s)

  -- The first sample of an epoch that is not the first one.
  first-Settled :
      (epoch : ℕ) (raw : Pose2) (o : ContinuousOdometry)
      → o.initialized ≡ true
      → o.reset || not (epoch == o.epoch) ≡ true
      → Settled epoch (aligned o.last raw) (update epoch raw o)
  first-Settled epoch raw o i e =
      let P = λ (u : ContinuousOdometry).
        Settled epoch (aligned o.last raw) (record u { last = moved u.offset raw }) in
      if-elim P (not o.initialized) _ _ (λ h. absurd (cc (i, h)))
        λ _.
          if-elim P (o.reset || not (epoch == o.epoch)) _ _ (λ _. (i, refl, refl, refl))
            (λ h. absurd (cc (e, h)))

  -- In a walking epoch that is not the first one, or after newSession, and in any arithmetic:
  -- after the first sample of the epoch and any number of others, a sample is published by the
  -- motion that the first one was aligned with, at the pose that was published last before it;
  -- what came in between has no part in it.
  pub updates-rigid :
      (o : ContinuousOdometry) (epoch : ℕ) (first : Pose2) (between : List Pose2) (raw : Pose2)
      → o.initialized ≡ true
      → o.reset || not (epoch == o.epoch) ≡ true
      → (updates epoch (raw ∷ between) (update epoch first o)).last
        ≡ moved (aligned o.last first) raw
  updates-rigid o epoch first between raw i e =
      let before = updates epoch between (update epoch first o) in
      let s =
        updates-Settled epoch between (aligned o.last first) _ (first-Settled epoch first o i e) in
      ap (λ (u : ContinuousOdometry). moved u.offset raw) (entered-Settled epoch raw _ before s)
      ∙ ap (λ offset. moved offset raw) s.3
