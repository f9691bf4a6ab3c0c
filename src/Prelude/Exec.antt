-- ===== src/Prelude/Exec.antt =====
-- A routine over a mutable state that may leave early: what C++ writes as a sequence of statements
-- with `return` among them. `starved` marks a loop that has used up its fuel.
use mathlib.Core.Path.{◌≡◌, refl, subst}
use mathlib.Core.Bool.{Bool, true, false}
use mathlib.Core.Option.{Option, none, some}
use nav_bridge.Prelude.Tests.{if◌then◌else◌}

pub data Flow (R A : Type 0) : Type 0 where
  next : A → Flow R A
  exit : R → Flow R A
  starved : Flow R A

-- The state is passed on whether the routine goes on or leaves.
abbrev pub Exec : Type 0 → Type 0 → Type 0 → Type 0
Exec W R A = W → Flow R A × W

module _ {W R A : Type 0} where
  pub pure : A → Exec W R A
  pure a w = (next a, w)

  -- `return r;`
  pub leave : R → Exec W R A
  leave r w = (exit r, w)

  -- A statement that cannot leave.
  pub lift : (W → A × W) → Exec W R A
  lift f w = let (a, w') = f w in (next a, w')

  -- The fuel of a loop has run out.
  pub starve : Exec W R A
  starve w = (starved, w)

module _ {W R : Type 0} where
  -- A statement that changes the state only.
  pub act : (W → W) → Exec W R (Unit {0})
  act f w = (next tt, f w)

  -- `if (!b) return r;`
  pub require : Bool → R → Exec W R (Unit {0})
  require true r w = (next tt, w)
  require false r w = (exit r, w)

module _ {W R A B : Type 0} where
  continue : Flow R A × W → (A → Exec W R B) → Flow R B × W
  continue (next a, w) f = f a w
  continue (exit r, w) f = (exit r, w)
  continue (starved, w) f = (starved, w)

  infixl 5 ◌>>=◌
  -- opening this opens the other statements too
  unfoldable pub ◌>>=◌ : Exec W R A → (A → Exec W R B) → Exec W R B
  unfolding pure leave lift starve act require continue
  ◌>>=◌ m f w = continue (m w) f

infixl 5 ◌>>◌
abbrev pub ◌>>◌ : {W R B : Type 0} → Exec W R (Unit {0}) → Exec W R B → Exec W R B
m >> k = m >>= λ _. k

module _ {W R R' : Type 0} where
  come_back : Flow R R × W → Flow R' R × W
  come_back (next r, w) = (next r, w)
  come_back (exit r, w) = (next r, w)
  come_back (starved, w) = (starved, w)

  -- A call within a routine: the early returns of `m` end `m` only.
  unfoldable pub enclose : Exec W R R → Exec W R' R
  unfolding come_back
  enclose m w = come_back (m w)

abbrev pub returned : {W R : Type 0} → Flow R R × W → Option R × W
returned (next r, w) = (some r, w)
returned (exit r, w) = (some r, w)
returned (starved, w) = (none, w)

-- A call: whether it falls off the end or leaves early, its caller gets the result.
abbrev pub call : {W R : Type 0} → Exec W R R → W → Option R × W
call m w = returned (m w)

-- A triple: from a state with `P` the routine goes on with `Q` or leaves with `E`. `S` is claimed
-- where the fuel ran out: with `⊥` for it the triple says that this does not happen.
module _ {W R : Type 0} (S : Type 0) (E : R → W → Type 0) where
  abbrev pub Holds : {A : Type 0} → (A → W → Type 0) → Flow R A × W → Type 0
  Holds Q (next a, w) = Q a w
  Holds Q (exit r, w) = E r w
  Holds Q (starved, w) = S

  pub record Runs {A : Type 0} (P : W → Type 0) (m : Exec W R A) (Q : A → W → Type 0) : Type 0 where
    pub at : (w : W) → P w → Holds Q (m w)

module _ {W R : Type 0} (S : Type 0) (E : R → W → Type 0) where
  Holds-post :
      {A : Type 0} (Q Q' : A → W → Type 0) (r : Flow R A × W)
      → ((a : A) (w : W) → Q a w → Q' a w)
      → Holds S E Q r
      → Holds S E Q' r
  Holds-post Q Q' (next a, w) f h = f a w h
  Holds-post Q Q' (exit r, w) f h = h
  Holds-post Q Q' (starved, w) f h = h

module _ {W R : Type 0} {S : Type 0} {E : R → W → Type 0} where
  pub Runs-pure :
      {A : Type 0} {P : W → Type 0} {Q : A → W → Type 0} (a : A)
      → ((w : W) → P w → Q a w)
      → Runs S E P (pure a) Q
  unfolding pure
  Runs-pure a h = record { at = h }

  pub Runs-leave :
      {A : Type 0} {P : W → Type 0} {Q : A → W → Type 0} (r : R)
      → ((w : W) → P w → E r w)
      → Runs S E P (leave r) Q
  unfolding leave
  Runs-leave r h = record { at = h }

  pub Runs-starve :
      {A : Type 0} {P : W → Type 0} {Q : A → W → Type 0} → ((w : W) → P w → S) → Runs S E P starve Q
  unfolding starve
  Runs-starve h = record { at = h }

  pub Runs-lift :
      {A : Type 0} {P : W → Type 0} {Q : A → W → Type 0} (f : W → A × W)
      → ((w : W) → P w → Q (f w).0 (f w).1)
      → Runs S E P (lift f) Q
  unfolding lift
  Runs-lift f h = record { at = h }

  pub Runs-act :
      {P : W → Type 0} {Q : Unit {0} → W → Type 0} (f : W → W)
      → ((w : W) → P w → Q tt (f w))
      → Runs S E P (act f) Q
  unfolding act
  Runs-act f h = record { at = h }

  pub Runs-require :
      {P : W → Type 0} {Q : Unit {0} → W → Type 0} (b : Bool) (r : R)
      → ((w : W) → b ≡ true → P w → Q tt w)
      → ((w : W) → b ≡ false → P w → E r w)
      → Runs S E P (require b r) Q
  unfolding require
  Runs-require true r good bad = record { at = λ w h. good w refl h }
  Runs-require false r good bad = record { at = λ w h. bad w refl h }

  pub Runs-if :
      {A : Type 0} {P : W → Type 0} {Q : A → W → Type 0} (b : Bool) (m n : Exec W R A)
      → (b ≡ true → Runs S E P m Q)
      → (b ≡ false → Runs S E P n Q)
      → Runs S E P (if b then m else n) Q
  Runs-if true m n h k = h refl
  Runs-if false m n h k = k refl

  continue-Holds :
      {A B : Type 0} (T : A → W → Type 0) (Q : B → W → Type 0) (r : Flow R A × W)
      (f : A → Exec W R B)
      → Holds S E T r
      → ((a : A) → Runs S E (T a) (f a) Q)
      → Holds S E Q (continue r f)
  unfolding continue
  continue-Holds T Q (next a, w) f h k = (k a).at w h
  continue-Holds T Q (exit r, w) f h k = h
  continue-Holds T Q (starved, w) f h k = h

  pub Runs-bind :
      {A B : Type 0} {P : W → Type 0} (T : A → W → Type 0) {Q : B → W → Type 0} (m : Exec W R A)
      (f : A → Exec W R B)
      → Runs S E P m T
      → ((a : A) → Runs S E (T a) (f a) Q)
      → Runs S E P (m >>= f) Q
  unfolding ◌>>=◌
  Runs-bind T {Q = Q} m f h k = record { at = λ w x. continue-Holds T Q (m w) f (h.at w x) k }

  -- A step that keeps what is known.
  pub Keeps-bind :
      {A B : Type 0} {P : W → Type 0} {Q : B → W → Type 0} (m : Exec W R A) (f : A → Exec W R B)
      → Runs S E P m (λ _. P)
      → ((a : A) → Runs S E P (f a) Q)
      → Runs S E P (m >>= f) Q
  Keeps-bind {P = P} m f h k = Runs-bind (λ _. P) m f h k

  pub Runs-pre :
      {A : Type 0} {P P' : W → Type 0} {Q : A → W → Type 0} {m : Exec W R A}
      → ((w : W) → P' w → P w)
      → Runs S E P m Q
      → Runs S E P' m Q
  Runs-pre f h = record { at = λ w x. h.at w (f w x) }

  pub Runs-post :
      {A : Type 0} {P : W → Type 0} {Q Q' : A → W → Type 0} {m : Exec W R A}
      → ((a : A) (w : W) → Q a w → Q' a w)
      → Runs S E P m Q
      → Runs S E P m Q'
  Runs-post {Q = Q} {Q'} {m} f h = record { at = λ w x. Holds-post S E Q Q' (m w) f (h.at w x) }

module _ {W R R' : Type 0} (S : Type 0) (E : R → W → Type 0) (E' : R' → W → Type 0) where
  come_back-Holds :
      (x : Flow R R × W) {r : R} {w' : W}
      → returned x ≡ (some r, w')
      → E r w'
      → Holds S E' E (come_back x)
  unfolding come_back
  come_back-Holds (next a, w) e h = subst {A = R × W} (λ y. E y.0 y.1) (cc e) h
  come_back-Holds (exit a, w) e h = subst {A = R × W} (λ y. E y.0 y.1) (cc e) h
  come_back-Holds (starved, w) e h = absurd (cc e)

  -- What a call that has come back says of the routine around it.
  pub Holds-enclose :
      (m : Exec W R R) (w : W) {r : R} {w' : W}
      → call m w ≡ (some r, w')
      → E r w'
      → Holds S E' E (enclose m w)
  unfolding enclose
  Holds-enclose m w e h = come_back-Holds (m w) e h

module _ {W R : Type 0} (S : Type 0) (E : R → W → Type 0) where
  -- A routine that neither leaves nor starves, where one that may is expected.
  pub Holds-ended :
      {A : Type 0} (I Q : A → W → Type 0) (r : Flow R A × W)
      → Holds ⊥ (λ _ _. ⊥) I r
      → ((a : A) (w : W) → I a w → Q a w)
      → Holds S E Q r
  Holds-ended I Q (next a, w) h k = k a w h
  Holds-ended I Q (exit r, w) h k = absurd h
  Holds-ended I Q (starved, w) h k = absurd h

module _ {W R : Type 0} where
  pub Holds-next :
      {A : Type 0} (Q : A → W → Type 0) (r : Flow R A × W)
      → Holds ⊥ (λ _ _. ⊥) Q r
      → (a : A) × (w : W) × (r ≡ (next a, w)) × Q a w
  Holds-next Q (next a, w) h = (a, w, refl, h)
  Holds-next Q (exit r, w) h = absurd h
  Holds-next Q (starved, w) h = absurd h

  -- A routine that never starves returns to its caller.
  pub Holds-returned :
      (Q : R → W → Type 0) (r : Flow R R × W)
      → Holds ⊥ Q Q r
      → (a : R) × (w : W) × (returned r ≡ (some a, w)) × Q a w
  Holds-returned Q (next a, w) h = (a, w, refl, h)
  Holds-returned Q (exit r, w) h = (r, w, refl, h)
  Holds-returned Q (starved, w) h = absurd h

  module _ (S : Type 0) (Q : R → W → Type 0) where
    -- What a triple says of a routine that has returned.
    returned-Holds :
        (x : Flow R R × W) {r : R} {w' : W} → Holds S Q Q x → returned x ≡ (some r, w') → Q r w'
    returned-Holds (next a, w) {r} {w'} h e = subst {A = R × W} (λ y. Q y.0 y.1) (cc e) h
    returned-Holds (exit a, w) {r} {w'} h e = subst {A = R × W} (λ y. Q y.0 y.1) (cc e) h
    returned-Holds (starved, w) h e = absurd (cc e)

    pub Holds-call :
        (m : Exec W R R) (w : W) {r : R} {w' : W}
        → Holds S Q Q (m w)
        → call m w ≡ (some r, w')
        → Q r w'
    Holds-call m w h e = returned-Holds (m w) h e
