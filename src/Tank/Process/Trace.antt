-- ===== src/Tank/Process/Trace.antt =====
-- A run of a thread: what it asked, what it was answered, and what came of it. The sections may see any
-- state, since the other threads run in between.
use nav_bridge.Prelude.{
  ℕ, ◌≡◌, ◌⊎◌, inl, inr, refl, ap, Bool, true, false, List, [], ◌∷◌, ◌++◌, if◌then◌else◌,
}
use nav_bridge.Backend.{Doubles}
use nav_bridge.Tank.State.{Tank}
use nav_bridge.Tank.Process.{Request, Reply, Process, done, section, ask, ◌>>=◌}

abbrev pub Log : Doubles → Type 0
Log d = List (Request d × Reply)

-- One of the exchanges is such.
pub data Has {A : Type 0} (P : A → Type 0) : List A → Type 0 where
  first : {x : A} {xs : List A} → P x → Has P (x ∷ xs)
  later : {x : A} {xs : List A} → Has P xs → Has P (x ∷ xs)

module _ {A : Type 0} {P : A → Type 0} where
  pub Has-left : {xs : List A} (ys : List A) → Has P xs → Has P (xs ++ ys)
  Has-left ys (Has.first h) = Has.first h
  Has-left ys (Has.later h) = Has.later (Has-left ys h)

  pub Has-right : (xs : List A) {ys : List A} → Has P ys → Has P (xs ++ ys)
  Has-right [] h = h
  Has-right (x ∷ xs) h = Has.later (Has-right xs h)

module _ {d : Doubles} {A : Type 0} where
  pub data Trace : Process d A → Log d → A → Type 0 where
    ends : {a : A} → Trace (done a) [] a
    keeps :
        {f : ℕ → Tank d → Tank d} {k : ℕ → Tank d → Process d A} {log : Log d} {a : A} (now : ℕ)
        (t : Tank d)
        → Trace (k now t) log a
        → Trace (section f k) log a
    asks :
        {r : Request d} {k : Reply → Process d A} {log : Log d} {a : A} (reply : Reply)
        → Trace (k reply) log a
        → Trace (ask r k) ((r, reply) ∷ log) a

  pub Trace-done : {a b : A} {log : Log d} → Trace (done a) log b → (log ≡ []) × (b ≡ a)
  Trace-done Trace.ends = (refl, refl)

module _ {d : Doubles} {A B : Type 0} where
  -- The run of a part, and the run of the rest.
  pub record Parts (m : Process d A) (f : A → Process d B) (log : Log d) (b : B) : Type 0 where
    pub front : Log d
    pub value : A
    pub back : Log d
    pub head : Trace m front value
    pub rest : Trace (f value) back b
    pub split : log ≡ front ++ back

  pub Trace-bind :
      (m : Process d A) (f : A → Process d B) {log : Log d} {b : B}
      → Trace (m >>= f) log b
      → Parts m f log b
  unfolding ◌>>=◌
  Trace-bind (done a) f {log = log} h = record {
    front = [];
    value = a;
    back = log;
    head = Trace.ends;
    rest = h;
    split = refl;
  }
  Trace-bind (section u k) f (Trace.keeps now t h) =
      let p = Trace-bind (k now t) f h in
      record {
        front = p.front;
        value = p.value;
        back = p.back;
        head = Trace.keeps now t p.head;
        rest = p.rest;
        split = p.split;
      }
  Trace-bind (ask r k) f (Trace.asks reply h) =
      let p = Trace-bind (k reply) f h in
      record {
        front = (r, reply) ∷ p.front;
        value = p.value;
        back = p.back;
        head = Trace.asks reply p.head;
        rest = p.rest;
        split = ap (λ l. (r, reply) ∷ l) p.split;
      }

module _ {A : Type 0} {P Q : A → Type 0} where
  pub Has-map : {xs : List A} → ((x : A) → P x → Q x) → Has P xs → Has Q xs
  Has-map f (Has.first h) = Has.first (f _ h)
  Has-map f (Has.later h) = Has.later (Has-map f h)

module _ {d : Doubles} {A : Type 0} where
  pub Trace-if :
      (b : Bool) (p q : Process d A) {log : Log d} {a : A}
      → Trace (if b then p else q) log a
      → ((b ≡ true) × Trace p log a) ⊎ ((b ≡ false) × Trace q log a)
  Trace-if true p q h = inl (refl, h)
  Trace-if false p q h = inr (refl, h)
