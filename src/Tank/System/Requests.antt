-- ===== src/Tank/System/Requests.antt =====
-- What the threads of the Tank backend ask of the device.
pub mod Threads
pub mod Reaches
pub mod Moves
use nav_bridge.Prelude.{ℕ, Bool, true, false, ◌||◌, ◌≡◌, Option, if◌then◌else◌}
use nav_bridge.Backend.{Doubles}
use nav_bridge.Tank.State.{Tank}
use nav_bridge.Tank.Process.{Request, Reply, Process, done, section, ask, ◌>>=◌}

module _ {d : Doubles} {A : Type 0} where
  -- Whatever happens, every request of the thread is one of these.
  pub data Only (P : Request d → Type 0) : Process d A → Type 0 where
    ends : {a : A} → Only P (done a)
    keeps :
        {f : ℕ → Tank d → Tank d} {k : ℕ → Tank d → Process d A}
        → ((now : ℕ) (t : Tank d) → Only P (k now t))
        → Only P (section f k)
    asks :
        {r : Request d} {k : Reply → Process d A}
        → P r
        → ((reply : Reply) → Only P (k reply))
        → Only P (ask r k)

  pub Only-if :
      {P : Request d → Type 0} (b : Bool) {p q : Process d A}
      → Only P p
      → Only P q
      → Only P (if b then p else q)
  Only-if true h k = h
  Only-if false h k = k

module _ {d : Doubles} {A B : Type 0} where
  pub Only-bind :
      {P : Request d → Type 0} {m : Process d A} {f : A → Process d B}
      → Only P m
      → ((a : A) → Only P (f a))
      → Only P (m >>= f)
  unfolding ◌>>=◌
  Only-bind Only.ends k = k _
  Only-bind (Only.keeps h) k = Only.keeps (λ now t. Only-bind (h now t) k)
  Only-bind (Only.asks e h) k = Only.asks e (λ reply. Only-bind (h reply) k)
