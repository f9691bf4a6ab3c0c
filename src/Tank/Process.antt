-- ===== src/Tank/Process.antt =====
-- A thread of the Tank backend: sections that hold the mutex of the state, and HTTP requests, at
-- which it waits. Between any two of them other threads may run.
pub mod Trace
use nav_bridge.Prelude.{ℕ, Bool, Option}
use nav_bridge.Backend.{Doubles}
use nav_bridge.Tank.State.{Tank}
use Prim.Native.String.{String}

-- The bodies that the code sends.
pub data Body (d : Doubles) : Type 0 where
  velocity : d.Value → d.Value → Body d
  set_brake : Bool → Body d

pub record Request (d : Doubles) : Type 0 where
  pub path : String
  pub body : Option (Body d)

-- The codes of `curl_easy_perform` that the code names, and any other.
pub data CurlCode : Type 0 where
  operation_timedout couldnt_connect couldnt_resolve_host recv_error send_error got_nothing
        partial_file other_code :
      CurlCode

-- What comes of a request: a failure with its text, or a status and the body received.
pub data Reply : Type 0 where
  curl_failed : CurlCode → String → Reply
  answered : ℕ → String → Reply

-- `section f k` runs `f` at some instant; `k` sees the state before it.
pub data Process (d : Doubles) (A : Type 0) : Type 0 where
  done : A → Process d A
  section : (ℕ → Tank d → Tank d) → (ℕ → Tank d → Process d A) → Process d A
  ask : Request d → (Reply → Process d A) → Process d A

module _ {d : Doubles} {A B : Type 0} where
  infixl 5 ◌>>=◌
  unfoldable pub ◌>>=◌ : Process d A → (A → Process d B) → Process d B
  done a >>= f = f a
  section u k >>= f = section u (λ now t. k now t >>= f)
  ask r k >>= f = ask r (λ reply. k reply >>= f)

infixl 5 ◌>>◌
abbrev pub ◌>>◌ : {d : Doubles} {B : Type 0} → Process d (Unit {0}) → Process d B → Process d B
m >> k = m >>= λ _. k

module _ {d : Doubles} where
  -- A section with a value.
  abbrev pub atomic : {A : Type 0} → (ℕ → Tank d → A × Tank d) → Process d A
  atomic f = section (λ now t. (f now t).1) (λ now t. done (f now t).0)

  -- A section without one.
  abbrev pub update : (ℕ → Tank d → Tank d) → Process d (Unit {0})
  update f = section f (λ now t. done tt)

  -- A section that only reads.
  abbrev pub look : {A : Type 0} → (ℕ → Tank d → A) → Process d A
  look f = section (λ now t. t) (λ now t. done (f now t))
