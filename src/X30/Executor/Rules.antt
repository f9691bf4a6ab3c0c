-- ===== src/X30/Executor/Rules.antt =====
-- What the routines of the executor do to the world, whatever the robot does: time goes on, no
-- command but theirs is sent, and a wait that succeeds has seen its state.
use nav_bridge.Prelude.{
  ℕ, suc, ◌≤◌, ◌≡◌, refl, ap, ◌∙◌, Bool, true, false, List, [], ◌∷◌, arith, ◌==◌, is_one_of,
  if◌then◌else◌,
}
use nav_bridge.Prelude.Exec.{Holds}
use nav_bridge.X30.Protocol.{cmd_heartbeat, cmd_query_103}
use nav_bridge.X30.Platform.{Platform, Reading, World, Sent}
use nav_bridge.X30.Executor.{Callbacks}

-- How many packets with this code were sent.
abbrev pub times : ℕ → List Sent → ℕ
times code [] = 0
times code (s ∷ rest) = if s.head.code == code then suc (times code rest) else times code rest

-- From `w` to `w'` only packets with these codes were sent, time did not go back, and the
-- suppression of /cmd_vel is as it was.
pub record IsLater (codes : List ℕ) (w w' : World) : Type 0 where
  pub not_before : w.now ≤ w'.now
  pub only : (code : ℕ) → is_one_of code codes ≡ false → times code w'.sent ≡ times code w.sent
  pub suppression : w'.cmd_vel_suppression_depth ≡ w.cmd_vel_suppression_depth

pub IsLater-refl : (codes : List ℕ) (w : World) → IsLater codes w w
IsLater-refl codes w = record {
  not_before = omega arith;
  only = λ code h. refl;
  suppression = refl;
}

pub IsLater-trans :
    {codes : List ℕ} {u v w : World} → IsLater codes u v → IsLater codes v w → IsLater codes u w
IsLater-trans h k = record {
  not_before = omega (arith, h.not_before, k.not_before);
  only = λ code e. k.only code e ∙ h.only code e;
  suppression = k.suppression ∙ h.suppression;
}

-- Every code of the first list is in the second.
abbrev pub Includes : List ℕ → List ℕ → Type 0
Includes codes more = (code : ℕ) → is_one_of code more ≡ false → is_one_of code codes ≡ false

pub IsLater-mono :
    {codes more : List ℕ} {w w' : World}
    → Includes codes more
    → IsLater codes w w'
    → IsLater more w w'
IsLater-mono h k = record {
  not_before = k.not_before;
  only = λ code e. k.only code (h code e);
  suppression = k.suppression;
}

-- What was sent, and the depth of the suppression.
abbrev pub output : World → List Sent × ℕ
output w = (w.sent, w.cmd_vel_suppression_depth)

pub IsLater-quiet :
    (codes : List ℕ) (w w' : World) → w.now ≤ w'.now → output w' ≡ output w → IsLater codes w w'
IsLater-quiet codes w w' h e = record {
  not_before = h;
  only = λ code _. ap (λ o. times code o.0) e;
  suppression = ap (λ o. o.1) e;
}

-- Some instant from `lo` on, and not after `w`, at which the reading passed the test.
pub record Saw (p : Platform) (q : Reading → Bool) (lo : ℕ) (w : World) : Type 0 where
  pub at : ℕ
  pub not_before : lo ≤ at
  pub not_after : at ≤ w.now
  pub seen : q (p.read at) ≡ true

pub Saw-until :
    {p : Platform} {q : Reading → Bool} {lo : ℕ} {u v : World}
    → u.now ≤ v.now
    → Saw p q lo u
    → Saw p q lo v
Saw-until h s = record {
  at = s.at;
  not_before = s.not_before;
  not_after = omega (arith, h, s.not_after);
  seen = s.seen;
}

pub Saw-later :
    {p : Platform} {q : Reading → Bool} {lo : ℕ} {codes : List ℕ} {u v : World}
    → IsLater codes u v
    → Saw p q lo u
    → Saw p q lo v
Saw-later h s = Saw-until h.not_before s

pub Saw-map :
    {p : Platform} {q q' : Reading → Bool} {lo : ℕ} {w : World}
    → ((r : Reading) → q r ≡ true → q' r ≡ true)
    → Saw p q lo w
    → Saw p q' lo w
Saw-map {p = p} f s = record {
  at = s.at;
  not_before = s.not_before;
  not_after = s.not_after;
  seen = f (p.read s.at) s.seen;
}

-- What the bridge's callbacks promise the executor: a warm-up comes to its end having sent nothing
-- but heartbeats and queries, and a command is sent once.
pub record IsCallbacks (c : Callbacks) : Type 0 where
  pub warmup_ends :
      (warmup_ms pulse_ms : ℕ) (w : World)
      → Holds ⊥
          (λ _ _. ⊥)
          (λ _ w'. IsLater (cmd_heartbeat ∷ cmd_query_103 ∷ []) w w')
          (c.control_warmup warmup_ms pulse_ms w)
  pub sender_later : (code : ℕ) (w : World) → IsLater (code ∷ []) w (c.command_sender code w)
  pub sender_sends :
      (code : ℕ) (w : World) → times code (c.command_sender code w).sent ≡ suc (times code w.sent)
