-- ===== src/Harness/Spread.antt =====
-- `Harness::distribute` of src/Harness.cpp.
pub mod HandOut
use cks_loadtest.Base.{
  ℕ, zero, suc, ◌+◌, ◌-◌, ◌*◌, ◌/◌, ◌%◌, ◌<◌, ◌≤◌, ◌≡◌, refl, ap, ◌∙◌, List, [], ◌∷◌, arith, length,
  length-append, if◌then◌else◌,
}
use cks_loadtest.Base.Int.{ℤ, pos, negsuc, pos_part, ltb_ℤ}
use cks_loadtest.Platform.{Floats}
use cks_loadtest.Config.{Config}
use cks_loadtest.Control.{ClientCredentials}
use cks_loadtest.Worker.Loop.{Worker, add_client}

-- `a % b` of C++ for a positive `b`: the remainder has the sign of `a`.
unfoldable pub rem : ℤ → ℕ → ℤ
rem (pos n) b = pos (n % b)
rem (negsuc n) b = if ltb_ℤ (pos 0) (pos (suc n % b)) then negsuc (suc n % b - 1) else pos 0

rem_lem : (z : ℤ) {b : ℕ} → 0 < b → pos_part (rem z b) < b
unfolding rem
rem_lem (pos n) h = omega arith
rem_lem (negsuc n) h = ground arith

module _ {fl : Floats} (cfg : Config fl) (ramp_start : ℕ) where
  -- `if (workerIdx < 0) workerIdx = 0;`
  unfoldable pub worker_index : ClientCredentials → ℕ
  worker_index c = pos_part (rem c.index (pos_part cfg.threads))

  -- `rampStart + milliseconds(batch * rampIntervalMs)` of client `i`, in nanoseconds, for a ramp
  -- that does not run backwards.
  unfoldable pub activation_time : ℕ → ℕ
  activation_time i =
      ramp_start + i / pos_part cfg.ramp_batch_size * pos_part cfg.ramp_interval_ms * 1_000_000

  worker_index-lt :
      (c : ClientCredentials) → 0 < pos_part cfg.threads → worker_index c < pos_part cfg.threads
  unfolding worker_index rem
  worker_index-lt c h = rem_lem c.index h

module _ {fl : Floats} {Gen : Type 0} where
  -- `workers_[i]->addClient(creds, at)`; an index out of range, which the source does not check,
  -- does nothing.
  unfoldable pub add_at : ℕ → ClientCredentials → ℕ → List (Worker fl Gen) → List (Worker fl Gen)
  add_at i creds at [] = []
  add_at zero creds at (w ∷ ws) = add_client creds at w ∷ ws
  add_at (suc i) creds at (w ∷ ws) = w ∷ add_at i creds at ws

  module _ (cfg : Config fl) (ramp_start : ℕ) where
    unfoldable pub distribute_from :
        ℕ → List ClientCredentials → List (Worker fl Gen) → List (Worker fl Gen)
    distribute_from i [] ws = ws
    distribute_from i (c ∷ cs) ws =
        distribute_from (suc i) cs
          (add_at (worker_index cfg ramp_start c) c (activation_time cfg ramp_start i) ws)

    unfoldable pub distribute : List ClientCredentials → List (Worker fl Gen) → List (Worker fl Gen)
    distribute cs ws = distribute_from 0 cs ws

  -- The clients that wait to be taken up by a worker.
  abbrev pub waiting_count : List (Worker fl Gen) → ℕ
  waiting_count [] = 0
  waiting_count (w ∷ ws) = length w.pending + waiting_count ws

  add_at-count :
      (i : ℕ) (creds : ClientCredentials) (at : ℕ) (ws : List (Worker fl Gen))
      → i < length ws
      → (waiting_count (add_at i creds at ws) ≡ waiting_count ws + 1)
        × (length (add_at i creds at ws) ≡ length ws)
  unfolding add_at add_client
  add_at-count i creds at [] h = absurd (omega arith)
  add_at-count zero creds at (w ∷ ws) h = (
    omega (arith, length-append w.pending (record { creds = creds; activate_at = at } ∷ [])),
    refl,
  )
  add_at-count (suc i) creds at (w ∷ ws) h =
      let p = add_at-count i creds at ws (omega arith) in (omega (arith, p.0), ap suc p.1)

  pub distribute_from-count :
      (cfg : Config fl) (start i : ℕ) (cs : List ClientCredentials) (ws : List (Worker fl Gen))
      → 0 < pos_part cfg.threads
      → pos_part cfg.threads ≤ length ws
      → (waiting_count (distribute_from cfg start i cs ws) ≡ waiting_count ws + length cs)
        × (length (distribute_from cfg start i cs ws) ≡ length ws)
  unfolding distribute_from
  distribute_from-count cfg start i [] ws h k = (omega arith, refl)
  distribute_from-count cfg start i (c ∷ cs) ws h k =
      let vs : List (Worker fl Gen) =
        add_at (worker_index cfg start c) c (activation_time cfg start i) ws in
      let lt = worker_index-lt cfg start c h in
      let one =
        add_at-count (worker_index cfg start c) c (activation_time cfg start i) ws (omega arith) in
      let more = distribute_from-count cfg start (suc i) cs vs h (omega (arith, one)) in
      (omega (arith, one, more), more.1 ∙ one.1)
