-- ===== src/Harness/Spread/HandOut.antt =====
-- Which client `distribute` hands to which worker.
use cks_loadtest.Base.{
  ℕ, zero, suc, ◌+◌, ◌*◌, ◌/◌, ◌%◌, ◌<◌, ◌≤◌, ◌≡◌, refl, sym, ap, ◌∙◌, true, false, List, [], ◌∷◌,
  ◌++◌, ◌==◌, arith, length, append_assoc, append-nil, if◌then◌else◌,
}
use cks_loadtest.Base.Int.{ℤ, pos, negsuc, pos_part}
use cks_loadtest.Platform.{Floats}
use cks_loadtest.Config.{Config}
use cks_loadtest.Control.{ClientCredentials}
use cks_loadtest.Worker.Loop.{Worker, PendingAdd, add_client}
use cks_loadtest.Harness.Spread.{
  rem, worker_index, activation_time, add_at, distribute_from, distribute, waiting_count,
  distribute_from-count,
}

-- The worker that an index belongs to: the remainder, and the first one for a negative index.
abbrev pub owner : ℤ → ℕ → ℕ
owner (pos n) threads = n % threads
owner (negsuc n) threads = 0

rem-owner : (z : ℤ) (threads : ℕ) → pos_part (rem z threads) ≡ owner z threads
unfolding rem
rem-owner (pos n) threads = refl
rem-owner (negsuc n) threads = ground arith

module _ {fl : Floats} (cfg : Config fl) (start : ℕ) where
  -- Client `i` of a call, with the time of its batch.
  abbrev pub due : ℕ → ClientCredentials → PendingAdd
  due i c = record {
    creds = c;
    activate_at =
        start + i / pos_part cfg.ramp_batch_size * pos_part cfg.ramp_interval_ms * 1_000_000;
  }

  -- The clients of worker `k` among `cs`, the first of which is client `i` of the call, in order.
  abbrev pub share : ℕ → ℕ → List ClientCredentials → List PendingAdd
  share k i [] = []
  share k i (c ∷ cs) =
      let later = share k (suc i) cs in
      if owner c.index (pos_part cfg.threads) == k then due i c ∷ later else later

  share-own :
      (k i : ℕ) (c : ClientCredentials) (cs : List ClientCredentials)
      → owner c.index (pos_part cfg.threads) ≡ k
      → share k i (c ∷ cs) ≡ due i c ∷ share k (suc i) cs
  share-own k i c cs e =
      let same : (owner c.index (pos_part cfg.threads) == k) ≡ true = ground arith in rw same refl

  share-other :
      (k i : ℕ) (c : ClientCredentials) (cs : List ClientCredentials)
      → (owner c.index (pos_part cfg.threads) == k) ≡ false
      → share k i (c ∷ cs) ≡ share k (suc i) cs
  share-other k i c cs e = rw e refl

  module _ {Gen : Type 0} where
    -- The workers from number `k` on, each with its share behind what waits there.
    abbrev pub hand_out :
        ℕ → ℕ → List ClientCredentials → List (Worker fl Gen) → List (Worker fl Gen)
    hand_out k i cs [] = []
    hand_out k i cs (w ∷ ws) =
        record w { pending = w.pending ++ share k i cs } ∷ hand_out (suc k) i cs ws

    with_pending :
        (w : Worker fl Gen) {ps qs : List PendingAdd} {us vs : List (Worker fl Gen)}
        → ps ≡ qs
        → us ≡ vs
        → record w { pending = ps } ∷ us ≡ record w { pending = qs } ∷ vs
    with_pending w p q = λ j. record w { pending = p j } ∷ q j

    hand_out-none : (k i : ℕ) (ws : List (Worker fl Gen)) → hand_out k i [] ws ≡ ws
    hand_out-none k i [] = refl
    hand_out-none k i (w ∷ ws) = with_pending w (append-nil w.pending) (hand_out-none (suc k) i ws)

    -- Workers past the owner of the first client.
    hand_out-past :
        (k i : ℕ) (c : ClientCredentials) (cs : List ClientCredentials) (ws : List (Worker fl Gen))
        → owner c.index (pos_part cfg.threads) < k
        → hand_out k (suc i) cs ws ≡ hand_out k i (c ∷ cs) ws
    hand_out-past k i c cs [] h = refl
    hand_out-past k i c cs (w ∷ ws) h =
        with_pending w (ap (◌++◌ w.pending) (sym (share-other k i c cs (ground arith))))
          (hand_out-past (suc k) i c cs ws (omega arith))

    hand_out-add :
        (k n i : ℕ) (c : ClientCredentials) (cs : List ClientCredentials)
        (ws : List (Worker fl Gen))
        → owner c.index (pos_part cfg.threads) ≡ k + n
        → hand_out k (suc i) cs (add_at n c (activation_time cfg start i) ws)
          ≡ hand_out k i (c ∷ cs) ws
    unfolding add_at add_client activation_time
    hand_out-add k n i c cs [] h = refl
    hand_out-add k zero i c cs (w ∷ ws) h =
        with_pending w
          (append_assoc w.pending (due i c ∷ []) (share k (suc i) cs)
            ∙ ap (◌++◌ w.pending) (sym (share-own k i c cs (omega (arith, h)))))
          (hand_out-past (suc k) i c cs ws (omega (arith, h)))
    hand_out-add k (suc n) i c cs (w ∷ ws) h =
        with_pending w (ap (◌++◌ w.pending) (sym (share-other k i c cs (ground (arith, h)))))
          (hand_out-add (suc k) n i c cs ws (omega (arith, h)))

    distribute_from-hand_out :
        (i : ℕ) (cs : List ClientCredentials) (ws : List (Worker fl Gen))
        → distribute_from cfg start i cs ws ≡ hand_out 0 i cs ws
    unfolding distribute_from worker_index
    distribute_from-hand_out i [] ws = sym (hand_out-none 0 i ws)
    distribute_from-hand_out i (c ∷ cs) ws =
        distribute_from-hand_out (suc i) cs _
        ∙ hand_out-add 0 (pos_part (rem c.index (pos_part cfg.threads))) i c cs ws
            (omega (arith, rem-owner c.index (pos_part cfg.threads)))

-- `distribute` gives each worker, behind what waits there, exactly the clients whose index is its number
-- modulo the threads (those with a negative index go to the first), in order, each with the activation
-- time of its batch, and changes nothing else. With a worker for each configured thread no client is
-- lost: as many more clients wait as are handed over.
pub distribute-hand_out :
    {fl : Floats} {Gen : Type 0} (cfg : Config fl) (start : ℕ) (cs : List ClientCredentials)
    (ws : List (Worker fl Gen))
    → 0 < pos_part cfg.threads
    → pos_part cfg.threads ≤ length ws
    → (distribute cfg start cs ws ≡ hand_out cfg start 0 0 cs ws)
      × (waiting_count (distribute cfg start cs ws) ≡ waiting_count ws + length cs)
unfolding distribute
distribute-hand_out cfg start cs ws h k =
    (distribute_from-hand_out cfg start 0 cs ws, (distribute_from-count cfg start 0 cs ws h k).0)
