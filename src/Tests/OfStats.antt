-- ===== src/Tests/OfStats.antt =====
-- Witnesses for the counters.
use cks_loadtest.Base.{ℕ, ◌-◌, ◌≤◌, ◌<◌, ◌≡◌, ◌^◌, List, [], ◌∷◌, ◌++◌, map, arith, get_or}
use cks_loadtest.Base.Int.{ℤ, pos, negsuc, ◌+ℤ◌}
use cks_loadtest.Base.Text.{codes}
use cks_loadtest.Base.Words.{bump, sum_below}
use cks_loadtest.Control.{ControlRequest, reassign, refresh}
use cks_loadtest.Control.Fifo.{QueueOp, pushes, pops, shuts_down, run_ops, Drains, run_ops-Drains}
use cks_loadtest.Stats.{latency_bounds, load_window, mark_window, record_all, record_latency_ms}
use cks_loadtest.Stats.Snap.{CounterSnap, plus, minus, empty_snap}
use cks_loadtest.Stats.Snap.Algebra.{IsEarlier, plus-minus}
use cks_loadtest.Stats.Latency.{Fits, in_bucket, record_latency_ms_bucket, load_window-record_all}
use cks_loadtest.Tests.{no_stats, no_requests, credentials}

abbrev some_snap : CounterSnap
some_snap = record empty_snap {
  tx_packets = 2 ^ 64 - 1;
  latency_max_ms = 12;
  sign_in_reused = negsuc 4;
}

abbrev later_snap : CounterSnap
later_snap = record empty_snap { tx_packets = 40; latency_max_ms = 12; sign_in_reused = pos 4 }

abbrev samples : List ℤ
samples = pos 7 ∷ negsuc 3 ∷ pos 5000 ∷ []

abbrev two_requests : List ControlRequest
two_requests =
    record { worker_index = 0; client_index = 4; kind = refresh; creds = credentials }
    ∷ record { worker_index = 1; client_index = 2; kind = reassign; creds = credentials }
    ∷ []

grown : IsEarlier empty_snap later_snap
unfolding empty_snap ◌+ℤ◌
grown = ground arith

plus-minus_example : plus (minus later_snap empty_snap) empty_snap ≡ later_snap
plus-minus_example = plus-minus later_snap empty_snap grown

record_latency_ms_bucket_example :
    (i : ℕ) × (i ≤ 22)
    × (i < 22 → 30 < get_or latency_bounds i 0)
    × ((k : ℕ) → k < i → get_or latency_bounds k 0 ≤ 30)
    × ((record_latency_ms no_stats (pos 30)).latency_hist ≡ bump no_stats.latency_hist i)
record_latency_ms_bucket_example = record_latency_ms_bucket no_stats (pos 30)

samples_fit : Fits no_stats samples
samples_fit = record {
  samples_fit = omega arith;
  sum_fits = omega arith;
  hist_fits = λ i. omega arith;
}

load_window-record_all_example :
    let w = load_window (record_all (mark_window no_stats (codes "r1") 1 2) samples) in
    (w.latency_samples ≡ 3)
    × (w.latency_sum_ms ≡ 5007)
    × (w.latency_max_ms ≡ 5000)
    × ((i : ℕ) → w.latency_hist i ≡ in_bucket samples i)
    × (sum_below 23 w.latency_hist ≡ 3)
load_window-record_all_example =
    load_window-record_all no_stats (codes "r1") 1 2 samples samples_fit

-- A pop that finds nothing, and pops before and after a shutdown.
abbrev queue_run : List QueueOp
queue_run = pops ∷ (map pushes two_requests ++ (pops ∷ shuts_down ∷ []))

run_ops-Drains_example :
    let (taken, last) = run_ops queue_run no_requests in
    (taken ++ last.queue ≡ two_requests) × Drains last.queue last
run_ops-Drains_example = run_ops-Drains queue_run no_requests
