-- ===== src/Stats.antt =====
-- `Stats` of src/Stats.hpp and src/Stats.cpp: the shared counters, the open window and what
-- closes it. Each method runs as one step.
pub mod Snap
pub mod Latency
pub mod Report
use mathlib.Core.List.{foldl}
use cks_loadtest.Base.Text.{Text}
use cks_loadtest.Base.{ℕ, zero, suc, ◌+◌, Bool, List, [], ◌∷◌, max, ltb, if◌then◌else◌}
use cks_loadtest.Base.Int.{ℤ, pos, negsuc}
use cks_loadtest.Base.Words.{u64, Counters, bump}
use Snap.{CounterSnap, minus, empty_snap, latency_buckets}

-- `kLatencyBounds`: the upper bounds, exclusive, of all buckets but the last.
abbrev pub latency_bounds : List ℕ
latency_bounds =
    1 ∷ 2 ∷ 3 ∷ 4 ∷ 5 ∷ 7 ∷ 10 ∷ 15 ∷ 20 ∷ 25 ∷ 30 ∷ 40 ∷ 50 ∷ 75 ∷ 100 ∷ 150 ∷ 200 ∷ 250 ∷ 400
    ∷ 600 ∷ 1000 ∷ 2000 ∷ []

pub record Stats : Type 0 where
  pub tx_packets : ℕ
  pub tx_bytes : ℕ
  pub tx_send_errors : ℕ
  pub rx_datagrams : ℕ
  pub rx_bytes : ℕ
  pub rx_bundles : ℕ
  pub rx_signed_bundles : ℕ
  pub rx_signed_members : ℕ
  pub tx_capabilities : ℕ
  pub rx_actor_notifications : ℕ
  pub rx_other_spatial : ℕ
  pub rx_error_messages : ℕ
  pub rx_reconnect_commands : ℕ
  pub rx_silent_reassigns : ℕ
  pub rcvbuf_set_failures : ℕ
  pub rx_hmac_failures : ℕ
  pub rx_malformed : ℕ
  pub token_refreshes : ℕ
  pub refreshes_kept_server : ℕ
  pub reassignments : ℕ
  pub control_failures : ℕ
  pub unauthorized_first_contact : ℕ
  pub unauthorized_window_reload : ℕ
  pub latency_samples : ℕ
  pub latency_sum_ms : ℕ
  pub latency_max_ms : ℕ
  pub latency_hist : Counters
  pub error_codes : Counters
  pub window_latency_max_ms : ℕ
  pub active_clients : ℤ
  pub suspended_clients : ℤ
  pub window_origin : CounterSnap
  pub rung_id : Text
  pub window_open_epoch_sec : ℕ
  pub window_open_steady : ℕ
  pub sign_in_reused : ℤ
  pub sign_in_minted_before : ℤ
  pub sign_in_minted_during : ℤ

unfoldable pub load_lifetime : Stats → CounterSnap
load_lifetime s = record {
  tx_packets = s.tx_packets;
  tx_bytes = s.tx_bytes;
  tx_send_errors = s.tx_send_errors;
  rx_datagrams = s.rx_datagrams;
  rx_bytes = s.rx_bytes;
  rx_bundles = s.rx_bundles;
  rx_signed_bundles = s.rx_signed_bundles;
  rx_signed_members = s.rx_signed_members;
  tx_capabilities = s.tx_capabilities;
  rx_actor_notifications = s.rx_actor_notifications;
  rx_other_spatial = s.rx_other_spatial;
  rx_error_messages = s.rx_error_messages;
  rx_reconnect_commands = s.rx_reconnect_commands;
  rx_silent_reassigns = s.rx_silent_reassigns;
  rcvbuf_set_failures = s.rcvbuf_set_failures;
  rx_hmac_failures = s.rx_hmac_failures;
  rx_malformed = s.rx_malformed;
  token_refreshes = s.token_refreshes;
  refreshes_kept_server = s.refreshes_kept_server;
  reassignments = s.reassignments;
  control_failures = s.control_failures;
  unauthorized_first_contact = s.unauthorized_first_contact;
  unauthorized_window_reload = s.unauthorized_window_reload;
  latency_samples = s.latency_samples;
  latency_sum_ms = s.latency_sum_ms;
  latency_max_ms = s.latency_max_ms;
  latency_hist = s.latency_hist;
  error_codes = s.error_codes;
  sign_in_reused = s.sign_in_reused;
  sign_in_minted_before = s.sign_in_minted_before;
  sign_in_minted_during = s.sign_in_minted_during;
}

-- `fetch_add(1)` on a `uint64_t` counter.
abbrev pub inc : ℕ → ℕ
inc n = u64 (n + 1)

-- The `for` loop over the bounds: the first bucket whose bound is above `ms`.
unfoldable pub bucket_from : ℕ → List ℕ → ℕ → ℕ
bucket_from i [] ms = i
bucket_from i (b ∷ bs) ms = let later = bucket_from (i + 1) bs ms in if ltb ms b then i else later

abbrev pub clamp_ms : ℤ → ℕ
clamp_ms (pos n) = n
clamp_ms (negsuc n) = 0

unfoldable pub record_latency_ms : Stats → ℤ → Stats
record_latency_ms s ms =
    let v = clamp_ms ms in
    record s {
      latency_samples = inc s.latency_samples;
      latency_sum_ms = u64 (s.latency_sum_ms + v);
      latency_max_ms = max s.latency_max_ms v;
      window_latency_max_ms = max s.window_latency_max_ms v;
      latency_hist = bump s.latency_hist (bucket_from 0 latency_bounds v);
    }

-- The clocks are arguments.
unfoldable pub mark_window : Stats → Text → ℕ → ℕ → Stats
mark_window s id epoch_sec steady = record s {
  window_origin = load_lifetime s;
  rung_id = id;
  window_open_epoch_sec = epoch_sec;
  window_open_steady = steady;
  window_latency_max_ms = 0;
}

unfoldable pub load_window : Stats → CounterSnap
load_window s =
    let d = minus (load_lifetime s) s.window_origin in
    record d { latency_max_ms = s.window_latency_max_ms }

unfoldable pub set_sign_in : Stats → ℤ → ℤ → ℤ → Stats
set_sign_in s reused minted_before minted_during = record s {
  sign_in_reused = reused;
  sign_in_minted_before = minted_before;
  sign_in_minted_during = minted_during;
}

-- The samples that arrive one after another.
unfoldable pub record_all : Stats → List ℤ → Stats
record_all = foldl record_latency_ms
