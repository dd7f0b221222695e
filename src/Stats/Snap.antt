-- ===== src/Stats/Snap.antt =====
-- `CounterSnap` of src/Stats.hpp and src/Stats.cpp: a mergeable snapshot of the counters.
-- `uint64_t` counters wrap; an array is a function of its index.
pub mod Algebra
use cks_loadtest.Base.{ℕ, ◌+◌, ◌-◌, Bool, max, leb, if◌then◌else◌}
use cks_loadtest.Base.Int.{ℤ, pos, ◌+ℤ◌, ◌-ℤ◌, ltb_ℤ}
use cks_loadtest.Base.Words.{u64, Counters}

abbrev pub latency_buckets : ℕ
latency_buckets = 23

pub record CounterSnap : Type 0 where
  pub tx_packets : ℕ
  pub tx_bytes : ℕ
  pub tx_send_errors : ℕ
  pub rx_datagrams : ℕ
  pub rx_bytes : ℕ
  pub rx_bundles : ℕ
  pub rx_signed_bundles : ℕ
  pub rx_signed_members : ℕ
  pub tx_capabilities : ℕ
  pub rx_actor_notifications : ℕ
  pub rx_other_spatial : ℕ
  pub rx_error_messages : ℕ
  pub rx_reconnect_commands : ℕ
  pub rx_silent_reassigns : ℕ
  pub rcvbuf_set_failures : ℕ
  pub rx_hmac_failures : ℕ
  pub rx_malformed : ℕ
  pub token_refreshes : ℕ
  pub refreshes_kept_server : ℕ
  pub reassignments : ℕ
  pub control_failures : ℕ
  pub unauthorized_first_contact : ℕ
  pub unauthorized_window_reload : ℕ
  pub latency_samples : ℕ
  pub latency_sum_ms : ℕ
  pub latency_max_ms : ℕ
  pub latency_hist : Counters
  pub error_codes : Counters
  pub sign_in_reused : ℤ
  pub sign_in_minted_before : ℤ
  pub sign_in_minted_during : ℤ

unfoldable pub sat_sub : ℕ → ℕ → ℕ
sat_sub a b = if leb b a then a - b else 0

-- The difference is taken in `long long`, so it does not overflow.
unfoldable pub saturating_int_sub : ℤ → ℤ → ℤ
saturating_int_sub a b =
    let d = a -ℤ b in
    if ltb_ℤ d (pos 0) then pos 0 else if ltb_ℤ (pos 2_000_000_000) d then pos 2_000_000_000 else d

-- `+=` on a `uint64_t`.
unfoldable pub add64 : ℕ → ℕ → ℕ
add64 a b = u64 (a + b)

unfoldable pub empty_snap : CounterSnap
empty_snap = record {
  tx_packets = 0;
  tx_bytes = 0;
  tx_send_errors = 0;
  rx_datagrams = 0;
  rx_bytes = 0;
  rx_bundles = 0;
  rx_signed_bundles = 0;
  rx_signed_members = 0;
  tx_capabilities = 0;
  rx_actor_notifications = 0;
  rx_other_spatial = 0;
  rx_error_messages = 0;
  rx_reconnect_commands = 0;
  rx_silent_reassigns = 0;
  rcvbuf_set_failures = 0;
  rx_hmac_failures = 0;
  rx_malformed = 0;
  token_refreshes = 0;
  refreshes_kept_server = 0;
  reassignments = 0;
  control_failures = 0;
  unauthorized_first_contact = 0;
  unauthorized_window_reload = 0;
  latency_samples = 0;
  latency_sum_ms = 0;
  latency_max_ms = 0;
  latency_hist = λ i. 0;
  error_codes = λ i. 0;
  sign_in_reused = pos 0;
  sign_in_minted_before = pos 0;
  sign_in_minted_during = pos 0;
}

unfoldable pub minus : CounterSnap → CounterSnap → CounterSnap
minus now origin = record {
  tx_packets = sat_sub now.tx_packets origin.tx_packets;
  tx_bytes = sat_sub now.tx_bytes origin.tx_bytes;
  tx_send_errors = sat_sub now.tx_send_errors origin.tx_send_errors;
  rx_datagrams = sat_sub now.rx_datagrams origin.rx_datagrams;
  rx_bytes = sat_sub now.rx_bytes origin.rx_bytes;
  rx_bundles = sat_sub now.rx_bundles origin.rx_bundles;
  rx_signed_bundles = sat_sub now.rx_signed_bundles origin.rx_signed_bundles;
  rx_signed_members = sat_sub now.rx_signed_members origin.rx_signed_members;
  tx_capabilities = sat_sub now.tx_capabilities origin.tx_capabilities;
  rx_actor_notifications = sat_sub now.rx_actor_notifications origin.rx_actor_notifications;
  rx_other_spatial = sat_sub now.rx_other_spatial origin.rx_other_spatial;
  rx_error_messages = sat_sub now.rx_error_messages origin.rx_error_messages;
  rx_reconnect_commands = sat_sub now.rx_reconnect_commands origin.rx_reconnect_commands;
  rx_silent_reassigns = sat_sub now.rx_silent_reassigns origin.rx_silent_reassigns;
  rcvbuf_set_failures = sat_sub now.rcvbuf_set_failures origin.rcvbuf_set_failures;
  rx_hmac_failures = sat_sub now.rx_hmac_failures origin.rx_hmac_failures;
  rx_malformed = sat_sub now.rx_malformed origin.rx_malformed;
  token_refreshes = sat_sub now.token_refreshes origin.token_refreshes;
  refreshes_kept_server = sat_sub now.refreshes_kept_server origin.refreshes_kept_server;
  reassignments = sat_sub now.reassignments origin.reassignments;
  control_failures = sat_sub now.control_failures origin.control_failures;
  unauthorized_first_contact =
      sat_sub now.unauthorized_first_contact origin.unauthorized_first_contact;
  unauthorized_window_reload =
      sat_sub now.unauthorized_window_reload origin.unauthorized_window_reload;
  latency_samples = sat_sub now.latency_samples origin.latency_samples;
  latency_sum_ms = sat_sub now.latency_sum_ms origin.latency_sum_ms;
  latency_max_ms = now.latency_max_ms;
  latency_hist = λ i. sat_sub (now.latency_hist i) (origin.latency_hist i);
  error_codes = λ i. sat_sub (now.error_codes i) (origin.error_codes i);
  sign_in_reused = saturating_int_sub now.sign_in_reused origin.sign_in_reused;
  sign_in_minted_before = saturating_int_sub now.sign_in_minted_before origin.sign_in_minted_before;
  sign_in_minted_during = saturating_int_sub now.sign_in_minted_during origin.sign_in_minted_during;
}

unfoldable pub plus : CounterSnap → CounterSnap → CounterSnap
plus a b = record {
  tx_packets = add64 a.tx_packets b.tx_packets;
  tx_bytes = add64 a.tx_bytes b.tx_bytes;
  tx_send_errors = add64 a.tx_send_errors b.tx_send_errors;
  rx_datagrams = add64 a.rx_datagrams b.rx_datagrams;
  rx_bytes = add64 a.rx_bytes b.rx_bytes;
  rx_bundles = add64 a.rx_bundles b.rx_bundles;
  rx_signed_bundles = add64 a.rx_signed_bundles b.rx_signed_bundles;
  rx_signed_members = add64 a.rx_signed_members b.rx_signed_members;
  tx_capabilities = add64 a.tx_capabilities b.tx_capabilities;
  rx_actor_notifications = add64 a.rx_actor_notifications b.rx_actor_notifications;
  rx_other_spatial = add64 a.rx_other_spatial b.rx_other_spatial;
  rx_error_messages = add64 a.rx_error_messages b.rx_error_messages;
  rx_reconnect_commands = add64 a.rx_reconnect_commands b.rx_reconnect_commands;
  rx_silent_reassigns = add64 a.rx_silent_reassigns b.rx_silent_reassigns;
  rcvbuf_set_failures = add64 a.rcvbuf_set_failures b.rcvbuf_set_failures;
  rx_hmac_failures = add64 a.rx_hmac_failures b.rx_hmac_failures;
  rx_malformed = add64 a.rx_malformed b.rx_malformed;
  token_refreshes = add64 a.token_refreshes b.token_refreshes;
  refreshes_kept_server = add64 a.refreshes_kept_server b.refreshes_kept_server;
  reassignments = add64 a.reassignments b.reassignments;
  control_failures = add64 a.control_failures b.control_failures;
  unauthorized_first_contact = add64 a.unauthorized_first_contact b.unauthorized_first_contact;
  unauthorized_window_reload = add64 a.unauthorized_window_reload b.unauthorized_window_reload;
  latency_samples = add64 a.latency_samples b.latency_samples;
  latency_sum_ms = add64 a.latency_sum_ms b.latency_sum_ms;
  latency_max_ms = max a.latency_max_ms b.latency_max_ms;
  latency_hist = λ i. add64 (a.latency_hist i) (b.latency_hist i);
  error_codes = λ i. add64 (a.error_codes i) (b.error_codes i);
  sign_in_reused = a.sign_in_reused +ℤ b.sign_in_reused;
  sign_in_minted_before = a.sign_in_minted_before +ℤ b.sign_in_minted_before;
  sign_in_minted_during = a.sign_in_minted_during +ℤ b.sign_in_minted_during;
}
