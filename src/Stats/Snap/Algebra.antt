-- ===== src/Stats/Snap/Algebra.antt =====
-- The laws of merging snapshots, and of taking a window out of a lifetime.
use cks_loadtest.Base.{ℕ, ◌≤◌, ◌<◌, ◌^◌, ◌≡◌, max, arith}
use cks_loadtest.Base.Int.{ℤ, pos, ◌+ℤ◌, ◌-ℤ◌, ◌≤ℤ◌, int_laws, eq_of_parts, +ℤ_parts, -ℤ_parts}
use cks_loadtest.Stats.Snap.{CounterSnap, sat_sub, saturating_int_sub, add64, minus, plus}

add64_comm : (a b : ℕ) → add64 a b ≡ add64 b a
unfolding add64
add64_comm a b = omega arith

add64_assoc : (a b c : ℕ) → add64 (add64 a b) c ≡ add64 a (add64 b c)
unfolding add64
add64_assoc a b c = omega arith

max_comm : (a b : ℕ) → max a b ≡ max b a
max_comm a b = omega arith

max_assoc : (a b c : ℕ) → max (max a b) c ≡ max a (max b c)
max_assoc a b c = omega arith

int_comm : (a b : ℤ) → a +ℤ b ≡ b +ℤ a
int_comm a b = omega int_laws

int_assoc : (a b c : ℤ) → a +ℤ b +ℤ c ≡ a +ℤ (b +ℤ c)
int_assoc a b c = omega int_laws

-- Merging two snapshots does not depend on their order, nor merging three on how they are
-- grouped: every counter, the maximum, each array slot and each sign-in tally.
pub plus_order :
    (a b c : CounterSnap) → (plus a b ≡ plus b a) × (plus (plus a b) c ≡ plus a (plus b c))
unfolding plus
plus_order a b c = (
  λ i. record {
    tx_packets = add64_comm a.tx_packets b.tx_packets i;
    tx_bytes = add64_comm a.tx_bytes b.tx_bytes i;
    tx_send_errors = add64_comm a.tx_send_errors b.tx_send_errors i;
    rx_datagrams = add64_comm a.rx_datagrams b.rx_datagrams i;
    rx_bytes = add64_comm a.rx_bytes b.rx_bytes i;
    rx_bundles = add64_comm a.rx_bundles b.rx_bundles i;
    rx_signed_bundles = add64_comm a.rx_signed_bundles b.rx_signed_bundles i;
    rx_signed_members = add64_comm a.rx_signed_members b.rx_signed_members i;
    tx_capabilities = add64_comm a.tx_capabilities b.tx_capabilities i;
    rx_actor_notifications = add64_comm a.rx_actor_notifications b.rx_actor_notifications i;
    rx_other_spatial = add64_comm a.rx_other_spatial b.rx_other_spatial i;
    rx_error_messages = add64_comm a.rx_error_messages b.rx_error_messages i;
    rx_reconnect_commands = add64_comm a.rx_reconnect_commands b.rx_reconnect_commands i;
    rx_silent_reassigns = add64_comm a.rx_silent_reassigns b.rx_silent_reassigns i;
    rcvbuf_set_failures = add64_comm a.rcvbuf_set_failures b.rcvbuf_set_failures i;
    rx_hmac_failures = add64_comm a.rx_hmac_failures b.rx_hmac_failures i;
    rx_malformed = add64_comm a.rx_malformed b.rx_malformed i;
    token_refreshes = add64_comm a.token_refreshes b.token_refreshes i;
    refreshes_kept_server = add64_comm a.refreshes_kept_server b.refreshes_kept_server i;
    reassignments = add64_comm a.reassignments b.reassignments i;
    control_failures = add64_comm a.control_failures b.control_failures i;
    unauthorized_first_contact =
        add64_comm a.unauthorized_first_contact b.unauthorized_first_contact i;
    unauthorized_window_reload =
        add64_comm a.unauthorized_window_reload b.unauthorized_window_reload i;
    latency_samples = add64_comm a.latency_samples b.latency_samples i;
    latency_sum_ms = add64_comm a.latency_sum_ms b.latency_sum_ms i;
    latency_max_ms = max_comm a.latency_max_ms b.latency_max_ms i;
    latency_hist = λ j. add64_comm (a.latency_hist j) (b.latency_hist j) i;
    error_codes = λ j. add64_comm (a.error_codes j) (b.error_codes j) i;
    sign_in_reused = int_comm a.sign_in_reused b.sign_in_reused i;
    sign_in_minted_before = int_comm a.sign_in_minted_before b.sign_in_minted_before i;
    sign_in_minted_during = int_comm a.sign_in_minted_during b.sign_in_minted_during i;
  },
  λ i. record {
    tx_packets = add64_assoc a.tx_packets b.tx_packets c.tx_packets i;
    tx_bytes = add64_assoc a.tx_bytes b.tx_bytes c.tx_bytes i;
    tx_send_errors = add64_assoc a.tx_send_errors b.tx_send_errors c.tx_send_errors i;
    rx_datagrams = add64_assoc a.rx_datagrams b.rx_datagrams c.rx_datagrams i;
    rx_bytes = add64_assoc a.rx_bytes b.rx_bytes c.rx_bytes i;
    rx_bundles = add64_assoc a.rx_bundles b.rx_bundles c.rx_bundles i;
    rx_signed_bundles = add64_assoc a.rx_signed_bundles b.rx_signed_bundles c.rx_signed_bundles i;
    rx_signed_members = add64_assoc a.rx_signed_members b.rx_signed_members c.rx_signed_members i;
    tx_capabilities = add64_assoc a.tx_capabilities b.tx_capabilities c.tx_capabilities i;
    rx_actor_notifications =
        add64_assoc a.rx_actor_notifications b.rx_actor_notifications c.rx_actor_notifications i;
    rx_other_spatial = add64_assoc a.rx_other_spatial b.rx_other_spatial c.rx_other_spatial i;
    rx_error_messages = add64_assoc a.rx_error_messages b.rx_error_messages c.rx_error_messages i;
    rx_reconnect_commands =
        add64_assoc a.rx_reconnect_commands b.rx_reconnect_commands c.rx_reconnect_commands i;
    rx_silent_reassigns =
        add64_assoc a.rx_silent_reassigns b.rx_silent_reassigns c.rx_silent_reassigns i;
    rcvbuf_set_failures =
        add64_assoc a.rcvbuf_set_failures b.rcvbuf_set_failures c.rcvbuf_set_failures i;
    rx_hmac_failures = add64_assoc a.rx_hmac_failures b.rx_hmac_failures c.rx_hmac_failures i;
    rx_malformed = add64_assoc a.rx_malformed b.rx_malformed c.rx_malformed i;
    token_refreshes = add64_assoc a.token_refreshes b.token_refreshes c.token_refreshes i;
    refreshes_kept_server =
        add64_assoc a.refreshes_kept_server b.refreshes_kept_server c.refreshes_kept_server i;
    reassignments = add64_assoc a.reassignments b.reassignments c.reassignments i;
    control_failures = add64_assoc a.control_failures b.control_failures c.control_failures i;
    unauthorized_first_contact =
        add64_assoc a.unauthorized_first_contact b.unauthorized_first_contact
          c.unauthorized_first_contact i;
    unauthorized_window_reload =
        add64_assoc a.unauthorized_window_reload b.unauthorized_window_reload
          c.unauthorized_window_reload i;
    latency_samples = add64_assoc a.latency_samples b.latency_samples c.latency_samples i;
    latency_sum_ms = add64_assoc a.latency_sum_ms b.latency_sum_ms c.latency_sum_ms i;
    latency_max_ms = max_assoc a.latency_max_ms b.latency_max_ms c.latency_max_ms i;
    latency_hist = λ j. add64_assoc (a.latency_hist j) (b.latency_hist j) (c.latency_hist j) i;
    error_codes = λ j. add64_assoc (a.error_codes j) (b.error_codes j) (c.error_codes j) i;
    sign_in_reused = int_assoc a.sign_in_reused b.sign_in_reused c.sign_in_reused i;
    sign_in_minted_before =
        int_assoc a.sign_in_minted_before b.sign_in_minted_before c.sign_in_minted_before i;
    sign_in_minted_during =
        int_assoc a.sign_in_minted_during b.sign_in_minted_during c.sign_in_minted_during i;
  },
)

-- `origin` is an earlier snapshot than `now`: no counter fell, none is past 64 bits, and no sign-in
-- tally grew by more than 2,000,000,000.
pub record IsEarlier (origin now : CounterSnap) : Type 0 where
  pub tx_packets_grew : (origin.tx_packets ≤ now.tx_packets) × (now.tx_packets < 2 ^ 64)
  pub tx_bytes_grew : (origin.tx_bytes ≤ now.tx_bytes) × (now.tx_bytes < 2 ^ 64)
  pub tx_send_errors_grew :
      (origin.tx_send_errors ≤ now.tx_send_errors) × (now.tx_send_errors < 2 ^ 64)
  pub rx_datagrams_grew : (origin.rx_datagrams ≤ now.rx_datagrams) × (now.rx_datagrams < 2 ^ 64)
  pub rx_bytes_grew : (origin.rx_bytes ≤ now.rx_bytes) × (now.rx_bytes < 2 ^ 64)
  pub rx_bundles_grew : (origin.rx_bundles ≤ now.rx_bundles) × (now.rx_bundles < 2 ^ 64)
  pub rx_signed_bundles_grew :
      (origin.rx_signed_bundles ≤ now.rx_signed_bundles) × (now.rx_signed_bundles < 2 ^ 64)
  pub rx_signed_members_grew :
      (origin.rx_signed_members ≤ now.rx_signed_members) × (now.rx_signed_members < 2 ^ 64)
  pub tx_capabilities_grew :
      (origin.tx_capabilities ≤ now.tx_capabilities) × (now.tx_capabilities < 2 ^ 64)
  pub rx_actor_notifications_grew :
      (origin.rx_actor_notifications ≤ now.rx_actor_notifications)
      × (now.rx_actor_notifications < 2 ^ 64)
  pub rx_other_spatial_grew :
      (origin.rx_other_spatial ≤ now.rx_other_spatial) × (now.rx_other_spatial < 2 ^ 64)
  pub rx_error_messages_grew :
      (origin.rx_error_messages ≤ now.rx_error_messages) × (now.rx_error_messages < 2 ^ 64)
  pub rx_reconnect_commands_grew :
      (origin.rx_reconnect_commands ≤ now.rx_reconnect_commands)
      × (now.rx_reconnect_commands < 2 ^ 64)
  pub rx_silent_reassigns_grew :
      (origin.rx_silent_reassigns ≤ now.rx_silent_reassigns) × (now.rx_silent_reassigns < 2 ^ 64)
  pub rcvbuf_set_failures_grew :
      (origin.rcvbuf_set_failures ≤ now.rcvbuf_set_failures) × (now.rcvbuf_set_failures < 2 ^ 64)
  pub rx_hmac_failures_grew :
      (origin.rx_hmac_failures ≤ now.rx_hmac_failures) × (now.rx_hmac_failures < 2 ^ 64)
  pub rx_malformed_grew : (origin.rx_malformed ≤ now.rx_malformed) × (now.rx_malformed < 2 ^ 64)
  pub token_refreshes_grew :
      (origin.token_refreshes ≤ now.token_refreshes) × (now.token_refreshes < 2 ^ 64)
  pub refreshes_kept_server_grew :
      (origin.refreshes_kept_server ≤ now.refreshes_kept_server)
      × (now.refreshes_kept_server < 2 ^ 64)
  pub reassignments_grew : (origin.reassignments ≤ now.reassignments) × (now.reassignments < 2 ^ 64)
  pub control_failures_grew :
      (origin.control_failures ≤ now.control_failures) × (now.control_failures < 2 ^ 64)
  pub unauthorized_first_contact_grew :
      (origin.unauthorized_first_contact ≤ now.unauthorized_first_contact)
      × (now.unauthorized_first_contact < 2 ^ 64)
  pub unauthorized_window_reload_grew :
      (origin.unauthorized_window_reload ≤ now.unauthorized_window_reload)
      × (now.unauthorized_window_reload < 2 ^ 64)
  pub latency_samples_grew :
      (origin.latency_samples ≤ now.latency_samples) × (now.latency_samples < 2 ^ 64)
  pub latency_sum_ms_grew :
      (origin.latency_sum_ms ≤ now.latency_sum_ms) × (now.latency_sum_ms < 2 ^ 64)
  pub latency_max_ms_grew : origin.latency_max_ms ≤ now.latency_max_ms
  pub latency_hist_grew :
      (i : ℕ) → (origin.latency_hist i ≤ now.latency_hist i) × (now.latency_hist i < 2 ^ 64)
  pub error_codes_grew :
      (i : ℕ) → (origin.error_codes i ≤ now.error_codes i) × (now.error_codes i < 2 ^ 64)
  pub sign_in_reused_grew :
      (origin.sign_in_reused ≤ℤ now.sign_in_reused)
      × (now.sign_in_reused ≤ℤ origin.sign_in_reused +ℤ pos 2_000_000_000)
  pub sign_in_minted_before_grew :
      (origin.sign_in_minted_before ≤ℤ now.sign_in_minted_before)
      × (now.sign_in_minted_before ≤ℤ origin.sign_in_minted_before +ℤ pos 2_000_000_000)
  pub sign_in_minted_during_grew :
      (origin.sign_in_minted_during ≤ℤ now.sign_in_minted_during)
      × (now.sign_in_minted_during ≤ℤ origin.sign_in_minted_during +ℤ pos 2_000_000_000)

sat_sub-add : (o n : ℕ) → (o ≤ n) × (n < 2 ^ 64) → add64 (sat_sub n o) o ≡ n
unfolding sat_sub add64
sat_sub-add o n h = ground arith

saturating-add :
    (o n : ℤ) → (o ≤ℤ n) × (n ≤ℤ o +ℤ pos 2_000_000_000) → saturating_int_sub n o +ℤ o ≡ n
unfolding saturating_int_sub
saturating-add o n h = ground (
  arith,
  +ℤ_parts o (pos 2_000_000_000),
  -ℤ_parts n o,
  +ℤ_parts (n -ℤ o) o,
  eq_of_parts (n -ℤ o +ℤ o) n,
)

max_of_le : (o n : ℕ) → o ≤ n → max n o ≡ n
max_of_le o n h = omega arith

-- The window between two snapshots, merged with the earlier one, is the later one, if every counter only
-- grew and fits its width, and no sign-in tally grew by more than 2,000,000,000.
pub plus-minus :
    (now origin : CounterSnap) → IsEarlier origin now → plus (minus now origin) origin ≡ now
unfolding plus minus
plus-minus now origin h = λ i. record {
  tx_packets = sat_sub-add origin.tx_packets now.tx_packets h.tx_packets_grew i;
  tx_bytes = sat_sub-add origin.tx_bytes now.tx_bytes h.tx_bytes_grew i;
  tx_send_errors = sat_sub-add origin.tx_send_errors now.tx_send_errors h.tx_send_errors_grew i;
  rx_datagrams = sat_sub-add origin.rx_datagrams now.rx_datagrams h.rx_datagrams_grew i;
  rx_bytes = sat_sub-add origin.rx_bytes now.rx_bytes h.rx_bytes_grew i;
  rx_bundles = sat_sub-add origin.rx_bundles now.rx_bundles h.rx_bundles_grew i;
  rx_signed_bundles =
      sat_sub-add origin.rx_signed_bundles now.rx_signed_bundles h.rx_signed_bundles_grew i;
  rx_signed_members =
      sat_sub-add origin.rx_signed_members now.rx_signed_members h.rx_signed_members_grew i;
  tx_capabilities = sat_sub-add origin.tx_capabilities now.tx_capabilities h.tx_capabilities_grew i;
  rx_actor_notifications =
      sat_sub-add origin.rx_actor_notifications now.rx_actor_notifications
        h.rx_actor_notifications_grew i;
  rx_other_spatial =
      sat_sub-add origin.rx_other_spatial now.rx_other_spatial h.rx_other_spatial_grew i;
  rx_error_messages =
      sat_sub-add origin.rx_error_messages now.rx_error_messages h.rx_error_messages_grew i;
  rx_reconnect_commands =
      sat_sub-add origin.rx_reconnect_commands now.rx_reconnect_commands
        h.rx_reconnect_commands_grew i;
  rx_silent_reassigns =
      sat_sub-add origin.rx_silent_reassigns now.rx_silent_reassigns h.rx_silent_reassigns_grew i;
  rcvbuf_set_failures =
      sat_sub-add origin.rcvbuf_set_failures now.rcvbuf_set_failures h.rcvbuf_set_failures_grew i;
  rx_hmac_failures =
      sat_sub-add origin.rx_hmac_failures now.rx_hmac_failures h.rx_hmac_failures_grew i;
  rx_malformed = sat_sub-add origin.rx_malformed now.rx_malformed h.rx_malformed_grew i;
  token_refreshes = sat_sub-add origin.token_refreshes now.token_refreshes h.token_refreshes_grew i;
  refreshes_kept_server =
      sat_sub-add origin.refreshes_kept_server now.refreshes_kept_server
        h.refreshes_kept_server_grew i;
  reassignments = sat_sub-add origin.reassignments now.reassignments h.reassignments_grew i;
  control_failures =
      sat_sub-add origin.control_failures now.control_failures h.control_failures_grew i;
  unauthorized_first_contact =
      sat_sub-add origin.unauthorized_first_contact now.unauthorized_first_contact
        h.unauthorized_first_contact_grew i;
  unauthorized_window_reload =
      sat_sub-add origin.unauthorized_window_reload now.unauthorized_window_reload
        h.unauthorized_window_reload_grew i;
  latency_samples = sat_sub-add origin.latency_samples now.latency_samples h.latency_samples_grew i;
  latency_sum_ms = sat_sub-add origin.latency_sum_ms now.latency_sum_ms h.latency_sum_ms_grew i;
  latency_max_ms = max_of_le origin.latency_max_ms now.latency_max_ms h.latency_max_ms_grew i;
  latency_hist =
      λ j. sat_sub-add (origin.latency_hist j) (now.latency_hist j) (h.latency_hist_grew j) i;
  error_codes =
      λ j. sat_sub-add (origin.error_codes j) (now.error_codes j) (h.error_codes_grew j) i;
  sign_in_reused = saturating-add origin.sign_in_reused now.sign_in_reused h.sign_in_reused_grew i;
  sign_in_minted_before =
      saturating-add origin.sign_in_minted_before now.sign_in_minted_before
        h.sign_in_minted_before_grew i;
  sign_in_minted_during =
      saturating-add origin.sign_in_minted_during now.sign_in_minted_during
        h.sign_in_minted_during_grew i;
}
