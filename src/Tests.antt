-- ===== src/Tests.antt =====
-- Fixtures for the witnesses: numbers for floating point, and a checksum for the tag.
pub mod OfWire
pub mod OfStats
pub mod OfWorker
pub mod OfHarness
pub mod OfProvisioner
pub mod OfControl
pub mod OfConfig
pub mod OfMovement
use cks_loadtest.Base.{
  ℕ, zero, ◌+◌, ◌-◌, ◌*◌, ◌/◌, ◌%◌, ◌^◌, Bool, true, false, some, none, List, [], ◌∷◌, arith,
  length, replicate, ltb, leb,
}
use cks_loadtest.Base.Int.{ℤ, pos, pos_part}
use cks_loadtest.Base.Words.{Bytes}
use cks_loadtest.Base.Text.{Text, codes, text_eq, text_eq_iff}
use cks_loadtest.Platform.{Floats, Crypto}
use cks_loadtest.Config.{Config}
use cks_loadtest.Control.{ClientCredentials, ControlQueue, ClientUpdate}
use cks_loadtest.Stats.{Stats}
use cks_loadtest.Stats.Snap.{empty_snap}
use cks_loadtest.Wire.ActorUpdate.{ActorPose}
use cks_loadtest.Worker.Client.{Sim, SimClient, Cell, State, active}
use cks_loadtest.Worker.Simulation.{Simulation}

abbrev pub floats : Floats
floats = record {
  Double = ℕ;
  Single = ℕ;
  bits64 = λ d. d % 2 ^ 64;
  bits32 = λ s. s % 2 ^ 32;
  narrow = λ d. d;
  of_i64 = pos_part;
  to_i64 = pos;
  literal = λ z e. pos_part z;
  add = λ a b. a + b;
  sub = λ a b. a - b;
  mul = λ a b. a * b;
  div = λ a b. a / b;
  neg = λ a. a;
  fabs = λ a. a;
  floor = λ a. a;
  sqrt = λ a. a;
  atan2 = λ a b. a;
  lt = ltb;
  le = leb;
  bits64_lt = λ d. omega arith;
  bits32_lt = λ s. omega arith;
}

abbrev pub crypto : Crypto
crypto = record {
  hmac = λ key message. some ((length message % 256) ∷ replicate 31 (length key % 256));
  memcmp = text_eq;
  memcmp_iff = text_eq_iff;
}

abbrev pub token : Bytes
token = replicate 64 97

abbrev pub uuid_example : Bytes
uuid_example = replicate 32 65

abbrev pub empty_message : Bytes
empty_message = replicate 197 0

abbrev pub pose_example : ActorPose floats
pose_example = record {
  pos_x = 1;
  pos_y = 2;
  pos_z = 3;
  yaw = 4;
  pitch = 5;
  roll = 6;
  vel_x = 7;
  vel_y = 8;
  vel_z = 9;
  grounded = true;
  updated_at_ms = 10;
}

abbrev pub no_stats : Stats
no_stats = record {
  tx_packets = 0;
  tx_bytes = 0;
  tx_send_errors = 0;
  rx_datagrams = 0;
  rx_bytes = 0;
  rx_bundles = 0;
  rx_signed_bundles = 0;
  rx_signed_members = 0;
  tx_capabilities = 0;
  rx_actor_notifications = 0;
  rx_other_spatial = 0;
  rx_error_messages = 0;
  rx_reconnect_commands = 0;
  rx_silent_reassigns = 0;
  rcvbuf_set_failures = 0;
  rx_hmac_failures = 0;
  rx_malformed = 0;
  token_refreshes = 0;
  refreshes_kept_server = 0;
  reassignments = 0;
  control_failures = 0;
  unauthorized_first_contact = 0;
  unauthorized_window_reload = 0;
  latency_samples = 0;
  latency_sum_ms = 0;
  latency_max_ms = 0;
  latency_hist = λ i. 0;
  error_codes = λ i. 0;
  window_latency_max_ms = 0;
  active_clients = pos 0;
  suspended_clients = pos 0;
  window_origin = empty_snap;
  rung_id = codes "";
  window_open_epoch_sec = 0;
  window_open_steady = 0;
  sign_in_reused = pos 0;
  sign_in_minted_before = pos 0;
  sign_in_minted_during = pos 0;
}

abbrev pub credentials : ClientCredentials
credentials = record {
  index = pos 0;
  email = codes "load+0@example.com";
  session_token = codes "session";
  app_token = token;
  game_token_id = pos 17;
  game_api_url = codes "";
  token_expires_at = 4_000_000_000;
  server_ip4 = codes "10.0.0.1";
  server_port = 7777;
  udp_ready_at = 0;
}

abbrev pub no_requests : ControlQueue
no_requests = record { queue = []; is_shutdown = false }

abbrev pub refused_update : ClientUpdate
refused_update = record { client_index = 0; failed = true; creds = credentials }

abbrev pub config : Config floats
config = record {
  email = codes "load@example.com";
  password = codes "long secret";
  provisioning_token = codes "token";
  management_api_url = codes "https://example.com";
  game_api_url = codes "";
  app_id = pos 1;
  clients = pos 1;
  threads = pos 2;
  update_hz = pos 10;
  walk_speed = 0;
  spawn_radius_chunks = pos 3;
  distance = pos 8;
  pose_format = codes "ue5";
  chunk_size_units = 0;
  volume_chunks = pos 0;
  replay_logging = codes "leave";
  sparse_range_chunks = pos 0;
  sparse_group = pos 1;
  volume_base_up = pos 0;
  perm_window_radius_chunks = pos 4;
  perm_reload_grace_ms = pos 3000;
  decay = pos 0;
  instance_id = codes "host";
  index_base = pos 0;
  index_limit = pos 100;
  index_width = pos 5;
  control_bind = codes "";
  control_token = codes "";
  stats_dir = codes "";
  ramp_batch_size = pos 10;
  ramp_interval_ms = pos 1000;
  rx_silent_reassign_sec = pos 30;
  provision_concurrency = pos 4;
  duration_sec = pos 0;
  stats_interval_sec = pos 5;
  csv_out = codes "";
  email_pattern = codes "";
  roster_file = codes "";
  roster_required = false;
  verify_server_hmac = true;
  socket_rcvbuf_bytes = pos 0;
  client_caps = true;
  caps_interval_sec = pos 60;
  tls_insecure = false;
  session_settle_ms = pos 0;
  rx_health_timeout_sec = pos 10;
  token_refresh_lead_sec = pos 600;
}

abbrev pub sim_example : Sim floats
sim_example = record {
  world_x = 0;
  world_y = 0;
  world_z = 0;
  dir_x = 1;
  dir_y = 0;
  dir_z = 0;
  chunk_x = pos 0;
  chunk_y = pos 0;
  chunk_z = pos 0;
  sparse_c1 = pos 0;
  sparse_c2 = pos 0;
  pos_x = 0;
  pos_y = 0;
  pos_z = 0;
  vel_x = 0;
  vel_y = 0;
  vel_z = 0;
  rot_yaw_deg = 0;
  reaim_at = 0;
  uuid = uuid_example;
  sequence = 255;
  last_send_time = 0;
  last_caps_time = 0;
  last_move_time = 0;
  message = empty_message;
}

-- A client that is ACTIVE and has asked for a refresh.
abbrev pub asking_client : SimClient floats
asking_client = record {
  creds = credentials;
  state = active;
  activate_at = 0;
  fd = some 5;
  sim = sim_example;
  last_rx_time = 0;
  refresh_requested = true;
  consecutive_send_errors = 0;
  error_logged = false;
  unauthorized_count = 0;
  activated_at = 1;
  perm_window_center_x = pos 0;
  perm_window_center_y = pos 0;
  perm_window_center_z = pos 0;
  perm_window_valid = true;
  perm_reload_at = 0;
}

abbrev pub asking_cell : Cell floats
asking_cell = record { client = asking_client; stats = no_stats; control = no_requests }

-- A simulation that stands still.
abbrev pub still : Simulation floats
still = record {
  Gen = ℕ;
  init_simulation = λ cfg creds now g s. (g, record s { uuid = uuid_example });
  rebuild_template = λ cfg creds s. s;
  update_walk = λ cfg now g s. (g, record s { last_move_time = now });
  build_update = λ cfg creds now s. (true, s);
  message_size = λ cfg. 197;
}
