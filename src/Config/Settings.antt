-- ===== src/Config/Settings.antt =====
-- Where `Config::load` takes the settings from: the layers and the command line, which the
-- library cxxopts has parsed.
use cks_loadtest.Base.{Bool, Option, none, some, List, [], ◌∷◌, ◌++◌}
use mathlib.Core.Option
use cks_loadtest.Base.Int.{ℤ}
use cks_loadtest.Base.Text.{Text, codes}
use cks_loadtest.Platform.{Floats}
use cks_loadtest.Config.{Config}
use cks_loadtest.Config.Defaults.{default_config}
use cks_loadtest.Config.File.{Numbers, Layers, get, get_number, get_bool}

-- The options that were given, by their names and types.
pub record CommandLine (fl : Floats) : Type 0 where
  pub str : Text → Option Text
  pub int : Text → Option ℤ
  pub i64 : Text → Option ℤ
  pub double : Text → Option fl.Double
  pub bool : Text → Option Bool

abbrev pub given {ℓ} : {A : Type ℓ} → Option A → A → A
given none v = v
given (some w) v = w

abbrev pub Step : Floats → Type 0
Step fl = Config fl → Option (Config fl)

module _ {fl : Floats} where
  -- Strings and Booleans, which cannot fail.
  unfoldable pub text_settings : Layers → Config fl → Config fl
  text_settings l c = record c {
    email = get l (codes "LT_EMAIL") c.email;
    password = get l (codes "LT_PASSWORD") c.password;
    provisioning_token = get l (codes "LT_PROVISIONING_TOKEN") c.provisioning_token;
    management_api_url = get l (codes "LT_MANAGEMENT_API_URL") c.management_api_url;
    game_api_url = get l (codes "LT_GAME_API_URL") c.game_api_url;
    pose_format = get l (codes "LT_POSE_FORMAT") c.pose_format;
    replay_logging = get l (codes "LT_REPLAY_LOGGING") c.replay_logging;
    instance_id = get l (codes "LT_INSTANCE_ID") c.instance_id;
    control_bind = get l (codes "LT_CONTROL_BIND") c.control_bind;
    control_token = get l (codes "LT_CONTROL_TOKEN") c.control_token;
    stats_dir = get l (codes "LT_STATS_DIR") c.stats_dir;
    csv_out = get l (codes "LT_CSV_OUT") c.csv_out;
    email_pattern = get l (codes "LT_EMAIL_PATTERN") c.email_pattern;
    roster_file = get l (codes "LT_ROSTER_FILE") c.roster_file;
    roster_required = get_bool l (codes "LT_ROSTER_REQUIRED") c.roster_required;
    verify_server_hmac = get_bool l (codes "LT_VERIFY_SERVER_HMAC") c.verify_server_hmac;
    client_caps = get_bool l (codes "LT_CLIENT_CAPS") c.client_caps;
    tls_insecure = get_bool l (codes "LT_TLS_INSECURE") c.tls_insecure;
  }

  abbrev pub int_step :
      (Text → Option ℤ) → Layers → Text → (Config fl → ℤ) → (Config fl → ℤ → Config fl) → Step fl
  int_step read l name field put c = Option.map (put c) (get_number l read name (field c))

  abbrev pub double_step :
      Numbers fl.Double
      → Layers
      → Text
      → (Config fl → fl.Double)
      → (Config fl → fl.Double → Config fl)
      → Step fl
  double_step num l name field put c = Option.map (put c) (get_number l num.stod name (field c))

  abbrev pub first_numbers : Numbers fl.Double → Layers → List (Step fl)
  first_numbers num l =
      (int_step num.stoll l (codes "LT_APP_ID") (λ c. c.app_id) (λ c v. record c { app_id = v }))
      ∷ (int_step num.stoi l (codes "LT_CLIENTS") (λ c. c.clients)
          (λ c v. record c { clients = v }))
      ∷ (int_step num.stoi l (codes "LT_THREADS") (λ c. c.threads)
          (λ c v. record c { threads = v }))
      ∷ (int_step num.stoi l (codes "LT_UPDATE_HZ") (λ c. c.update_hz)
          (λ c v. record c { update_hz = v }))
      ∷ (double_step num l (codes "LT_WALK_SPEED") (λ c. c.walk_speed)
          (λ c v. record c { walk_speed = v }))
      ∷ (int_step num.stoi l (codes "LT_SPAWN_RADIUS_CHUNKS") (λ c. c.spawn_radius_chunks)
          (λ c v. record c { spawn_radius_chunks = v }))
      ∷ (int_step num.stoi l (codes "LT_DISTANCE") (λ c. c.distance)
          (λ c v. record c { distance = v }))
      ∷ (double_step num l (codes "LT_CHUNK_SIZE_UNITS") (λ c. c.chunk_size_units)
          (λ c v. record c { chunk_size_units = v }))
      ∷ (int_step num.stoi l (codes "LT_VOLUME_CHUNKS") (λ c. c.volume_chunks)
          (λ c v. record c { volume_chunks = v }))
      ∷ (int_step num.stoi l (codes "LT_SPARSE_RANGE_CHUNKS") (λ c. c.sparse_range_chunks)
          (λ c v. record c { sparse_range_chunks = v }))
      ∷ (int_step num.stoi l (codes "LT_SPARSE_GROUP") (λ c. c.sparse_group)
          (λ c v. record c { sparse_group = v }))
      ∷ (int_step num.stoi l (codes "LT_VOLUME_BASE_UP") (λ c. c.volume_base_up)
          (λ c v. record c { volume_base_up = v }))
      ∷ (int_step num.stoi l (codes "LT_PERMISSION_WINDOW_RADIUS_CHUNKS")
          (λ c. c.perm_window_radius_chunks) (λ c v. record c { perm_window_radius_chunks = v }))
      ∷ (int_step num.stoi l (codes "LT_PERMISSION_RELOAD_GRACE_MS") (λ c. c.perm_reload_grace_ms)
          (λ c v. record c { perm_reload_grace_ms = v }))
      ∷ (int_step num.stoi l (codes "LT_DECAY") (λ c. c.decay) (λ c v. record c { decay = v }))
      ∷ []

  abbrev pub later_numbers : Numbers fl.Double → Layers → List (Step fl)
  later_numbers num l =
      (int_step num.stoi l (codes "LT_INDEX_BASE") (λ c. c.index_base)
        (λ c v. record c { index_base = v }))
      ∷ (int_step num.stoi l (codes "LT_INDEX_LIMIT") (λ c. c.index_limit)
          (λ c v. record c { index_limit = v }))
      ∷ (int_step num.stoi l (codes "LT_INDEX_WIDTH") (λ c. c.index_width)
          (λ c v. record c { index_width = v }))
      ∷ (int_step num.stoi l (codes "LT_RAMP_BATCH_SIZE") (λ c. c.ramp_batch_size)
          (λ c v. record c { ramp_batch_size = v }))
      ∷ (int_step num.stoi l (codes "LT_RAMP_INTERVAL_MS") (λ c. c.ramp_interval_ms)
          (λ c v. record c { ramp_interval_ms = v }))
      ∷ (int_step num.stoi l (codes "LT_RX_SILENT_REASSIGN_SEC") (λ c. c.rx_silent_reassign_sec)
          (λ c v. record c { rx_silent_reassign_sec = v }))
      ∷ (int_step num.stoi l (codes "LT_PROVISION_CONCURRENCY") (λ c. c.provision_concurrency)
          (λ c v. record c { provision_concurrency = v }))
      ∷ (int_step num.stoi l (codes "LT_DURATION_SEC") (λ c. c.duration_sec)
          (λ c v. record c { duration_sec = v }))
      ∷ (int_step num.stoi l (codes "LT_STATS_INTERVAL_SEC") (λ c. c.stats_interval_sec)
          (λ c v. record c { stats_interval_sec = v }))
      ∷ (int_step num.stoi l (codes "LT_SOCKET_RCVBUF_BYTES") (λ c. c.socket_rcvbuf_bytes)
          (λ c v. record c { socket_rcvbuf_bytes = v }))
      ∷ (int_step num.stoi l (codes "LT_CAPS_INTERVAL_SEC") (λ c. c.caps_interval_sec)
          (λ c v. record c { caps_interval_sec = v }))
      ∷ (int_step num.stoi l (codes "LT_SESSION_SETTLE_MS") (λ c. c.session_settle_ms)
          (λ c v. record c { session_settle_ms = v }))
      ∷ (int_step num.stoi l (codes "LT_RX_HEALTH_TIMEOUT_SEC") (λ c. c.rx_health_timeout_sec)
          (λ c v. record c { rx_health_timeout_sec = v }))
      ∷ (int_step num.stoi l (codes "LT_TOKEN_REFRESH_LEAD_SEC") (λ c. c.token_refresh_lead_sec)
          (λ c v. record c { token_refresh_lead_sec = v }))
      ∷ []

  abbrev pub then_step : Option (Config fl) → Step fl → Option (Config fl)
  then_step none step = none
  then_step (some c) step = step c

  unfoldable pub run_steps : List (Step fl) → Step fl
  run_steps [] c = some c
  run_steps (step ∷ steps) c = then_step (step c) (run_steps steps)

  -- The settings of the layers, from the defaults. A number that does not read ends the program,
  -- whatever the order is.
  unfoldable pub layered : Numbers fl.Double → Layers → Option (Config fl)
  layered num l =
      run_steps (first_numbers num l ++ later_numbers num l) (text_settings l default_config)

  unfoldable pub command_line : CommandLine fl → Config fl → Config fl
  command_line cli c = record c {
    email = given (cli.str (codes "email")) c.email;
    password = given (cli.str (codes "password")) c.password;
    management_api_url = given (cli.str (codes "management-api-url")) c.management_api_url;
    game_api_url = given (cli.str (codes "game-api-url")) c.game_api_url;
    app_id = given (cli.i64 (codes "app-id")) c.app_id;
    clients = given (cli.int (codes "clients")) c.clients;
    threads = given (cli.int (codes "threads")) c.threads;
    update_hz = given (cli.int (codes "update-hz")) c.update_hz;
    walk_speed = given (cli.double (codes "walk-speed")) c.walk_speed;
    spawn_radius_chunks = given (cli.int (codes "spawn-radius-chunks")) c.spawn_radius_chunks;
    distance = given (cli.int (codes "distance")) c.distance;
    pose_format = given (cli.str (codes "pose-format")) c.pose_format;
    chunk_size_units = given (cli.double (codes "chunk-size-units")) c.chunk_size_units;
    volume_chunks = given (cli.int (codes "volume-chunks")) c.volume_chunks;
    replay_logging = given (cli.str (codes "replay-logging")) c.replay_logging;
    sparse_range_chunks = given (cli.int (codes "sparse-range-chunks")) c.sparse_range_chunks;
    sparse_group = given (cli.int (codes "sparse-group")) c.sparse_group;
    volume_base_up = given (cli.int (codes "volume-base-up")) c.volume_base_up;
    perm_window_radius_chunks =
        given (cli.int (codes "permission-window-radius-chunks")) c.perm_window_radius_chunks;
    decay = given (cli.int (codes "decay")) c.decay;
    instance_id = given (cli.str (codes "instance-id")) c.instance_id;
    index_base = given (cli.int (codes "index-base")) c.index_base;
    index_limit = given (cli.int (codes "index-limit")) c.index_limit;
    index_width = given (cli.int (codes "index-width")) c.index_width;
    control_bind = given (cli.str (codes "control-bind")) c.control_bind;
    control_token = given (cli.str (codes "control-token")) c.control_token;
    stats_dir = given (cli.str (codes "stats-dir")) c.stats_dir;
    ramp_batch_size = given (cli.int (codes "ramp-batch-size")) c.ramp_batch_size;
    ramp_interval_ms = given (cli.int (codes "ramp-interval-ms")) c.ramp_interval_ms;
    rx_silent_reassign_sec =
        given (cli.int (codes "rx-silent-reassign-sec")) c.rx_silent_reassign_sec;
    provision_concurrency = given (cli.int (codes "provision-concurrency")) c.provision_concurrency;
    duration_sec = given (cli.int (codes "duration-sec")) c.duration_sec;
    stats_interval_sec = given (cli.int (codes "stats-interval-sec")) c.stats_interval_sec;
    csv_out = given (cli.str (codes "csv-out")) c.csv_out;
    email_pattern = given (cli.str (codes "email-pattern")) c.email_pattern;
    roster_file = given (cli.str (codes "roster")) c.roster_file;
    roster_required = given (cli.bool (codes "roster-required")) c.roster_required;
    verify_server_hmac = given (cli.bool (codes "verify-server-hmac")) c.verify_server_hmac;
    socket_rcvbuf_bytes = given (cli.int (codes "socket-rcvbuf-bytes")) c.socket_rcvbuf_bytes;
    client_caps = given (cli.bool (codes "client-caps")) c.client_caps;
    tls_insecure = given (cli.bool (codes "tls-insecure")) c.tls_insecure;
    session_settle_ms = given (cli.int (codes "session-settle-ms")) c.session_settle_ms;
    rx_health_timeout_sec = given (cli.int (codes "rx-health-timeout-sec")) c.rx_health_timeout_sec;
    token_refresh_lead_sec =
        given (cli.int (codes "token-refresh-lead-sec")) c.token_refresh_lead_sec;
  }
