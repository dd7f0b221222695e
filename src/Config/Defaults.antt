-- ===== src/Config/Defaults.antt =====
-- The defaults of the fields of `Config`, from src/Config.hpp.
use cks_loadtest.Base.{true, false}
use cks_loadtest.Base.Int.{pos, negsuc}
use cks_loadtest.Base.Text.{codes}
use cks_loadtest.Platform.{Floats}
use cks_loadtest.Config.{Config}

module _ {fl : Floats} where
  abbrev pub default_config : Config fl
  default_config = record {
    email = codes "";
    password = codes "";
    provisioning_token = codes "";
    management_api_url = codes "";
    game_api_url = codes "";
    app_id = pos 0;
    clients = pos 10;
    threads = pos 1;
    update_hz = pos 10;
    walk_speed = fl.of_i64 (negsuc 0);
    spawn_radius_chunks = pos 8;
    distance = pos 8;
    pose_format = codes "ue5";
    chunk_size_units = fl.of_i64 (negsuc 0);
    volume_chunks = pos 0;
    replay_logging = codes "leave";
    sparse_range_chunks = pos 0;
    sparse_group = pos 1;
    volume_base_up = pos 0;
    perm_window_radius_chunks = pos 8;
    perm_reload_grace_ms = pos 5000;
    decay = pos 1;
    instance_id = codes "";
    index_base = pos 0;
    index_limit = negsuc 0;
    index_width = pos 4;
    control_bind = codes "127.0.0.1:9109";
    control_token = codes "";
    stats_dir = codes "";
    ramp_batch_size = pos 10;
    ramp_interval_ms = pos 1000;
    rx_silent_reassign_sec = pos 0;
    provision_concurrency = pos 4;
    duration_sec = pos 0;
    stats_interval_sec = pos 5;
    csv_out = codes "";
    email_pattern = codes "{local}+lt-{index}@{domain}";
    roster_file = codes "";
    roster_required = false;
    verify_server_hmac = false;
    socket_rcvbuf_bytes = pos 0;
    client_caps = true;
    caps_interval_sec = pos 15;
    tls_insecure = false;
    session_settle_ms = pos 1500;
    rx_health_timeout_sec = pos 10;
    token_refresh_lead_sec = pos 120;
  }
