-- ===== src/Config.antt =====
-- `Config` of src/Config.hpp: the runtime configuration, with its derived settings. A string is
-- its bytes, and an `int` or `int64_t` an integer.
pub mod Bind
pub mod Email
pub mod Load
pub mod Settings
pub mod Defaults
pub mod File
pub mod Validate
use cks_loadtest.Base.{Bool, not, ◌||◌, if◌then◌else◌}
use cks_loadtest.Base.Int.{ℤ, pos, ltb_ℤ}
use cks_loadtest.Base.Text.{Text, codes, text_eq, is_empty}
use cks_loadtest.Platform.{Floats}

pub record Config (fl : Floats) : Type 0 where
  pub email : Text
  pub password : Text
  pub provisioning_token : Text
  pub management_api_url : Text
  pub game_api_url : Text
  pub app_id : ℤ
  pub clients : ℤ
  pub threads : ℤ
  pub update_hz : ℤ
  pub walk_speed : fl.Double
  pub spawn_radius_chunks : ℤ
  pub distance : ℤ
  pub pose_format : Text
  pub chunk_size_units : fl.Double
  pub volume_chunks : ℤ
  pub replay_logging : Text
  pub sparse_range_chunks : ℤ
  pub sparse_group : ℤ
  pub volume_base_up : ℤ
  pub perm_window_radius_chunks : ℤ
  pub perm_reload_grace_ms : ℤ
  pub decay : ℤ
  pub instance_id : Text
  pub index_base : ℤ
  pub index_limit : ℤ
  pub index_width : ℤ
  pub control_bind : Text
  pub control_token : Text
  pub stats_dir : Text
  pub ramp_batch_size : ℤ
  pub ramp_interval_ms : ℤ
  pub rx_silent_reassign_sec : ℤ
  pub provision_concurrency : ℤ
  pub duration_sec : ℤ
  pub stats_interval_sec : ℤ
  pub csv_out : Text
  pub email_pattern : Text
  pub roster_file : Text
  pub roster_required : Bool
  pub verify_server_hmac : Bool
  pub socket_rcvbuf_bytes : ℤ
  pub client_caps : Bool
  pub caps_interval_sec : ℤ
  pub tls_insecure : Bool
  pub session_settle_ms : ℤ
  pub rx_health_timeout_sec : ℤ
  pub token_refresh_lead_sec : ℤ

module _ {fl : Floats} where
  unfoldable pub is_sparse : Config fl → Bool
  is_sparse c = ltb_ℤ (pos 0) c.sparse_range_chunks

  unfoldable pub needs_password : Config fl → Bool
  needs_password c = is_empty c.roster_file || not c.roster_required

  unfoldable pub is_bwf : Config fl → Bool
  is_bwf c = text_eq c.pose_format (codes "bwf")

  unfoldable pub effective_chunk_size : Config fl → fl.Double
  unfolding is_bwf
  effective_chunk_size c =
      if fl.lt (fl.of_i64 (pos 0)) c.chunk_size_units
      then c.chunk_size_units
      else if is_bwf c
      then fl.of_i64 (pos 16)
      else fl.of_i64 (pos 1600)

  unfoldable pub effective_walk_speed : Config fl → fl.Double
  unfolding is_bwf
  effective_walk_speed c =
      if fl.lt (fl.of_i64 (pos 0)) c.walk_speed
      then c.walk_speed
      else if is_bwf c
      then fl.of_i64 (pos 4)
      else fl.of_i64 (pos 150)
