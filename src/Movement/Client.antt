-- ===== src/Movement/Client.antt =====
-- `generateUuid`, `initSimulation`, `rebuildTemplate` and `buildUpdate`, and with them the
-- interface Worker.Simulation.
pub mod Ready
use cks_loadtest.Base.{
  ℕ, zero, suc, ◌+◌, ◌-◌, ◌*◌, ◌/◌, ◌%◌, ◌^◌, Bool, true, false, List, [], ◌∷◌, ◌++◌, if◌then◌else◌,
  ltb,
}
use cks_loadtest.Base.Int.{ℤ, pos, negsuc, ◌-ℤ◌, ltb_ℤ}
use cks_loadtest.Base.Words.{Bytes, u8, u64_of_i64}
use cks_loadtest.Platform.{Floats, Crypto}
use cks_loadtest.Config.{Config, is_bwf, is_sparse, effective_chunk_size}
use cks_loadtest.Control.{ClientCredentials}
use cks_loadtest.Wire.Codes.{
  DecayRate, no_decay, exponential, linear_50, linear_25, linear_10, linear_5,
}
use cks_loadtest.Wire.ActorUpdate.{
  PoseFormat, ue5, bwf, ActorPose, actor_update_size, init_actor_update_template_fmt,
  finalize_actor_update_fmt,
}
use cks_loadtest.Worker.Client.{Sim}
use cks_loadtest.Worker.Simulation.{Simulation}
use cks_loadtest.Placement.{place_in_cube, project_pose}
use cks_loadtest.Movement.{Random, axes, put_axes, randomize_direction, randomize_direction_3d}
use cks_loadtest.Movement.Sparse.{place_sparse, walk_height}
use cks_loadtest.Movement.Walk.{update_walk, reaim}

abbrev pub hex_digit : ℕ → ℕ
hex_digit n = if ltb n 10 then 48 + n else 55 + n

-- The digits of `a`, from the one with weight 16 ^ (n - 1) on.
unfoldable pub hex_digits : ℕ → ℕ → Bytes
hex_digits zero a = []
hex_digits (suc n) a = hex_digit (a / 16 ^ n % 16) ∷ hex_digits n a

-- The checks of the configuration admit 0 to 5 only.
abbrev pub decay_rate : ℤ → DecayRate
decay_rate (pos zero) = no_decay
decay_rate (pos (suc zero)) = exponential
decay_rate (pos (suc (suc zero))) = linear_50
decay_rate (pos (suc (suc (suc zero)))) = linear_25
decay_rate (pos (suc (suc (suc (suc zero))))) = linear_10
decay_rate (pos (suc (suc (suc (suc (suc n)))))) = linear_5
decay_rate (negsuc n) = no_decay

module _ {fl : Floats} where
  unfoldable pub pose_format : Config fl → PoseFormat
  pose_format cfg = if is_bwf cfg then bwf else ue5

  unfoldable pub message_size : Config fl → ℕ
  message_size cfg = actor_update_size (pose_format cfg)

  unfoldable pub rebuild_template : Config fl → ClientCredentials → Sim fl → Sim fl
  rebuild_template cfg creds s = record s {
    last_caps_time = fl.of_i64 (negsuc 999_999_999);
    message =
        init_actor_update_template_fmt s.message (pose_format cfg) s.uuid cfg.app_id
          creds.game_token_id (u8 (u64_of_i64 cfg.distance)) (decay_rate cfg.decay);
  }

  -- `now_ms` is the time of the system clock.
  unfoldable pub pose_of : Config fl → ℕ → Sim fl → ActorPose fl
  pose_of cfg now_ms s =
      let zero_ : fl.Double = fl.of_i64 (pos 0) in
      let p : ActorPose fl = record {
        pos_x = s.pos_x;
        pos_y = s.pos_y;
        pos_z = s.pos_z;
        pitch = zero_;
        yaw = zero_;
        roll = zero_;
        vel_x = s.vel_x;
        vel_y = s.vel_y;
        vel_z = s.vel_z;
        grounded = false;
        updated_at_ms = zero_;
      } in
      if is_bwf cfg
      then record p { yaw = fl.atan2 s.dir_x s.dir_z; updated_at_ms = fl.of_i64 (pos now_ms) }
      else record p { roll = s.rot_yaw_deg }

  -- The clock of the worker counts nanoseconds.
  unfoldable pub build_update : Crypto → Config fl → ClientCredentials → ℕ → Sim fl → Bool × Sim fl
  build_update c cfg creds sys_now s =
      let (built, m) =
        finalize_actor_update_fmt fl c s.message (pose_format cfg) s.chunk_x s.chunk_y s.chunk_z
          (pose_of cfg (sys_now / 1_000_000) s) s.sequence creds.app_token in
      (built, record s { message = m; sequence = u8 (s.sequence + 1) })

module _ {fl : Floats} (rnd : Random fl) where
  unfoldable pub generate_uuid : rnd.Gen → Sim fl → rnd.Gen × Sim fl
  generate_uuid g s =
      let (a, g1) = rnd.uniform_u64 g in
      let (b, g2) = rnd.uniform_u64 g1 in
      (g2, record s { uuid = hex_digits 16 a ++ hex_digits 16 b })

module _ {fl : Floats} (rnd : Random fl) (retries : ℕ) where
  unfoldable pub place_on_plane : Config fl → rnd.Gen → Sim fl → rnd.Gen × Sim fl
  place_on_plane cfg g s =
      let size = effective_chunk_size cfg in
      let low = pos 0 -ℤ cfg.spawn_radius_chunks in
      let (c1, g1) = rnd.uniform_int low cfg.spawn_radius_chunks g in
      let (c2, g2) = rnd.uniform_int low cfg.spawn_radius_chunks g1 in
      (
        g2,
        put_axes cfg
            (record (axes cfg s) {
              h1 = fl.mul (fl.of_i64 c1) size;
              h2 = fl.mul (fl.of_i64 c2) size;
              up = walk_height cfg;
            })
            s,
      )

  unfoldable pub place_and_aim :
      Config fl → ClientCredentials → fl.Double → rnd.Gen → Sim fl → rnd.Gen × Sim fl
  place_and_aim cfg creds now_sec g s =
      if is_sparse cfg
      then (let (g1, t) = place_sparse cfg rnd creds g s in
          randomize_direction rnd retries cfg g1 t)
      else if ltb_ℤ (pos 0) cfg.volume_chunks
      then (let jitter = rnd.uniform_real (fl.literal (pos 5) 2) (fl.literal (pos 95) 2) in
          let (j1, g1) = jitter g in
          let (j2, g2) = jitter g1 in
          let (jup, g3) = jitter g2 in
          reaim cfg rnd retries now_sec g3 (place_in_cube cfg creds j1 j2 jup s))
      else (let (g1, t) = place_on_plane cfg g s in randomize_direction rnd retries cfg g1 t)

  -- The first send is staggered inside one update interval.
  unfoldable pub init_simulation :
      Config fl → ClientCredentials → fl.Double → rnd.Gen → Sim fl → rnd.Gen × Sim fl
  init_simulation cfg creds now_sec g s =
      let (g1, t) = place_and_aim cfg creds now_sec g s in
      let (g2, u) = generate_uuid rnd g1 t in
      let interval = fl.div (fl.of_i64 (pos 1)) (fl.of_i64 cfg.update_hz) in
      let (off, g3) = rnd.uniform_real (fl.of_i64 (pos 0)) (fl.of_i64 (pos 1)) g2 in
      let v = record u {
        last_move_time = now_sec;
        last_send_time = fl.add (fl.sub now_sec interval) (fl.mul off interval);
        sequence = 0;
      } in
      (g3, project_pose cfg (rebuild_template cfg creds v))

  -- The simulation that the workers run.
  abbrev pub simulation : Crypto → Simulation fl
  simulation c = record {
    Gen = rnd.Gen;
    init_simulation = init_simulation;
    rebuild_template = rebuild_template;
    update_walk = λ cfg now_sec g s. update_walk cfg rnd retries now_sec g s;
    build_update = build_update c;
    message_size = message_size;
  }
