-- ===== src/Movement/Walk.antt =====
-- `updateWalk`.
use cks_loadtest.Base.{ℕ, Bool, ◌||◌, if◌then◌else◌}
use cks_loadtest.Base.Int.{ℤ, pos, pos_part, abs, ltb_ℤ}
use cks_loadtest.Platform.{Floats}
use cks_loadtest.Config.{Config, is_sparse, effective_chunk_size, effective_walk_speed}
use cks_loadtest.Worker.Client.{Sim}
use cks_loadtest.Placement.{cube_min_horizontal, project_pose, chunk_of}
use cks_loadtest.Movement.{Random, Axes, axes, put_axes, randomize_direction_3d}

module _ (fl : Floats) where
  -- The two lambdas `bounceIn` and `bounce`, which are alike: the position and the direction on an
  -- axis, kept between `lo` and `hi`.
  abbrev pub off_low : fl.Double → fl.Double × fl.Double → fl.Double × fl.Double
  off_low lo (v, d) = if fl.lt v lo then (fl.add lo (fl.sub lo v), fl.fabs d) else (v, d)

  abbrev pub off_high : fl.Double → fl.Double × fl.Double → fl.Double × fl.Double
  off_high hi (v, d) = if fl.lt hi v then (fl.sub hi (fl.sub v hi), fl.neg (fl.fabs d)) else (v, d)

  abbrev pub clamp : fl.Double → fl.Double → fl.Double → fl.Double
  clamp lo hi v = let w = if fl.lt v lo then lo else v in if fl.lt hi w then hi else w

  unfoldable pub bounce : fl.Double → fl.Double → fl.Double × fl.Double → fl.Double × fl.Double
  bounce lo hi vd = let (v, d) = off_high hi (off_low lo vd) in (clamp lo hi v, d)

module _ {fl : Floats} (cfg : Config fl) (rnd : Random fl) (retries : ℕ) where
  abbrev pub step : fl.Double → fl.Double → fl.Double → fl.Double → fl.Double
  step v d dt speed = fl.add v (fl.mul (fl.mul d dt) speed)

  -- The velocity and the heading, from the direction.
  unfoldable pub set_velocity : fl.Double → Sim fl → Sim fl
  set_velocity speed s =
      let a = axes cfg s in
      record s {
        vel_x = fl.mul s.dir_x speed;
        vel_y = fl.mul s.dir_y speed;
        vel_z = fl.mul s.dir_z speed;
        rot_yaw_deg =
            fl.mul (fl.atan2 a.d2 a.d1)
              (fl.div (fl.literal (pos 180) 0) (fl.literal (pos 314_159_265_358_979) 14));
      }

  abbrev pub chunk_low : ℤ → fl.Double
  chunk_low c = fl.mul (fl.of_i64 c) (effective_chunk_size cfg)

  abbrev pub chunk_high : ℤ → fl.Double
  chunk_high c = fl.add (chunk_low c) (effective_chunk_size cfg)

  unfoldable pub walk_sparse : fl.Double → Sim fl → Sim fl
  walk_sparse dt s =
      let speed = effective_walk_speed cfg in
      let a = axes cfg s in
      let (v1, e1) =
        bounce fl (chunk_low s.sparse_c1) (chunk_high s.sparse_c1)
          (step a.h1 a.d1 dt speed, a.d1) in
      let (v2, e2) =
        bounce fl (chunk_low s.sparse_c2) (chunk_high s.sparse_c2)
          (step a.h2 a.d2 dt speed, a.d2) in
      set_velocity speed (put_axes cfg (record a { h1 = v1; h2 = v2; d1 = e1; d2 = e2 }) s)

  abbrev pub cube_side : fl.Double
  cube_side = fl.mul (fl.of_i64 cfg.volume_chunks) (effective_chunk_size cfg)

  abbrev pub h_min : fl.Double
  h_min = chunk_low (cube_min_horizontal (pos_part cfg.volume_chunks))

  abbrev pub u_min : fl.Double
  u_min = chunk_low cfg.volume_base_up

  -- The drift, up to the bounce off the faces.
  unfoldable pub drift : fl.Double → Sim fl → Sim fl
  drift dt s =
      let speed = effective_walk_speed cfg in
      let t = record s {
        world_x = step s.world_x s.dir_x dt speed;
        world_y = step s.world_y s.dir_y dt speed;
        world_z = step s.world_z s.dir_z dt speed;
      } in
      let a = axes cfg t in
      let (v1, e1) = bounce fl h_min (fl.add h_min cube_side) (a.h1, a.d1) in
      let (v2, e2) = bounce fl h_min (fl.add h_min cube_side) (a.h2, a.d2) in
      let (v3, e3) = bounce fl u_min (fl.add u_min cube_side) (a.up, a.dup) in
      put_axes cfg (record { h1 = v1; h2 = v2; up = v3; d1 = e1; d2 = e2; dup = e3 }) t

  unfoldable pub reaim : fl.Double → rnd.Gen → Sim fl → rnd.Gen × Sim fl
  reaim now_sec g s =
      let (g1, t) = randomize_direction_3d rnd retries g s in
      let (wait, g2) = rnd.uniform_real (fl.literal (pos 4) 0) (fl.literal (pos 12) 0) g1 in
      (g2, record t { reaim_at = fl.add now_sec wait })

  abbrev pub maybe_reaim : fl.Double → rnd.Gen → Sim fl → rnd.Gen × Sim fl
  maybe_reaim now_sec g s = if fl.le s.reaim_at now_sec then reaim now_sec g s else (g, s)

  unfoldable pub walk_cube : fl.Double → fl.Double → rnd.Gen → Sim fl → rnd.Gen × Sim fl
  walk_cube now_sec dt g s =
      let (g', t) = maybe_reaim now_sec g (drift dt s) in
      (g', set_velocity (effective_walk_speed cfg) t)

  abbrev pub is_off_spawn : Axes fl → Bool
  is_off_spawn b =
      ltb_ℤ cfg.spawn_radius_chunks (pos (abs (chunk_of fl (effective_chunk_size cfg) b.h1)))
      || ltb_ℤ cfg.spawn_radius_chunks (pos (abs (chunk_of fl (effective_chunk_size cfg) b.h2)))

  -- At the edge of the spawn area the direction turns round; the velocity follows with the next step.
  unfoldable pub walk_plane : fl.Double → Sim fl → Sim fl
  walk_plane dt s =
      let speed = effective_walk_speed cfg in
      let a = axes cfg s in
      let b = record a { h1 = step a.h1 a.d1 dt speed; h2 = step a.h2 a.d2 dt speed } in
      let t = set_velocity speed (put_axes cfg b s) in
      if is_off_spawn b then put_axes cfg (record b { d1 = fl.neg b.d1; d2 = fl.neg b.d2 }) t else t

  abbrev pub walk_shape : fl.Double → fl.Double → rnd.Gen → Sim fl → rnd.Gen × Sim fl
  walk_shape now_sec dt g s =
      if is_sparse cfg
      then (g, walk_sparse dt s)
      else if ltb_ℤ (pos 0) cfg.volume_chunks
      then walk_cube now_sec dt g s
      else (g, walk_plane dt s)

  unfoldable pub update_walk : fl.Double → rnd.Gen → Sim fl → rnd.Gen × Sim fl
  update_walk now_sec g s =
      let dt = fl.sub now_sec s.last_move_time in
      let t = record s { last_move_time = now_sec } in
      if fl.le dt (fl.of_i64 (pos 0))
      then (g, t)
      else (let (g', u) = walk_shape now_sec dt g t in (g', project_pose cfg u))
