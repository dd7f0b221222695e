-- ===== src/Movement/Inside.antt =====
-- Walking clients stay where they belong: in their chunk, or in the cube.
use cks_loadtest.Base.{ℕ, ◌≡◌, refl, ◌∙◌, arith, Bool, true, false, ◌||◌, Bool-cases, inl, inr}
use cks_loadtest.Base.Int.{pos, ltb_ℤ}
use cks_loadtest.Platform.{Floats}
use cks_loadtest.Config.{Config, is_sparse, is_bwf}
use cks_loadtest.Worker.Client.{Sim}
use cks_loadtest.Placement.{project_pose}
use cks_loadtest.Movement.{own_chunk, Random, Axes, axes, put_axes, randomize_direction_3d}
use cks_loadtest.Movement.Walk.{
  bounce, clamp, off_low, off_high, walk_sparse, chunk_low, chunk_high, drift, h_min, u_min,
  cube_side, set_velocity, reaim, maybe_reaim, walk_cube, update_walk,
}

module _ (fl : Floats) where
  -- `lo` to `hi` is a range: none of the ends is below itself or on the wrong side of the other.
  abbrev pub IsRange : fl.Double → fl.Double → Type 0
  IsRange lo hi = (fl.lt lo lo ≡ false) × (fl.lt hi hi ≡ false) × (fl.lt hi lo ≡ false)

  abbrev pub IsBetween : fl.Double → fl.Double → fl.Double → Type 0
  IsBetween lo hi v = (fl.lt v lo ≡ false) × (fl.lt hi v ≡ false)

  clamp-IsBetween : (lo hi v : fl.Double) → IsRange lo hi → IsBetween lo hi (clamp fl lo hi v)
  clamp-IsBetween lo hi v range = grind arith

  bounce-IsBetween :
      {lo hi : fl.Double}
      → (vd : fl.Double × fl.Double) → IsRange lo hi
      → IsBetween lo hi (bounce fl lo hi vd).0
  unfolding bounce
  bounce-IsBetween {lo} {hi} vd range =
      clamp-IsBetween lo hi (off_high fl hi (off_low fl lo vd)).0 range

module _ {fl : Floats} (cfg : Config fl) where
  axes-put : (a : Axes fl) (s : Sim fl) → axes cfg (put_axes cfg a s) ≡ a
  unfolding axes put_axes
  axes-put a s = elim (Bool-cases (is_bwf cfg)) [ inl b ↦ rw b refl | inr u ↦ rw u refl ]

  axes-project : (s : Sim fl) → axes cfg (project_pose cfg s) ≡ axes cfg s
  unfolding axes project_pose
  axes-project s = elim (Bool-cases (is_bwf cfg)) [ inl b ↦ rw b refl | inr u ↦ rw u refl ]

  own_chunk-project : (s : Sim fl) → own_chunk (project_pose cfg s) ≡ own_chunk s
  unfolding project_pose
  own_chunk-project s = elim (Bool-cases (is_bwf cfg)) [ inl b ↦ rw b refl | inr u ↦ rw u refl ]

  pub own_chunk-put : (a : Axes fl) (s : Sim fl) → own_chunk (put_axes cfg a s) ≡ own_chunk s
  unfolding put_axes
  own_chunk-put a s = elim (Bool-cases (is_bwf cfg)) [ inl b ↦ rw b refl | inr u ↦ rw u refl ]

module _ {fl : Floats} (cfg : Config fl) (rnd : Random fl) (retries : ℕ) where
  -- The sides of the client's own chunk, if the placement is sparse, or of the cube, are ranges.
  abbrev pub HasRanges : Bool → Sim fl → Type 0
  HasRanges true s =
      IsRange fl (chunk_low cfg rnd retries s.sparse_c1) (chunk_high cfg rnd retries s.sparse_c1)
      × IsRange fl (chunk_low cfg rnd retries s.sparse_c2) (chunk_high cfg rnd retries s.sparse_c2)
  HasRanges false s =
      IsRange fl (h_min cfg rnd retries)
        (fl.add (h_min cfg rnd retries) (cube_side cfg rnd retries))
      × IsRange fl (u_min cfg rnd retries)
          (fl.add (u_min cfg rnd retries) (cube_side cfg rnd retries))

  -- The client is past none of these sides, and its own chunk is the same.
  abbrev pub IsHome : Bool → Sim fl → Sim fl → Type 0
  IsHome true s t =
      (own_chunk t ≡ own_chunk s)
      × IsBetween fl (chunk_low cfg rnd retries s.sparse_c1)
          (chunk_high cfg rnd retries s.sparse_c1) (axes cfg t).h1
      × IsBetween fl (chunk_low cfg rnd retries s.sparse_c2)
          (chunk_high cfg rnd retries s.sparse_c2) (axes cfg t).h2
  IsHome false s t =
      IsBetween fl (h_min cfg rnd retries)
        (fl.add (h_min cfg rnd retries) (cube_side cfg rnd retries)) (axes cfg t).h1
      × IsBetween fl (h_min cfg rnd retries)
          (fl.add (h_min cfg rnd retries) (cube_side cfg rnd retries)) (axes cfg t).h2
      × IsBetween fl (u_min cfg rnd retries)
          (fl.add (u_min cfg rnd retries) (cube_side cfg rnd retries)) (axes cfg t).up

  axes-velocity :
      (speed : fl.Double) (s : Sim fl)
      → axes cfg (set_velocity cfg rnd retries speed s) ≡ axes cfg s
  unfolding axes set_velocity
  axes-velocity speed s = refl

  own_chunk-velocity :
      (speed : fl.Double) (s : Sim fl)
      → own_chunk (set_velocity cfg rnd retries speed s) ≡ own_chunk s
  unfolding set_velocity
  own_chunk-velocity speed s = refl

  sparse-IsHome :
      (dt : fl.Double) (s : Sim fl)
      → HasRanges true s
      → IsHome true s (project_pose cfg (walk_sparse cfg rnd retries dt s))
  unfolding walk_sparse
  sparse-IsHome dt s (r1, r2) = (
    own_chunk-project cfg _ ∙ own_chunk-velocity _ _ ∙ own_chunk-put cfg _ s,
    simp (axes-project, axes-velocity, axes-put) (bounce-IsBetween fl _ r1),
    simp (axes-project, axes-velocity, axes-put) (bounce-IsBetween fl _ r2),
  )

  drift-IsHome :
      (dt : fl.Double) (s : Sim fl)
      → HasRanges false s
      → IsHome false s (drift cfg rnd retries dt s)
  unfolding drift
  drift-IsHome dt s (r1, r2) =
      simp (axes-put) (bounce-IsBetween fl _ r1, bounce-IsBetween fl _ r1, bounce-IsBetween fl _ r2)

  reaim-axes :
      (now_sec : fl.Double) (g : rnd.Gen) (s : Sim fl)
      → ((axes cfg (reaim cfg rnd retries now_sec g s).1).h1 ≡ (axes cfg s).h1)
        × ((axes cfg (reaim cfg rnd retries now_sec g s).1).h2 ≡ (axes cfg s).h2)
        × ((axes cfg (reaim cfg rnd retries now_sec g s).1).up ≡ (axes cfg s).up)
  unfolding reaim axes randomize_direction_3d
  reaim-axes now_sec g s = elim (Bool-cases (is_bwf cfg)) [
    | inl b ↦ rw b (refl, refl, refl)
    | inr u ↦ rw u (refl, refl, refl)
  ]

  -- Turning does not move the client.
  maybe_reaim-IsHome :
      (now_sec : fl.Double) (g : rnd.Gen) (r s : Sim fl)
      → IsHome false r s
      → IsHome false r (maybe_reaim cfg rnd retries now_sec g s).1
  maybe_reaim-IsHome now_sec g r s home =
      let (e1, e2, e3) = reaim-axes now_sec g s in
      elim (Bool-cases (fl.le s.reaim_at now_sec)) [
        | inl due ↦ simp (due, e1, e2, e3) home
        | inr later ↦ simp later home
      ]

  cube-IsHome :
      (now_sec dt : fl.Double) (g : rnd.Gen) (s : Sim fl)
      → HasRanges false s
      → IsHome false s (project_pose cfg (walk_cube cfg rnd retries now_sec dt g s).1)
  unfolding walk_cube
  cube-IsHome now_sec dt g s ranges =
      simp (axes-project, axes-velocity)
        (maybe_reaim-IsHome now_sec g s (drift cfg rnd retries dt s) (drift-IsHome dt s ranges))

second_test : (a b : Bool) → a ≡ false → (a || b) ≡ true → b ≡ true
second_test a b u placed = ground arith

-- A client that walks in the sparse placement keeps its own chunk and is past none of its sides, and in a
-- cube it is past none of the cube's, whatever the draws are, if time has passed and the sides are ranges.
-- (A position that is not a number is past no side.)
pub update_walk-IsHome :
    (fl : Floats) (cfg : Config fl) (rnd : Random fl) (retries : ℕ) (now_sec : fl.Double)
    (g : rnd.Gen) (s : Sim fl)
    → (is_sparse cfg || ltb_ℤ (pos 0) cfg.volume_chunks) ≡ true
    → fl.le (fl.sub now_sec s.last_move_time) (fl.of_i64 (pos 0)) ≡ false
    → HasRanges cfg rnd retries (is_sparse cfg) s
    → IsHome cfg rnd retries (is_sparse cfg) s (update_walk cfg rnd retries now_sec g s).1
unfolding update_walk
update_walk-IsHome fl cfg rnd retries now_sec g s placed moved =
    let t = record s { last_move_time = now_sec } in
    let dt = fl.sub now_sec s.last_move_time in
    elim (Bool-cases (is_sparse cfg)) [
      | inl c ↦ simp (moved, c) (λ ranges. sparse-IsHome cfg rnd retries dt t ranges)
      | inr u ↦
          simp (moved, u, second_test (is_sparse cfg) (ltb_ℤ (pos 0) cfg.volume_chunks) u placed)
            (λ ranges. cube-IsHome cfg rnd retries now_sec dt g t ranges)
    ]
