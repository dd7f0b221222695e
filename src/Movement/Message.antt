-- ===== src/Movement/Message.antt =====
-- Placing, aiming and walking leave the client's message and its uuid alone.
use cks_loadtest.Base.{ℕ, ◌≡◌, refl, ◌∙◌, Bool, true, false, Bool-cases, inl, inr, if◌then◌else◌}
use cks_loadtest.Base.Int.{pos, ltb_ℤ}
use cks_loadtest.Base.Words.{Bytes}
use cks_loadtest.Platform.{Floats}
use cks_loadtest.Config.{Config, is_bwf, is_sparse, effective_walk_speed}
use cks_loadtest.Control.{ClientCredentials}
use cks_loadtest.Worker.Client.{Sim}
use cks_loadtest.Placement.{place_in_cube, project_pose}
use cks_loadtest.Movement.{
  Random, Axes, axes, put_axes, randomize_direction, randomize_direction_3d,
}
use cks_loadtest.Movement.Sparse.{place_sparse}
use cks_loadtest.Movement.Walk.{
  update_walk, walk_sparse, walk_cube, walk_plane, walk_shape, drift, reaim, step, is_off_spawn,
  set_velocity,
}
use cks_loadtest.Movement.Client.{place_and_aim, place_on_plane}

-- The message and the uuid.
abbrev pub texts : {fl : Floats} → Sim fl → Bytes × Bytes
texts s = (s.message, s.uuid)

texts-if :
    {fl : Floats}
    → (b : Bool) (s t : Sim fl) {r : Bytes × Bytes} → texts s ≡ r
    → texts t ≡ r
    → texts (if b then s else t) ≡ r
texts-if true s t e h = e
texts-if false s t e h = h

module _ {fl : Floats} (cfg : Config fl) where
  texts-put_axes : (a : Axes fl) (s : Sim fl) → texts (put_axes cfg a s) ≡ texts s
  unfolding put_axes
  texts-put_axes a s = elim (Bool-cases (is_bwf cfg)) [ inl b ↦ rw b refl | inr u ↦ rw u refl ]

  pub texts-project : (s : Sim fl) → texts (project_pose cfg s) ≡ texts s
  unfolding project_pose
  texts-project s = elim (Bool-cases (is_bwf cfg)) [ inl b ↦ rw b refl | inr u ↦ rw u refl ]

  texts-in_cube :
      (creds : ClientCredentials) (i j k : fl.Double) (s : Sim fl)
      → texts (place_in_cube cfg creds i j k s) ≡ texts s
  unfolding place_in_cube
  texts-in_cube creds i j k s = elim (Bool-cases (is_bwf cfg)) [
    | inl b ↦ rw b refl
    | inr u ↦ rw u refl
  ]

module _ {fl : Floats} (cfg : Config fl) (rnd : Random fl) (retries : ℕ) where
  texts-velocity :
      (speed : fl.Double) (s : Sim fl) → texts (set_velocity cfg rnd retries speed s) ≡ texts s
  unfolding set_velocity
  texts-velocity speed s = refl

  texts-direction :
      (g : rnd.Gen) (s : Sim fl) → texts (randomize_direction rnd retries cfg g s).1 ≡ texts s
  unfolding randomize_direction
  texts-direction g s = texts-put_axes cfg _ s

  texts-reaim :
      (now_sec : fl.Double) (g : rnd.Gen) (s : Sim fl)
      → texts (reaim cfg rnd retries now_sec g s).1 ≡ texts s
  unfolding reaim randomize_direction_3d
  texts-reaim now_sec g s = refl

  texts-sparse :
      (creds : ClientCredentials) (g : rnd.Gen) (s : Sim fl)
      → texts (place_sparse cfg rnd creds g s).1 ≡ texts s
  unfolding place_sparse
  texts-sparse creds g s = texts-put_axes cfg _ _

  texts-plane : (g : rnd.Gen) (s : Sim fl) → texts (place_on_plane rnd retries cfg g s).1 ≡ texts s
  unfolding place_on_plane
  texts-plane g s = texts-put_axes cfg _ s

  pub texts-place :
      (creds : ClientCredentials) (now_sec : fl.Double) (g : rnd.Gen) (s : Sim fl)
      → texts (place_and_aim rnd retries cfg creds now_sec g s).1 ≡ texts s
  unfolding place_and_aim
  texts-place creds now_sec g s = elim (Bool-cases (is_sparse cfg)) [
    | inl c ↦ rw c (texts-direction _ _ ∙ texts-sparse creds g s)
    | inr u ↦ elim (Bool-cases (ltb_ℤ (pos 0) cfg.volume_chunks)) [
      | inl v ↦ rw (u, v) (texts-reaim now_sec _ _ ∙ texts-in_cube cfg creds _ _ _ s)
      | inr w ↦ rw (u, w) (texts-direction _ _ ∙ texts-plane g s)
    ]
  ]

  texts-walk_sparse :
      (dt : fl.Double) (s : Sim fl) → texts (walk_sparse cfg rnd retries dt s) ≡ texts s
  unfolding walk_sparse
  texts-walk_sparse dt s = texts-velocity _ _ ∙ texts-put_axes cfg _ s

  texts-drift : (dt : fl.Double) (s : Sim fl) → texts (drift cfg rnd retries dt s) ≡ texts s
  unfolding drift
  texts-drift dt s = texts-put_axes cfg _ _

  texts-walk_cube :
      (now_sec dt : fl.Double) (g : rnd.Gen) (s : Sim fl)
      → texts (walk_cube cfg rnd retries now_sec dt g s).1 ≡ texts s
  unfolding walk_cube
  texts-walk_cube now_sec dt g s =
      let d = drift cfg rnd retries dt s in
      elim (Bool-cases (fl.le d.reaim_at now_sec)) [
        | inl due ↦ simp due (texts-velocity _ _ ∙ texts-reaim now_sec g d ∙ texts-drift dt s)
        | inr later ↦ simp later (texts-velocity _ _ ∙ texts-drift dt s)
      ]

  texts-walk_plane :
      (dt : fl.Double) (s : Sim fl) → texts (walk_plane cfg rnd retries dt s) ≡ texts s
  unfolding walk_plane
  texts-walk_plane dt s =
      let a = axes cfg s in
      let speed = effective_walk_speed cfg in
      let b = record a {
        h1 = step cfg rnd retries a.h1 a.d1 dt speed;
        h2 = step cfg rnd retries a.h2 a.d2 dt speed;
      } in
      let moved = texts-velocity speed (put_axes cfg b s) ∙ texts-put_axes cfg b s in
      texts-if (is_off_spawn cfg rnd retries b) _ _ (texts-put_axes cfg _ _ ∙ moved) moved

  texts-walk_shape :
      (now_sec dt : fl.Double) (g : rnd.Gen) (s : Sim fl)
      → texts (walk_shape cfg rnd retries now_sec dt g s).1 ≡ texts s
  texts-walk_shape now_sec dt g s = elim (Bool-cases (is_sparse cfg)) [
    | inl c ↦ rw c (texts-walk_sparse dt s)
    | inr u ↦ elim (Bool-cases (ltb_ℤ (pos 0) cfg.volume_chunks)) [
      | inl v ↦ rw (u, v) (texts-walk_cube now_sec dt g s)
      | inr w ↦ rw (u, w) (texts-walk_plane dt s)
    ]
  ]

  pub texts-walk :
      (now_sec : fl.Double) (g : rnd.Gen) (s : Sim fl)
      → texts (update_walk cfg rnd retries now_sec g s).1 ≡ texts s
  unfolding update_walk
  texts-walk now_sec g s =
      let t = record s { last_move_time = now_sec } in
      let dt = fl.sub now_sec s.last_move_time in
      elim (Bool-cases (fl.le dt (fl.of_i64 (pos 0)))) [
        | inl still ↦ simp still refl
        | inr moved ↦ simp moved (texts-project cfg _ ∙ texts-walk_shape now_sec dt g t)
      ]
