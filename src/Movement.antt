-- ===== src/Movement.antt =====
-- src/SimClient.hpp: how a simulated client is placed, walks and builds its message. This fills the
-- interface Worker.Simulation.
pub mod Sparse
pub mod Walk
pub mod Inside
pub mod Client
pub mod Message
use cks_loadtest.Base.{ℕ, zero, suc, Bool, if◌then◌else◌}
use cks_loadtest.Base.Int.{ℤ, pos, negsuc}
use cks_loadtest.Platform.{Floats}
use cks_loadtest.Config.{Config, is_bwf}
use cks_loadtest.Worker.Client.{Sim}

-- The random generator of a thread and the distributions of the standard library.
pub record Random (fl : Floats) : Type 1 where
  pub Gen : Type 0
  pub uniform_real : fl.Double → fl.Double → Gen → fl.Double × Gen
  pub uniform_int : ℤ → ℤ → Gen → ℤ × Gen
  pub uniform_u64 : Gen → ℕ × Gen

-- `Axes`: the world position and the direction on the horizontal axes and the vertical one.
pub record Axes (fl : Floats) : Type 0 where
  pub h1 : fl.Double
  pub h2 : fl.Double
  pub up : fl.Double
  pub d1 : fl.Double
  pub d2 : fl.Double
  pub dup : fl.Double

-- The chunk of a client in the sparse placement.
abbrev pub own_chunk : {fl : Floats} → Sim fl → ℤ × ℤ
own_chunk s = (s.sparse_c1, s.sparse_c2)

module _ {fl : Floats} (cfg : Config fl) where
  unfoldable pub axes : Sim fl → Axes fl
  axes s =
      if is_bwf cfg
      then record {
        h1 = s.world_x;
        h2 = s.world_z;
        up = s.world_y;
        d1 = s.dir_x;
        d2 = s.dir_z;
        dup = s.dir_y;
      }
      else record {
        h1 = s.world_x;
        h2 = s.world_y;
        up = s.world_z;
        d1 = s.dir_x;
        d2 = s.dir_y;
        dup = s.dir_z;
      }

  -- What is written through the references.
  unfoldable pub put_axes : Axes fl → Sim fl → Sim fl
  put_axes a s =
      if is_bwf cfg
      then record s {
        world_x = a.h1;
        world_z = a.h2;
        world_y = a.up;
        dir_x = a.d1;
        dir_z = a.d2;
        dir_y = a.dup;
      }
      else record s {
        world_x = a.h1;
        world_y = a.h2;
        world_z = a.up;
        dir_x = a.d1;
        dir_y = a.d2;
        dir_z = a.dup;
      }

-- The directions. The source draws until the vector is long enough; here the draw after `retries`
-- short ones is taken.
module _ {fl : Floats} (rnd : Random fl) where
  abbrev pub one_draw : rnd.Gen → fl.Double × rnd.Gen
  one_draw g = rnd.uniform_real (fl.of_i64 (negsuc 0)) (fl.of_i64 (pos 1)) g

  abbrev pub is_short : fl.Double → Bool
  is_short square = fl.lt (fl.sqrt square) (fl.literal (pos 1) 4)

  unfoldable pub draw_pair : ℕ → rnd.Gen → (fl.Double × fl.Double) × rnd.Gen
  draw_pair zero g = let (x, g1) = one_draw g in let (y, g2) = one_draw g1 in ((x, y), g2)
  draw_pair (suc retries) g =
      let (x, g1) = one_draw g in
      let (y, g2) = one_draw g1 in
      let again = draw_pair retries g2 in
      if is_short (fl.add (fl.mul x x) (fl.mul y y)) then again else ((x, y), g2)

  unfoldable pub draw_triple : ℕ → rnd.Gen → (fl.Double × fl.Double × fl.Double) × rnd.Gen
  draw_triple zero g =
      let (x, g1) = one_draw g in
      let (y, g2) = one_draw g1 in let (z, g3) = one_draw g2 in ((x, y, z), g3)
  draw_triple (suc retries) g =
      let (x, g1) = one_draw g in
      let (y, g2) = one_draw g1 in
      let (z, g3) = one_draw g2 in
      let again = draw_triple retries g3 in
      if is_short (fl.add (fl.add (fl.mul x x) (fl.mul y y)) (fl.mul z z))
      then again
      else ((x, y, z), g3)

  unfoldable pub randomize_direction : ℕ → Config fl → rnd.Gen → Sim fl → rnd.Gen × Sim fl
  randomize_direction retries cfg g s =
      let ((x, y), g') = draw_pair retries g in
      let len = fl.sqrt (fl.add (fl.mul x x) (fl.mul y y)) in
      (
        g',
        put_axes cfg
            (record (axes cfg s) { d1 = fl.div x len; d2 = fl.div y len; dup = fl.of_i64 (pos 0) })
            s,
      )

  unfoldable pub randomize_direction_3d : ℕ → rnd.Gen → Sim fl → rnd.Gen × Sim fl
  randomize_direction_3d retries g s =
      let ((x, y, z), g') = draw_triple retries g in
      let len = fl.sqrt (fl.add (fl.add (fl.mul x x) (fl.mul y y)) (fl.mul z z)) in
      (g', record s { dir_x = fl.div x len; dir_y = fl.div y len; dir_z = fl.div z len })
