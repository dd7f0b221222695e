-- ===== src/Tests/OfMovement.antt =====
-- Witnesses for the placement and the walk.
use cks_loadtest.Base.{ℕ, suc, ◌+◌, ◌%◌, ◌≡◌, refl, true, arith, take, replicate, ◌∷◌}
use cks_loadtest.Base.Int.{pos}
use cks_loadtest.Base.Words.{to_le}
use cks_loadtest.Base.Text.{text_eq}
use cks_loadtest.Config.{Config, is_sparse, is_bwf, effective_chunk_size}
use cks_loadtest.Control.{ClientCredentials}
use cks_loadtest.Wire.Buffer.{put}
use cks_loadtest.Wire.ActorUpdate.{patch, init_actor_update_template_fmt}
use cks_loadtest.Wire.Inbound.{verify_notification}
use cks_loadtest.Worker.Client.{Sim}
use cks_loadtest.Movement.{Random, own_chunk}
use cks_loadtest.Movement.Sparse.{IsInRange, place_sparse}
use cks_loadtest.Movement.Sparse.Placed.{place_sparse-IsShared}
use cks_loadtest.Movement.Walk.{update_walk}
use cks_loadtest.Movement.Inside.{IsHome, update_walk-IsHome}
use cks_loadtest.Movement.Client.{
  init_simulation, rebuild_template, build_update, message_size, pose_format,
}
use cks_loadtest.Movement.Client.Ready.{
  IsReady, rebuild_template-IsReady, init_simulation-IsReady, build_update-IsReady,
}
use cks_loadtest.Tests.{floats, crypto, config, credentials, sim_example}

-- Every real number drawn is the lowest.
abbrev low_draws : Random floats
low_draws = record {
  Gen = ℕ;
  uniform_real = λ lo hi g. (lo, suc g);
  uniform_int = λ lo hi g. (lo, suc g);
  uniform_u64 = λ g. (g, suc g);
}

abbrev sparse_config : Config floats
sparse_config = record config {
  sparse_range_chunks = pos 5;
  sparse_group = pos 4;
  chunk_size_units = 16;
  walk_speed = 100;
}

update_walk-IsHome_example :
    IsHome sparse_config low_draws 2 true sim_example
      (update_walk sparse_config low_draws 2 3 0 sim_example).1
unfolding is_sparse effective_chunk_size
update_walk-IsHome_example =
    update_walk-IsHome floats sparse_config low_draws 2 3 0 sim_example refl refl
      ((refl, refl, refl), (refl, refl, refl))

-- Two clients of the second group.
abbrev client_at : ℕ → ClientCredentials
client_at n = record credentials { index = pos n }

place_sparse-IsShared_example :
    IsInRange sparse_config
      (place_sparse sparse_config low_draws (client_at 4) 0 sim_example).1.sparse_c1
    × IsInRange sparse_config
        (place_sparse sparse_config low_draws (client_at 4) 0 sim_example).1.sparse_c2
    × (own_chunk (place_sparse sparse_config low_draws (client_at 4) 0 sim_example).1
        ≡ own_chunk (place_sparse sparse_config low_draws (client_at 7) 9 sim_example).1)
unfolding is_sparse
place_sparse-IsShared_example =
    place_sparse-IsShared floats sparse_config low_draws (client_at 4) (client_at 7) 0 9 sim_example
      sim_example refl refl

init_simulation-IsReady_example :
    let t = (init_simulation low_draws 2 sparse_config credentials 3 0 sim_example).1 in
    IsReady sparse_config credentials t
    × IsReady sparse_config credentials (update_walk sparse_config low_draws 2 4 9 t).1
init_simulation-IsReady_example =
    init_simulation-IsReady sparse_config credentials low_draws 2 3 4 0 9 sim_example refl

abbrev ready_example : Sim floats
ready_example = rebuild_template config credentials sim_example

build_update-IsReady_example :
    let (built, t) = build_update crypto config credentials 5 ready_example in
    IsReady config credentials t
    × (t.sequence ≡ (ready_example.sequence + 1) % 256)
    × (verify_notification crypto (take (message_size config) t.message) credentials.app_token
        ≡ true)
unfolding rebuild_template pose_format is_bwf text_eq patch put init_actor_update_template_fmt to_le
build_update-IsReady_example =
    build_update-IsReady floats crypto config credentials 5 ready_example (220 ∷ replicate 31 64)
      (rebuild_template-IsReady config credentials sim_example refl refl) (omega arith)
      (omega arith) (omega arith) refl refl
