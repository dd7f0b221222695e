-- ===== src/Worker/Simulation.antt =====
-- What a worker asks of the simulated client's own code (src/SimClient.hpp): the movement and the
-- message. `Gen` is the state of the thread's random generator.
use cks_loadtest.Base.{ℕ, Bool}
use cks_loadtest.Platform.{Floats}
use cks_loadtest.Config.{Config}
use cks_loadtest.Control.{ClientCredentials}
use cks_loadtest.Worker.Client.{Sim}

pub record Simulation (fl : Floats) : Type 1 where
  pub Gen : Type 0
  pub init_simulation : Config fl → ClientCredentials → fl.Double → Gen → Sim fl → Gen × Sim fl
  pub rebuild_template : Config fl → ClientCredentials → Sim fl → Sim fl
  pub update_walk : Config fl → fl.Double → Gen → Sim fl → Gen × Sim fl
  pub build_update : Config fl → ClientCredentials → ℕ → Sim fl → Bool × Sim fl
  pub message_size : Config fl → ℕ
