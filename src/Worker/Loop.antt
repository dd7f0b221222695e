-- ===== src/Worker/Loop.antt =====
-- The loops of src/Worker.cpp over a worker's clients, and `Worker::run`.
use cks_loadtest.Base.{ℕ, zero, suc, false, List, [], ◌∷◌, ◌++◌, length, replicate, none, take}
use cks_loadtest.Base.Int.{pos, negsuc}
use cks_loadtest.Platform.{Floats, Crypto}
use cks_loadtest.Config.{Config}
use cks_loadtest.Stats.{Stats}
use cks_loadtest.Control.{ClientCredentials, ClientUpdate, ControlQueue}
use cks_loadtest.Wire.ActorUpdate.{actor_update_max_size}
use cks_loadtest.Worker.Client.{Sim, SimClient, Cell, waiting}
use cks_loadtest.Worker.Simulation.{Simulation}
use cks_loadtest.Worker.Receive.{Recv, drain_socket}
use cks_loadtest.Worker.Send.{Sends, send_due}
use cks_loadtest.Worker.Lifecycle.{Opening, activate_due, apply_update}

-- `Worker::PendingAdd`
pub record PendingAdd : Type 0 where
  pub creds : ClientCredentials
  pub activate_at : ℕ

-- A worker, with the random generator of its thread and what it shares with the other threads.
pub record Worker (fl : Floats) (Gen : Type 0) : Type 0 where
  pub index : ℕ
  pub clients : List (SimClient fl)
  pub client_count : ℕ
  pub inbox : List ClientUpdate
  pub pending : List PendingAdd
  pub gen : Gen
  pub stats : Stats
  pub control : ControlQueue

-- What one round of `run` takes from the system. The answers to the calls made for a client are
-- indexed by its slot.
pub record Tick (fl : Floats) : Type 0 where
  pub steady_now : ℕ
  pub steady_seconds : fl.Double
  pub system_now : ℕ
  pub openings : ℕ → Opening
  pub sends : ℕ → Sends
  pub events : List (ℕ × List (Recv fl))

module _ {fl : Floats} where
  -- The fields of `SimClient` as they are declared.
  abbrev initial_sim : Sim fl
  initial_sim =
      let zero = fl.of_i64 (pos 0) in
      record {
        world_x = zero;
        world_y = zero;
        world_z = zero;
        dir_x = fl.of_i64 (pos 1);
        dir_y = zero;
        dir_z = zero;
        chunk_x = pos 0;
        chunk_y = pos 0;
        chunk_z = pos 0;
        sparse_c1 = pos 0;
        sparse_c2 = pos 0;
        pos_x = zero;
        pos_y = zero;
        pos_z = zero;
        vel_x = zero;
        vel_y = zero;
        vel_z = zero;
        rot_yaw_deg = zero;
        reaim_at = zero;
        uuid = replicate 32 0;
        sequence = 0;
        last_send_time = zero;
        last_caps_time = fl.of_i64 (negsuc 999_999_999);
        last_move_time = zero;
        message = replicate actor_update_max_size 0;
      }

  -- The client that `applyPendingClients` appends.
  abbrev pub new_client : PendingAdd → SimClient fl
  new_client p = record {
    creds = p.creds;
    state = waiting;
    activate_at = p.activate_at;
    fd = none;
    sim = initial_sim;
    last_rx_time = fl.of_i64 (pos 0);
    refresh_requested = false;
    consecutive_send_errors = 0;
    error_logged = false;
    unauthorized_count = 0;
    activated_at = 0;
    perm_window_center_x = pos 0;
    perm_window_center_y = pos 0;
    perm_window_center_z = pos 0;
    perm_window_valid = false;
    perm_reload_at = 0;
  }

  module _ {Gen : Type 0} where
    abbrev pub put_cell : Worker fl Gen → List (SimClient fl) → Cell fl → Worker fl Gen
    put_cell w cs x = record w { clients = cs; stats = x.stats; control = x.control }

    abbrev pub put_first : SimClient fl → Worker fl Gen → Worker fl Gen
    put_first c w = record w { clients = c ∷ w.clients }

    abbrev pub cell_of : Worker fl Gen → SimClient fl → Cell fl
    cell_of w c = record { client = c; stats = w.stats; control = w.control }

    -- `for (auto& client : clients_)`: `cs` are the clients of `w` from slot `slot` on.
    unfoldable pub each_from :
        (ℕ → Gen → Cell fl → Gen × Cell fl)
        → ℕ
        → List (SimClient fl)
        → Worker fl Gen
        → Worker fl Gen
    each_from f slot [] w = record w { clients = [] }
    each_from f slot (c ∷ cs) w =
        let (g, x) = f slot w.gen (cell_of w c) in
        put_first x.client
          (each_from f (suc slot) cs (record w { gen = g; stats = x.stats; control = x.control }))

    abbrev pub each : (ℕ → Gen → Cell fl → Gen × Cell fl) → Worker fl Gen → Worker fl Gen
    each f w = each_from f 0 w.clients w

    -- A step of the client in one slot. A slot out of range, which the source does not check, does
    -- nothing.
    unfoldable pub at_slot :
        (Cell fl → Cell fl) → ℕ → List (SimClient fl) → Worker fl Gen → Worker fl Gen
    at_slot f slot [] w = record w { clients = [] }
    at_slot f zero (c ∷ cs) w = let x = f (cell_of w c) in put_cell w (x.client ∷ cs) x
    at_slot f (suc slot) (c ∷ cs) w = put_first c (at_slot f slot cs w)

    unfoldable pub add_client : ClientCredentials → ℕ → Worker fl Gen → Worker fl Gen
    add_client creds at w = record w {
      pending = w.pending ++ (record { creds = creds; activate_at = at } ∷ []);
    }

    unfoldable pub post_update : ClientUpdate → Worker fl Gen → Worker fl Gen
    post_update u w = record w { inbox = w.inbox ++ (u ∷ []) }

    append_client : Worker fl Gen → PendingAdd → Worker fl Gen
    append_client w p =
        let cs = w.clients ++ (new_client p ∷ []) in
        record w { clients = cs; client_count = length cs }

    unfoldable pub append_all : List PendingAdd → Worker fl Gen → Worker fl Gen
    unfolding append_client
    append_all [] w = w
    append_all (p ∷ ps) w = append_all ps (append_client w p)

    unfoldable pub apply_pending_clients : Worker fl Gen → Worker fl Gen
    apply_pending_clients w = append_all w.pending (record w { pending = [] })

module _ {fl : Floats} (sm : Simulation fl) (c : Crypto) (cfg : Config fl) where
  unfoldable pub apply_all : List ClientUpdate → Worker fl sm.Gen → Worker fl sm.Gen
  apply_all [] w = w
  apply_all (u ∷ us) w =
      apply_all us
        (at_slot (apply_update sm cfg w.index u.client_index u) u.client_index w.clients w)

  unfoldable pub apply_pending_updates : Worker fl sm.Gen → Worker fl sm.Gen
  apply_pending_updates w = apply_all w.inbox (record w { inbox = [] })

  unfoldable pub activate_due_clients : Tick fl → Worker fl sm.Gen → Worker fl sm.Gen
  activate_due_clients t w =
      each
        (λ slot. activate_due sm cfg w.index slot t.steady_now t.steady_seconds (t.openings slot)) w

  unfoldable pub send_due_updates : Tick fl → Worker fl sm.Gen → Worker fl sm.Gen
  send_due_updates t w =
      each (λ slot. send_due sm c cfg w.index slot t.steady_seconds t.system_now (t.sends slot)) w

  unfoldable pub drain_events : List (ℕ × List (Recv fl)) → Worker fl sm.Gen → Worker fl sm.Gen
  drain_events [] w = w
  drain_events ((slot, rs) ∷ es) w =
      drain_events es (at_slot (drain_socket cfg w.index slot c rs) slot w.clients w)

  -- One round of `Worker::run`; `epoll_wait` names at most 64 slots.
  unfoldable pub run_round : Tick fl → Worker fl sm.Gen → Worker fl sm.Gen
  run_round t w = drain_events (take 64 t.events) (
      send_due_updates t (activate_due_clients t (apply_pending_updates (apply_pending_clients w))))
