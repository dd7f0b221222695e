-- ===== src/Worker/Lifecycle.antt =====
-- `openSocket`, `activateDueClients`, `applyPendingUpdates` and `applyPendingClients` of
-- src/Worker.cpp.
use cks_loadtest.Base.{
  ℕ, Bool, true, false, not, ◌&&◌, ◌||◌, Option, none, some, if◌then◌else◌, ◌==◌, ltb, get_or,
}
use cks_loadtest.Base.Int.{pos, negsuc, ◌+ℤ◌, ◌-ℤ◌, ltb_ℤ, ◌==ℤ◌}
use cks_loadtest.Platform.{Floats}
use cks_loadtest.Config.{Config}
use cks_loadtest.Stats.{inc}
use cks_loadtest.Control.{ClientUpdate, reassign}
use cks_loadtest.Worker.Client.{
  Sim, SimClient, Cell, State, waiting, active, suspended, is_waiting, close_socket, with_client,
  with_stats, suspend_client,
}
use cks_loadtest.Worker.Simulation.{Simulation}

-- What the system calls of `openSocket` answer, in the order in which they are made.
pub record Opening : Type 0 where
  pub socket_fd : Option ℕ
  pub address_parses : Bool
  pub rcvbuf_set : Bool
  pub connects : Bool
  pub epoll_adds : Bool

module _ {fl : Floats} (cfg : Config fl) where
  abbrev count_rcvbuf : Opening → Cell fl → Cell fl
  count_rcvbuf o x =
      if ltb_ℤ (pos 0) cfg.socket_rcvbuf_bytes && not o.rcvbuf_set
      then with_stats x (record (x.stats) { rcvbuf_set_failures = inc x.stats.rcvbuf_set_failures })
      else x

  open_with : Option ℕ → Opening → Cell fl → Bool × Cell fl
  open_with none o x = (false, x)
  open_with (some fd) o x =
      let y = count_rcvbuf o x in
      if not o.address_parses
      then (false, x)
      else if not o.connects
      then (false, y)
      else if not o.epoll_adds
      then (false, y)
      else (true, with_client y (record (x.client) { fd = some fd }))

  unfoldable pub open_socket : Opening → Cell fl → Bool × Cell fl
  unfolding open_with
  open_socket o x = open_with o.socket_fd o x

module _ {fl : Floats} (sm : Simulation fl) (cfg : Config fl) (worker slot : ℕ) where
  abbrev pub begin : Bool → fl.Double → sm.Gen → SimClient fl → sm.Gen × Sim fl
  begin first now_sec g c = if first then sm.init_simulation cfg c.creds now_sec g c.sim else (
    g,
    record (c.sim) {
      last_move_time = now_sec;
      last_send_time = now_sec;
      last_caps_time = fl.of_i64 (negsuc 999_999_999);
    },
  )

  abbrev pub arm : ℕ → fl.Double → SimClient fl → Sim fl → SimClient fl
  arm now now_sec c s = record c {
    sim = s;
    last_rx_time = now_sec;
    activated_at = now;
    perm_window_center_x = s.chunk_x;
    perm_window_center_y = s.chunk_y;
    perm_window_center_z = s.chunk_z;
    perm_window_valid = true;
  }

  abbrev pub finish_activation : Bool × Cell fl → Cell fl
  finish_activation (opened, x) =
      if opened
      then record x {
        client = record (x.client) { state = active };
        stats = record (x.stats) { active_clients = x.stats.active_clients +ℤ pos 1 };
      }
      else suspend_client worker slot reassign x

  -- One round of the loop in `activateDueClients`.
  unfoldable pub activate_due : ℕ → fl.Double → Opening → sm.Gen → Cell fl → sm.Gen × Cell fl
  activate_due now now_sec o g x =
      let c = x.client in
      let first = get_or c.uuid 0 0 == 0 in
      let (g', s) = begin first now_sec g c in
      if not (is_waiting c.state)
      then (g, x)
      else if ltb now c.activate_at || ltb now c.creds.udp_ready_at
      then (g, x)
      else (g', finish_activation (open_socket cfg o (with_client x (arm now now_sec c s))))

  abbrev adopt : ClientUpdate → SimClient fl → SimClient fl
  adopt u c =
      let changed = not (u.creds.game_token_id ==ℤ c.creds.game_token_id) in
      record c {
        creds = u.creds;
        refresh_requested = false;
        sim = if changed then sm.rebuild_template cfg u.creds c.sim else c.sim;
      }

  apply_from : State → ClientUpdate → Cell fl → Cell fl
  apply_from suspended u x = record x {
    stats = record (x.stats) { suspended_clients = x.stats.suspended_clients -ℤ pos 1 };
    client = record (adopt u x.client) { state = waiting; activate_at = u.creds.udp_ready_at };
  }
  apply_from active u x = record x {
    stats = record (x.stats) { active_clients = x.stats.active_clients -ℤ pos 1 };
    client = record (close_socket (adopt u x.client)) {
      state = waiting;
      activate_at = u.creds.udp_ready_at;
    };
  }
  apply_from waiting u x = with_client x (adopt u x.client)

  -- One round of the loop in `applyPendingUpdates`, for the client that the update names.
  unfoldable pub apply_update : ClientUpdate → Cell fl → Cell fl
  unfolding apply_from
  apply_update u x = if u.failed then x else apply_from x.client.state u x
