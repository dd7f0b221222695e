-- ===== src/Worker/Client.antt =====
-- One simulated client as its worker sees it, and the suspension that hands it to the control
-- thread.
use cks_loadtest.Base.{ℕ, Bool, true, false, Option, none}
use cks_loadtest.Base.Int.{ℤ, pos, ◌+ℤ◌, ◌-ℤ◌}
use cks_loadtest.Base.Words.{Bytes}
use cks_loadtest.Platform.{Floats}
use cks_loadtest.Stats.{Stats}
use cks_loadtest.Control.{ClientCredentials, ControlRequest, ControlQueue, Kind, push}

pub data State : Type 0 where
  waiting active suspended : State

-- The movement and message fields of `SimClient`, which the simulation owns.
pub record Sim (fl : Floats) : Type 0 where
  pub world_x : fl.Double
  pub world_y : fl.Double
  pub world_z : fl.Double
  pub dir_x : fl.Double
  pub dir_y : fl.Double
  pub dir_z : fl.Double
  pub chunk_x : ℤ
  pub chunk_y : ℤ
  pub chunk_z : ℤ
  pub sparse_c1 : ℤ
  pub sparse_c2 : ℤ
  pub pos_x : fl.Double
  pub pos_y : fl.Double
  pub pos_z : fl.Double
  pub vel_x : fl.Double
  pub vel_y : fl.Double
  pub vel_z : fl.Double
  pub rot_yaw_deg : fl.Double
  pub reaim_at : fl.Double
  pub uuid : Bytes
  pub sequence : ℕ
  pub last_send_time : fl.Double
  pub last_caps_time : fl.Double
  pub last_move_time : fl.Double
  pub message : Bytes

-- `fd` is `none` for -1.
pub record SimClient (fl : Floats) : Type 0 where
  pub creds : ClientCredentials
  pub state : State
  pub activate_at : ℕ
  pub fd : Option ℕ
  pub sim : Sim fl
  pub open sim use *
  pub last_rx_time : fl.Double
  pub refresh_requested : Bool
  pub consecutive_send_errors : ℕ
  pub error_logged : Bool
  pub unauthorized_count : ℕ
  pub activated_at : ℕ
  pub perm_window_center_x : ℤ
  pub perm_window_center_y : ℤ
  pub perm_window_center_z : ℤ
  pub perm_window_valid : Bool
  pub perm_reload_at : ℕ

-- A client together with what its worker shares.
pub record Cell (fl : Floats) : Type 0 where
  pub client : SimClient fl
  pub stats : Stats
  pub control : ControlQueue

abbrev pub is_active : State → Bool
is_active active = true
is_active waiting = false
is_active suspended = false

abbrev pub is_suspended : State → Bool
is_suspended suspended = true
is_suspended waiting = false
is_suspended active = false

abbrev pub is_waiting : State → Bool
is_waiting waiting = true
is_waiting active = false
is_waiting suspended = false

module _ {fl : Floats} where
  -- `epoll_ctl` and `close` are left aside.
  abbrev pub close_socket : SimClient fl → SimClient fl
  close_socket c = record c { fd = none }

  abbrev pub with_client : Cell fl → SimClient fl → Cell fl
  with_client x c = record x { client = c }

  abbrev pub with_stats : Cell fl → Stats → Cell fl
  with_stats x s = record x { stats = s }

  abbrev pub request_of : ℕ → ℕ → Kind → SimClient fl → ControlRequest
  request_of worker slot kind c = record {
    worker_index = worker;
    client_index = slot;
    kind = kind;
    creds = c.creds;
  }

  suspend_from : State → ℕ → ℕ → Kind → Cell fl → Cell fl
  suspend_from suspended worker slot kind x = x
  suspend_from waiting worker slot kind x = record {
    client = record (x.client) { fd = none; state = suspended };
    stats = record (x.stats) { suspended_clients = x.stats.suspended_clients +ℤ pos 1 };
    control = push x.control (request_of worker slot kind x.client);
  }
  suspend_from active worker slot kind x = record {
    client = record (x.client) { fd = none; state = suspended };
    stats = record (x.stats) {
      active_clients = x.stats.active_clients -ℤ pos 1;
      suspended_clients = x.stats.suspended_clients +ℤ pos 1;
    };
    control = push x.control (request_of worker slot kind x.client);
  }

  -- `suspendClient`, of the client in slot `slot` of worker `worker`.
  unfoldable pub suspend_client : ℕ → ℕ → Kind → Cell fl → Cell fl
  unfolding suspend_from
  suspend_client worker slot kind x = suspend_from x.client.state worker slot kind x
