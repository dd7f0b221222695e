-- ===== src/Worker/Keeps.antt =====
-- What every step on a client keeps: the gauges move with the client's state, and a socket is
-- open exactly while the client is active.
pub mod Receive
pub mod Send
pub mod Lifecycle
use cks_loadtest.Base.{
  ℕ, zero, suc, ◌+◌, ◌≤◌, ◌≡◌, refl, sym, ap, ◌∙◌, Bool, true, false, not, ◌&&◌, ◌||◌, Option, none,
  some, List, [], ◌∷◌, if◌then◌else◌, ◌==◌, arith, ltb, leb, length, take, Bool-cases, inl, inr,
  get_or,
}
use cks_loadtest.Base.Int.{ℤ, pos, ◌+ℤ◌, ◌-ℤ◌, pos_part, neg_part, int_laws, ltb_ℤ, leb_ℤ}
use cks_loadtest.Base.Words.{Bytes, bump, u64}
use cks_loadtest.Platform.{Floats, Crypto}
use cks_loadtest.Config.{Config}
use cks_loadtest.Stats.{Stats, inc, record_latency_ms}
use cks_loadtest.Control.{ClientUpdate, Kind, reassign, refresh}
use cks_loadtest.Wire.Bundle.{for_each_message}
use cks_loadtest.Wire.Bundle.Keep.{for_each_message-keep}
use cks_loadtest.Worker.Client.{
  SimClient, Cell, State, waiting, active, suspended, is_active, is_suspended, is_waiting,
  suspend_client, with_client, with_stats,
}
use cks_loadtest.Worker.Simulation.{Simulation}
use cks_loadtest.Worker.Receive.{
  Recv, datagram, refused, drained, is_open, is_outside, classify, log_once, react, deliver_all,
  handle_error, handle_spatial, handle_message, handle_datagram, drain_loop, drain_socket,
}
use cks_loadtest.Worker.Send.{Sends, is_silent, refresh_ahead, advertise, after_send, send_due}
use cks_loadtest.Worker.Lifecycle.{Opening, open_socket, activate_due, apply_update}

abbrev pub bit : Bool → ℕ
bit true = 1
bit false = 0

moves_trans :
    (a b c : ℤ) (i j k : ℕ)
    → b +ℤ pos i ≡ a +ℤ pos j
    → c +ℤ pos j ≡ b +ℤ pos k
    → c +ℤ pos i ≡ a +ℤ pos k
moves_trans a b c i j k p q =
    omega (int_laws, ap pos_part p, ap neg_part p, ap pos_part q, ap neg_part q)

module _ {fl : Floats} where
  abbrev pub IsTidy : SimClient fl → Type 0
  IsTidy c = is_open c.fd ≡ is_active c.state

  pub record Keeps (x y : Cell fl) : Type 0 where
    pub active_moves :
        y.stats.active_clients +ℤ pos (bit (is_active x.client.state))
        ≡ x.stats.active_clients +ℤ pos (bit (is_active y.client.state))
    pub suspended_moves :
        y.stats.suspended_clients +ℤ pos (bit (is_suspended x.client.state))
        ≡ x.stats.suspended_clients +ℤ pos (bit (is_suspended y.client.state))
    pub stays_tidy : IsTidy x.client → IsTidy y.client

  -- A step that leaves the gauges, the state and the socket alone.
  pub record Leaves (x y : Cell fl) : Type 0 where
    pub same_active : y.stats.active_clients ≡ x.stats.active_clients
    pub same_suspended : y.stats.suspended_clients ≡ x.stats.suspended_clients
    pub same_state : y.client.state ≡ x.client.state
    pub same_fd : y.client.fd ≡ x.client.fd

  pub Leaves-Keeps : (x y : Cell fl) → Leaves x y → Keeps x y
  Leaves-Keeps x y l = record {
    active_moves = rw (l.same_active, l.same_state) refl;
    suspended_moves = rw (l.same_suspended, l.same_state) refl;
    stays_tidy = λ t. rw (l.same_fd, l.same_state) t;
  }

  pub Keeps-refl : (x : Cell fl) → Keeps x x
  Keeps-refl x = record { active_moves = refl; suspended_moves = refl; stays_tidy = λ t. t }

  pub Keeps-trans : (x y z : Cell fl) → Keeps x y → Keeps y z → Keeps x z
  Keeps-trans x y z p q = record {
    active_moves =
        moves_trans x.stats.active_clients y.stats.active_clients z.stats.active_clients _ _ _
          p.active_moves q.active_moves;
    suspended_moves =
        moves_trans x.stats.suspended_clients y.stats.suspended_clients z.stats.suspended_clients _
          _ _ p.suspended_moves q.suspended_moves;
    stays_tidy = λ t. q.stays_tidy (p.stays_tidy t);
  }

  suspend_at :
      (s : State) (worker slot : ℕ) (k : Kind) (x : Cell fl)
      → x.client.state ≡ s
      → Keeps x (suspend_client worker slot k x)
  unfolding suspend_client
  suspend_at waiting worker slot k x e =
      rw (e, suspend_client)
        (record { active_moves = refl; suspended_moves = omega int_laws; stays_tidy = λ t. refl })
  suspend_at active worker slot k x e =
      rw (e, suspend_client)
        (record {
          active_moves = omega int_laws;
          suspended_moves = omega int_laws;
          stays_tidy = λ t. refl;
        })
  suspend_at suspended worker slot k x e = rw (e, suspend_client) (Keeps-refl _)

  pub suspend-Keeps :
      (worker slot : ℕ) (k : Kind) (x : Cell fl) → Keeps x (suspend_client worker slot k x)
  suspend-Keeps worker slot k x = suspend_at x.client.state worker slot k x refl

  -- A change that is made first, and a suspension.
  Leaves-suspend :
      (worker slot : ℕ) (k : Kind) (x y : Cell fl)
      → Leaves x y
      → Keeps x (suspend_client worker slot k y)
  Leaves-suspend worker slot k x y l =
      Keeps-trans x y _ (Leaves-Keeps x y l) (suspend-Keeps worker slot k y)

  pub if-Keeps : (b : Bool) (x y z : Cell fl) → Keeps x y → Keeps x z → Keeps x (if b then y else z)
  if-Keeps true x y z p q = p
  if-Keeps false x y z p q = q

  pub if_second-Keeps {ℓ} :
      {A : Type ℓ}
      → (b : Bool) (x : Cell fl) (y z : A × Cell fl) → Keeps x y.1
      → Keeps x z.1
      → Keeps x (if b then y else z).1
  if_second-Keeps true x y z p q = p
  if_second-Keeps false x y z p q = q
