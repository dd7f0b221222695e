-- ===== src/Worker/Keeps/Lifecycle.antt =====
-- `activateDueClients` and `applyPendingUpdates` keep the gauges and the socket in step with the
-- state.
use cks_loadtest.Base.{
  ℕ, ◌≡◌, refl, Bool, true, false, not, ◌||◌, Option, none, some, ◌==◌, arith, ltb, get_or,
}
use cks_loadtest.Base.Int.{int_laws}
use cks_loadtest.Platform.{Floats}
use cks_loadtest.Config.{Config}
use cks_loadtest.Control.{ClientUpdate, reassign}
use cks_loadtest.Worker.Client.{
  Sim, Cell, State, waiting, active, suspended, is_waiting, with_client,
}
use cks_loadtest.Worker.Simulation.{Simulation}
use cks_loadtest.Worker.Receive.{is_open}
use cks_loadtest.Worker.Lifecycle.{
  Opening, open_socket, begin, arm, finish_activation, activate_due, apply_update,
}
use cks_loadtest.Worker.Keeps.{
  Keeps, Leaves-Keeps, Keeps-refl, Keeps-trans, Leaves-suspend, if_second-Keeps,
}

module _ {fl : Floats} (sm : Simulation fl) (cfg : Config fl) (worker slot : ℕ) where
  apply_at :
      (s : State) (u : ClientUpdate) (x : Cell fl)
      → x.client.state ≡ s
      → u.failed ≡ false
      → Keeps x (apply_update sm cfg worker slot u x)
  unfolding apply_update
  apply_at waiting u x e f =
      rw (e, f) (record { active_moves = refl; suspended_moves = refl; stays_tidy = λ t. t })
  apply_at active u x e f =
      rw (e, f)
        (record {
          active_moves = omega int_laws;
          suspended_moves = omega int_laws;
          stays_tidy = λ t. refl;
        })
  apply_at suspended u x e f =
      rw (e, f)
        (record {
          active_moves = omega int_laws;
          suspended_moves = omega int_laws;
          stays_tidy = λ t. t;
        })

  apply_if :
      (u : ClientUpdate) (x : Cell fl) (b : Bool)
      → u.failed ≡ b
      → Keeps x (apply_update sm cfg worker slot u x)
  unfolding apply_update
  apply_if u x true f = rw f (Keeps-refl x)
  apply_if u x false f = apply_at x.client.state u x refl f

  -- `applyPendingUpdates` keeps the accounts of a client.
  pub apply_update-Keeps :
      (u : ClientUpdate) (x : Cell fl) → Keeps x (apply_update sm cfg worker slot u x)
  apply_update-Keeps u x = apply_if u x u.failed refl

  -- An attempt to open a socket: the gauges and the state stand, and the socket is new or as before.
  record Attempts (x : Cell fl) (r : Bool × Cell fl) : Type 0 where
    attempt_active : r.1.stats.active_clients ≡ x.stats.active_clients
    attempt_suspended : r.1.stats.suspended_clients ≡ x.stats.suspended_clients
    attempt_state : r.1.client.state ≡ x.client.state
    attempt_opened : r.0 ≡ true → is_open r.1.client.fd ≡ true
    attempt_failed : r.0 ≡ false → r.1.client.fd ≡ x.client.fd

  open_at :
      (o : Opening) (x : Cell fl) (s : Option ℕ)
      → o.socket_fd ≡ s
      → Attempts x (open_socket cfg o x)
  unfolding open_socket
  open_at o x none e = ground (arith, e)
  open_at o x (some fd) e = ground (arith, e)

  finish-Keeps :
      (x : Cell fl) (b : Bool) (y : Cell fl)
      → x.client.state ≡ waiting
      → Attempts x (b, y)
      → Keeps x (finish_activation sm cfg worker slot (b, y))
  finish-Keeps x true y w a = record {
    active_moves = rw (w, a.attempt_active) (omega int_laws);
    suspended_moves = rw (w, a.attempt_suspended) (omega int_laws);
    stays_tidy = λ t. a.attempt_opened refl;
  }
  finish-Keeps x false y w a = Leaves-suspend worker slot reassign x y (record {
    same_active = a.attempt_active;
    same_suspended = a.attempt_suspended;
    same_state = a.attempt_state;
    same_fd = a.attempt_failed refl;
  })

  activate_at_state :
      (s : State) (now : ℕ) (now_sec : fl.Double) (o : Opening) (g : sm.Gen) (x : Cell fl)
      → x.client.state ≡ s
      → Keeps x (activate_due sm cfg worker slot now now_sec o g x).1
  unfolding activate_due
  activate_at_state active now now_sec o g x e = rw e (Keeps-refl _)
  activate_at_state suspended now now_sec o g x e = rw e (Keeps-refl _)
  activate_at_state waiting now now_sec o g x e =
      let c = x.client in
      let s : Sim fl = (begin sm cfg worker slot (get_or c.sim.uuid 0 0 == 0) now_sec g c).1 in
      let y : Cell fl = with_client x (arm sm cfg worker slot now now_sec c s) in
      let r : Bool × Cell fl = open_socket cfg o y in
      if_second-Keeps (not (is_waiting c.state)) x _ _ (Keeps-refl x) (
        if_second-Keeps (ltb now c.activate_at || ltb now c.creds.udp_ready_at) x _ _ (Keeps-refl x)
          (Keeps-trans x y _ (Leaves-Keeps x y (ground arith))
            (finish-Keeps y r.0 r.1 e (open_at o y o.socket_fd refl))))

  -- `activateDueClients` keeps the accounts of a client.
  pub activate_due-Keeps :
      (now : ℕ) (now_sec : fl.Double) (o : Opening) (g : sm.Gen) (x : Cell fl)
      → Keeps x (activate_due sm cfg worker slot now now_sec o g x).1
  activate_due-Keeps now now_sec o g x = activate_at_state x.client.state now now_sec o g x refl
