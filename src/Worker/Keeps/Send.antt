-- ===== src/Worker/Keeps/Send.antt =====
-- `sendDueUpdates` keeps the gauges and the socket in step with the state.
use cks_loadtest.Base.{ℕ, ◌+◌, Bool, not, arith}
use cks_loadtest.Base.Int.{pos, ◌*ℤ◌, leb_ℤ}
use cks_loadtest.Platform.{Floats, Crypto}
use cks_loadtest.Config.{Config}
use cks_loadtest.Stats.{inc}
use cks_loadtest.Control.{reassign}
use cks_loadtest.Worker.Client.{Sim, Cell, is_active, with_client, with_stats}
use cks_loadtest.Worker.Simulation.{Simulation}
use cks_loadtest.Worker.Send.{
  Sends, is_silent, refresh_ahead, advertise, after_send, after_build, move_and_send, schedule,
  interval, with_sim, send_due,
}
use cks_loadtest.Worker.Keeps.{
  Keeps, Leaves, Leaves-Keeps, Keeps-refl, Keeps-trans, Leaves-suspend, if-Keeps, if_second-Keeps,
}

module _ {fl : Floats} (sm : Simulation fl) (c : Crypto) (cfg : Config fl) (worker slot : ℕ) where
  refresh_ahead-Leaves :
      (sys_now : ℕ) (x : Cell fl) → Leaves x (refresh_ahead sm c cfg worker slot sys_now x)
  unfolding refresh_ahead
  refresh_ahead-Leaves sys_now x = ground arith

  advertise-Leaves :
      (now_sec : fl.Double) (sent : Bool) (x : Cell fl)
      → Leaves x (advertise sm c cfg worker slot now_sec sent x)
  unfolding advertise
  advertise-Leaves now_sec sent x = ground arith

  after_send-Keeps : (sent : Bool) (x : Cell fl) → Keeps x (after_send sm c cfg worker slot sent x)
  unfolding after_send
  after_send-Keeps sent x =
      let errors = x.client.consecutive_send_errors + 1 in
      let y : Cell fl =
        with_stats x (record (x.stats) { tx_send_errors = inc x.stats.tx_send_errors }) in
      if-Keeps sent x _ _ (Leaves-Keeps x _ (ground arith)) (
        if-Keeps (leb_ℤ (pos 3 *ℤ cfg.update_hz) (pos errors)) x _ _
          (Leaves-suspend worker slot reassign x
            (with_client y (record (x.client) { consecutive_send_errors = 0 })) (ground arith))
          (Leaves-Keeps x _ (ground arith)))

  after_build-Keeps :
      (sent : Bool) (x : Cell fl) (b : Bool) (s : Sim fl)
      → Keeps x (after_build sm c cfg worker slot sent x (b, s))
  after_build-Keeps sent x b s =
      let y : Cell fl = with_sim sm c cfg worker slot x s in
      if-Keeps b x _ _
        (Keeps-trans x y _ (Leaves-Keeps x y (ground arith)) (after_send-Keeps sent y))
        (Leaves-Keeps x _ (ground arith))

  moved-Keeps :
      (now_sec : fl.Double) (sys_now : ℕ) (out : Sends) (g : sm.Gen) (x : Cell fl)
      → Keeps x
          (move_and_send sm c cfg worker slot now_sec sys_now out.update_sent g (
            advertise sm c cfg worker slot now_sec out.caps_sent (
              refresh_ahead sm c cfg worker slot sys_now
                (schedule sm c cfg worker slot now_sec x)))).1
  moved-Keeps now_sec sys_now out g x =
      let a : Cell fl = schedule sm c cfg worker slot now_sec x in
      let b : Cell fl = refresh_ahead sm c cfg worker slot sys_now a in
      let d : Cell fl = advertise sm c cfg worker slot now_sec out.caps_sent b in
      let s : Sim fl = (sm.update_walk cfg now_sec g d.client.sim).1 in
      let m : Bool × Sim fl = sm.build_update cfg d.client.creds sys_now s in
      Keeps-trans x a _ (Leaves-Keeps x a (ground arith)) (
        Keeps-trans a b _ (Leaves-Keeps a b (refresh_ahead-Leaves sys_now a)) (
          Keeps-trans b d _ (Leaves-Keeps b d (advertise-Leaves now_sec out.caps_sent b))
            (after_build-Keeps out.update_sent d m.0 m.1)))

  -- `sendDueUpdates` keeps the accounts of a client.
  pub send_due-Keeps :
      (now_sec : fl.Double) (sys_now : ℕ) (out : Sends) (g : sm.Gen) (x : Cell fl)
      → Keeps x (send_due sm c cfg worker slot now_sec sys_now out g x).1
  unfolding send_due
  send_due-Keeps now_sec sys_now out g x =
      let w : Cell fl =
        with_stats x (record (x.stats) { rx_silent_reassigns = inc x.stats.rx_silent_reassigns }) in
      if_second-Keeps (not (is_active x.client.state)) x _ _ (Keeps-refl x) (
        if_second-Keeps (is_silent sm c cfg worker slot now_sec x) x _ _
          (Leaves-suspend worker slot reassign x w (ground arith))
          (if_second-Keeps
            (fl.lt (fl.sub now_sec x.client.last_send_time) (interval sm c cfg worker slot)) x _ _
            (Keeps-refl x) (moved-Keeps now_sec sys_now out g x)))
