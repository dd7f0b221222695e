-- ===== src/Worker/Refresh/Once/Sent.antt =====
-- `sendDueUpdates` asks for a refresh at most once.
use cks_loadtest.Base.{ℕ, ◌+◌, Bool, not, arith}
use cks_loadtest.Base.Int.{pos, ◌*ℤ◌, leb_ℤ}
use cks_loadtest.Platform.{Floats, Crypto}
use cks_loadtest.Config.{Config}
use cks_loadtest.Stats.{inc}
use cks_loadtest.Control.{refresh}
use cks_loadtest.Worker.Client.{Sim, Cell, is_active, with_client, with_stats, request_of}
use cks_loadtest.Worker.Simulation.{Simulation}
use cks_loadtest.Worker.Send.{
  Sends, is_silent, refresh_ahead, advertise, after_send, after_build, move_and_send, schedule,
  interval, with_sim, send_due,
}
use cks_loadtest.Worker.Refresh.Once.{
  refreshes-append, AsksOnce, Stands, Stands-AsksOnce, AsksOnce-refl, AsksOnce-trans,
  reassign-AsksOnce, if-AsksOnce, if_second-AsksOnce,
}

module _ {fl : Floats} (sm : Simulation fl) (c : Crypto) (cfg : Config fl) (worker slot : ℕ) where
  refresh_ahead-AsksOnce :
      (sys_now : ℕ) (x : Cell fl) → AsksOnce x (refresh_ahead sm c cfg worker slot sys_now x)
  unfolding refresh_ahead
  refresh_ahead-AsksOnce sys_now x =
      grind (arith, refreshes-append x.control.queue (request_of worker slot refresh x.client))

  advertise-Stands :
      (now_sec : fl.Double) (sent : Bool) (x : Cell fl)
      → Stands x (advertise sm c cfg worker slot now_sec sent x)
  unfolding advertise
  advertise-Stands now_sec sent x = ground arith

  after_send-AsksOnce :
      (sent : Bool) (x : Cell fl) → AsksOnce x (after_send sm c cfg worker slot sent x)
  unfolding after_send
  after_send-AsksOnce sent x =
      let errors = x.client.consecutive_send_errors + 1 in
      let y : Cell fl =
        with_stats x (record (x.stats) { tx_send_errors = inc x.stats.tx_send_errors }) in
      if-AsksOnce sent x _ _ (Stands-AsksOnce x _ (ground arith)) (
        if-AsksOnce (leb_ℤ (pos 3 *ℤ cfg.update_hz) (pos errors)) x _ _
          (reassign-AsksOnce worker slot x
            (with_client y (record (x.client) { consecutive_send_errors = 0 })) (ground arith))
          (Stands-AsksOnce x _ (ground arith)))

  after_build-AsksOnce :
      (sent : Bool) (x : Cell fl) (b : Bool) (s : Sim fl)
      → AsksOnce x (after_build sm c cfg worker slot sent x (b, s))
  after_build-AsksOnce sent x b s =
      let y : Cell fl = with_sim sm c cfg worker slot x s in
      if-AsksOnce b x _ _
        (AsksOnce-trans x y _ (Stands-AsksOnce x y (ground arith)) (after_send-AsksOnce sent y))
        (Stands-AsksOnce x _ (ground arith))

  moved-AsksOnce :
      (now_sec : fl.Double) (sys_now : ℕ) (out : Sends) (g : sm.Gen) (x : Cell fl)
      → AsksOnce x
          (move_and_send sm c cfg worker slot now_sec sys_now out.update_sent g (
            advertise sm c cfg worker slot now_sec out.caps_sent (
              refresh_ahead sm c cfg worker slot sys_now
                (schedule sm c cfg worker slot now_sec x)))).1
  moved-AsksOnce now_sec sys_now out g x =
      let a : Cell fl = schedule sm c cfg worker slot now_sec x in
      let b : Cell fl = refresh_ahead sm c cfg worker slot sys_now a in
      let d : Cell fl = advertise sm c cfg worker slot now_sec out.caps_sent b in
      let s : Sim fl = (sm.update_walk cfg now_sec g d.client.sim).1 in
      let m : Bool × Sim fl = sm.build_update cfg d.client.creds sys_now s in
      AsksOnce-trans x a _ (Stands-AsksOnce x a (ground arith)) (
        AsksOnce-trans a b _ (refresh_ahead-AsksOnce sys_now a) (
          AsksOnce-trans b d _ (Stands-AsksOnce b d (advertise-Stands now_sec out.caps_sent b))
            (after_build-AsksOnce out.update_sent d m.0 m.1)))

  -- `sendDueUpdates` asks at most once.
  pub send_due-AsksOnce :
      (now_sec : fl.Double) (sys_now : ℕ) (out : Sends) (g : sm.Gen) (x : Cell fl)
      → AsksOnce x (send_due sm c cfg worker slot now_sec sys_now out g x).1
  unfolding send_due
  send_due-AsksOnce now_sec sys_now out g x =
      let w : Cell fl =
        with_stats x (record (x.stats) { rx_silent_reassigns = inc x.stats.rx_silent_reassigns }) in
      if_second-AsksOnce (not (is_active x.client.state)) x _ _ (AsksOnce-refl x) (
        if_second-AsksOnce (is_silent sm c cfg worker slot now_sec x) x _ _
          (reassign-AsksOnce worker slot x w (ground arith))
          (if_second-AsksOnce
            (fl.lt (fl.sub now_sec x.client.last_send_time) (interval sm c cfg worker slot)) x _ _
            (AsksOnce-refl x) (moved-AsksOnce now_sec sys_now out g x)))
