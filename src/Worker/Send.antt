-- ===== src/Worker/Send.antt =====
-- `Worker::sendDueUpdates` of src/Worker.cpp, for one client.
use cks_loadtest.Base.{ℕ, ◌+◌, Bool, true, not, ◌&&◌, if◌then◌else◌, replicate}
use cks_loadtest.Base.Int.{pos, ◌+ℤ◌, ◌*ℤ◌, ltb_ℤ, leb_ℤ}
use cks_loadtest.Base.Words.{u8, u64}
use cks_loadtest.Platform.{Floats, Crypto}
use cks_loadtest.Config.{Config}
use cks_loadtest.Stats.{inc}
use cks_loadtest.Control.{reassign, refresh, push}
use cks_loadtest.Wire.Capabilities.{cap_bundle_signed, capabilities_size, build_capabilities}
use cks_loadtest.Worker.Client.{
  Sim, Cell, is_active, with_client, with_stats, suspend_client, request_of,
}
use cks_loadtest.Worker.Simulation.{Simulation}

-- The results of the two `send` calls: whether the whole message was taken.
pub record Sends : Type 0 where
  pub caps_sent : Bool
  pub update_sent : Bool

abbrev pub ns_per_sec : ℕ
ns_per_sec = 1_000_000_000

module _ {fl : Floats} (sm : Simulation fl) (c : Crypto) (cfg : Config fl) (worker slot : ℕ) where
  abbrev pub with_sim : Cell fl → Sim fl → Cell fl
  with_sim x s = with_client x (record (x.client) { sim = s })

  abbrev pub interval : fl.Double
  interval = fl.div (fl.of_i64 (pos 1)) (fl.of_i64 cfg.update_hz)

  unfoldable pub is_silent : fl.Double → Cell fl → Bool
  is_silent now_sec x =
      ltb_ℤ (pos 0) cfg.rx_silent_reassign_sec
      && fl.lt (fl.of_i64 cfg.rx_silent_reassign_sec) (fl.sub now_sec x.client.last_rx_time)

  -- `lastSendTime += interval`, without a burst after a stall.
  abbrev pub schedule : fl.Double → Cell fl → Cell fl
  schedule now_sec x =
      let last = fl.add x.client.last_send_time interval in
      with_sim x (record (x.client.sim) {
        last_send_time = if fl.lt interval (fl.sub now_sec last) then now_sec else last;
      })

  -- The proactive token refresh.
  unfoldable pub refresh_ahead : ℕ → Cell fl → Cell fl
  refresh_ahead sys_now x =
      let k = x.client in
      if not k.refresh_requested
        && leb_ℤ (pos k.creds.token_expires_at)
            (pos sys_now +ℤ cfg.token_refresh_lead_sec *ℤ pos ns_per_sec)
      then record x {
        client = record k { refresh_requested = true };
        control = push x.control (request_of worker slot refresh k);
      }
      else x

  -- The sequence number advances whether or not the datagram is built and sent.
  unfoldable pub advertise : fl.Double → Bool → Cell fl → Cell fl
  advertise now_sec sent x =
      let s = x.client.sim in
      let y = with_sim x (record s { last_caps_time = now_sec; sequence = u8 (s.sequence + 1) }) in
      let (built, caps) =
        build_capabilities c (replicate capabilities_size 0) cfg.app_id x.client.creds.game_token_id
          cap_bundle_signed s.sequence x.client.creds.app_token in
      if cfg.client_caps
        && fl.le (fl.of_i64 cfg.caps_interval_sec) (fl.sub now_sec s.last_caps_time)
      then (if built && sent
          then with_stats y (record (y.stats) { tx_capabilities = inc y.stats.tx_capabilities })
          else y)
      else x

  -- What follows the `send` of an update.
  unfoldable pub after_send : Bool → Cell fl → Cell fl
  after_send sent x =
      let s = x.stats in
      let errors = x.client.consecutive_send_errors + 1 in
      let y = with_stats x (record s { tx_send_errors = inc s.tx_send_errors }) in
      if sent
      then record x {
        stats = record s {
          tx_packets = inc s.tx_packets;
          tx_bytes = u64 (s.tx_bytes + sm.message_size cfg);
        };
        client = record (x.client) { consecutive_send_errors = 0 };
      }
      else if leb_ℤ (pos 3 *ℤ cfg.update_hz) (pos errors)
      then suspend_client worker slot reassign
          (with_client y (record (x.client) { consecutive_send_errors = 0 }))
      else with_client y (record (x.client) { consecutive_send_errors = errors })

  abbrev pub after_build : Bool → Cell fl → Bool × Sim fl → Cell fl
  after_build sent x (built, s) =
      let y = with_sim x s in
      if built
      then after_send sent y
      else with_stats y (record (y.stats) { tx_send_errors = inc y.stats.tx_send_errors })

  abbrev pub move_and_send : fl.Double → ℕ → Bool → sm.Gen → Cell fl → sm.Gen × Cell fl
  move_and_send now_sec sys_now sent g x =
      let (g', s) = sm.update_walk cfg now_sec g x.client.sim in
      (g', after_build sent x (sm.build_update cfg x.client.creds sys_now s))

  -- One round of the loop over the clients.
  unfoldable pub send_due : fl.Double → ℕ → Sends → sm.Gen → Cell fl → sm.Gen × Cell fl
  send_due now_sec sys_now out g x =
      if not (is_active x.client.state)
      then (g, x)
      else if is_silent now_sec x
      then (
        g,
        suspend_client worker slot reassign (
            with_stats x
              (record (x.stats) { rx_silent_reassigns = inc x.stats.rx_silent_reassigns })),
      )
      else if fl.lt (fl.sub now_sec x.client.last_send_time) interval
      then (g, x)
      else move_and_send now_sec sys_now out.update_sent g
          (advertise now_sec out.caps_sent (refresh_ahead sys_now (schedule now_sec x)))
