-- ===== src/Stats/Report.antt =====
-- `IntervalRates`, `SnapshotMeta`, `buildStatsJson` and the labels of the replay logging, in
-- src/Stats.hpp and src/Stats.cpp. A JSON object is the record of the values that it is built from.
use cks_loadtest.Base.{ℕ, ◌-◌, Bool, not, Option, none, some, ◌++◌, if◌then◌else◌, ◌==◌}
use cks_loadtest.Base.Int.{ℤ, pos}
use cks_loadtest.Base.Text.{Text, codes, text_eq, is_empty}
use cks_loadtest.Platform.{Floats}
use cks_loadtest.Stats.{Stats}
use cks_loadtest.Stats.Snap.{CounterSnap, sat_sub}

pub record IntervalRates (fl : Floats) : Type 0 where
  pub dt_sec : fl.Double
  pub epoch_sec : ℕ
  pub tx_pps : fl.Double
  pub tx_bps : fl.Double
  pub rx_dps : fl.Double
  pub rx_bps : fl.Double
  pub rx_notif_ps : fl.Double
  pub avg_latency_ms : fl.Double

pub record SnapshotMeta (fl : Floats) : Type 0 where
  pub instance_id : Text
  pub index_base : ℤ
  pub used : ℤ
  pub limit : ℤ
  pub busy : Bool
  pub add_error : Text
  pub rung_id : Text
  pub window_open_epoch_sec : ℕ
  pub window_duration_sec : fl.Double
  pub active_clients : ℤ
  pub suspended_clients : ℤ
  pub replay_logging : Text
  pub replay_logging_requested : Text
  pub replay_logging_at_end : Text

-- The object that `buildStatsJson` builds: each of its keys holds one of these values.
pub record StatsBody (fl : Floats) : Type 0 where
  pub meta : SnapshotMeta fl
  pub lifetime : CounterSnap
  pub window : CounterSnap
  pub interval : IntervalRates fl

abbrev pub build_stats_json :
    {fl : Floats} → SnapshotMeta fl → CounterSnap → CounterSnap → IntervalRates fl → StatsBody fl
build_stats_json meta lifetime window interval = record {
  meta = meta;
  lifetime = lifetime;
  window = window;
  interval = interval;
}

unfoldable pub replay_logging_label : Option Bool → Text
replay_logging_label none = codes "unknown"
replay_logging_label (some on) = if on then codes "on" else codes "off"

abbrev pub mixed_warning : Text
mixed_warning =
    codes
      "  WARNING: replay logging was not the same at both ends of the run, so the rungs (which carry the start reading) may mix recorded and unrecorded traffic.\n"

unfoldable pub replay_logging_summary : Text → Text → Text → Text
replay_logging_summary requested at_start at_end =
    let end = if is_empty at_end then codes "unknown" else at_end in
    let out =
      codes "replay logging: requested "
      ++ (requested
          ++ (codes "; "
              ++ (at_start ++ (codes " at the start, " ++ (end ++ codes " at the end\n"))))) in
    if not (text_eq at_start end) then out ++ mixed_warning else out

module _ (fl : Floats) where
  -- `windowDurationSec`, with the time of the steady clock; a clock does not run backwards.
  unfoldable pub window_duration_sec : Stats → ℕ → fl.Double
  window_duration_sec s now =
      if s.window_open_steady == 0
      then fl.of_i64 (pos 0)
      else fl.div (fl.of_i64 (pos (now - s.window_open_steady))) (fl.of_i64 (pos 1_000_000_000))

  -- The rates of one round of the reporter, from the snapshot before and the one after it, `dt`
  -- seconds apart.
  abbrev pub rate : fl.Double → ℕ → ℕ → fl.Double
  rate dt now before = fl.div (fl.of_i64 (pos (sat_sub now before))) dt

  unfoldable pub interval_rates : CounterSnap → CounterSnap → fl.Double → ℕ → IntervalRates fl
  interval_rates prev cur measured epoch_sec =
      let dt = if fl.le measured (fl.of_i64 (pos 0)) then fl.of_i64 (pos 1) else measured in
      let samples = sat_sub cur.latency_samples prev.latency_samples in
      let sum = sat_sub cur.latency_sum_ms prev.latency_sum_ms in
      record {
        dt_sec = dt;
        epoch_sec = epoch_sec;
        tx_pps = rate dt cur.tx_packets prev.tx_packets;
        tx_bps = rate dt cur.tx_bytes prev.tx_bytes;
        rx_dps = rate dt cur.rx_datagrams prev.rx_datagrams;
        rx_bps = rate dt cur.rx_bytes prev.rx_bytes;
        rx_notif_ps = rate dt cur.rx_actor_notifications prev.rx_actor_notifications;
        avg_latency_ms =
            if samples == 0
            then fl.literal (pos 0) 0
            else fl.div (fl.of_i64 (pos sum)) (fl.of_i64 (pos samples));
      }
