-- ===== src/Harness/Rungs.antt =====
-- `openRung`, `closeRung`, `statusJson`, `statsJson` and what is read at the end of the run, of
-- src/Harness.cpp.
pub mod Filed
use cks_loadtest.Base.{
  ℕ, Bool, true, false, not, Option, none, some, List, [], ◌∷◌, ◌++◌, if◌then◌else◌,
}
use cks_loadtest.Base.Int.{ℤ, pos, negsuc, ◌-ℤ◌, ltb_ℤ}
use cks_loadtest.Base.Text.{Text, codes, is_empty}
use cks_loadtest.Platform.{Floats}
use cks_loadtest.Config.{Config}
use cks_loadtest.Stats.{Stats, mark_window, load_lifetime, load_window, set_sign_in}
use cks_loadtest.Stats.Report.{
  IntervalRates, SnapshotMeta, StatsBody, build_stats_json, window_duration_sec,
  replay_logging_label,
}
use cks_loadtest.Provisioner.{SignInTally}
use cks_loadtest.Harness.Adds.{Adds}

-- The members that the control server and the end of the run use. `files` is what has been written
-- to disk, the latest first.
pub record HarnessState (fl : Floats) : Type 0 where
  pub adds : Adds
  pub stats : Stats
  pub interval : IntervalRates fl
  pub replay_logging_observed : Text
  pub replay_logging_at_end : Text
  pub last_rung_id : Text
  pub last_rung_body : Option (StatsBody fl)
  pub is_shutdown : Bool
  pub is_started : Bool
  pub end_observed : Bool
  pub files : List (Text × StatsBody fl)

pub record StatusBody : Type 0 where
  pub instance_id : Text
  pub index_base : ℤ
  pub used : ℤ
  pub limit : ℤ
  pub active : ℤ
  pub suspended : ℤ
  pub waiting : ℤ
  pub busy : Bool
  pub add_error : Text
  pub rung_id : Text
  pub threads : ℤ
  pub update_hz : ℤ
  pub replay_logging : Text
  pub replay_logging_requested : Text
  pub replay_logging_at_end : Text

-- The two clocks: seconds since the epoch, and the steady clock.
pub record Clock : Type 0 where
  pub epoch_sec : ℕ
  pub steady : ℕ

-- `can_write` says which files can be opened.
module _ {fl : Floats} (cfg : Config fl) (can_write : Text → Bool) where
  unfoldable pub rung_path : Text → Text
  rung_path id = cfg.stats_dir ++ (codes "/rung-" ++ (id ++ codes ".json"))

  unfoldable pub write_rung_file : Text → StatsBody fl → HarnessState fl → HarnessState fl
  write_rung_file id body h =
      if is_empty cfg.stats_dir
      then h
      else if not (can_write (rung_path id))
      then h
      else record h { files = (rung_path id, body) ∷ h.files }

  unfoldable pub open_rung : Clock → Text → HarnessState fl → Text × HarnessState fl
  open_rung clock id h =
      if is_empty id
      then (codes "rung id is required", h)
      else if h.adds.busy
      then (codes "busy: finish the in-flight add before opening a rung", h)
      else (codes "", record h { stats = mark_window h.stats id clock.epoch_sec clock.steady })

  unfoldable pub stats_json : Clock → HarnessState fl → StatsBody fl
  stats_json clock h =
      build_stats_json
        (record {
          instance_id = cfg.instance_id;
          index_base = cfg.index_base;
          used = h.adds.used;
          limit = cfg.index_limit;
          busy = h.adds.busy;
          add_error = h.adds.add_error;
          rung_id = h.stats.rung_id;
          window_open_epoch_sec = h.stats.window_open_epoch_sec;
          window_duration_sec = window_duration_sec fl h.stats clock.steady;
          active_clients = h.stats.active_clients;
          suspended_clients = h.stats.suspended_clients;
          replay_logging = h.replay_logging_observed;
          replay_logging_requested = cfg.replay_logging;
          replay_logging_at_end = h.replay_logging_at_end;
        })
        (load_lifetime h.stats) (load_window h.stats) h.interval

  unfoldable pub close_rung : Clock → HarnessState fl → StatsBody fl × HarnessState fl
  close_rung clock h =
      let body = stats_json clock h in
      let id = body.meta.rung_id in
      if is_empty id then (body, h) else (
        body,
        record (write_rung_file id body h) { last_rung_id = id; last_rung_body = some body },
      )

  -- `body["replay_logging_at_end"] = atEnd`
  abbrev pub set_at_end : Text → StatsBody fl → StatsBody fl
  set_at_end at_end body = record body {
    meta = record (body.meta) { replay_logging_at_end = at_end };
  }

  abbrev pub rewrite_last : Text → Option (StatsBody fl) → HarnessState fl → HarnessState fl
  rewrite_last at_end none h = h
  rewrite_last at_end (some body) h =
      if is_empty h.last_rung_id
      then h
      else write_rung_file h.last_rung_id (set_at_end at_end body) h

  -- `lastRungBody_` is set whenever `lastRungId_` is.
  unfoldable pub record_replay_logging_at_end : Text → HarnessState fl → HarnessState fl
  record_replay_logging_at_end at_end h =
      rewrite_last at_end h.last_rung_body (record h { replay_logging_at_end = at_end })

  -- `observed` is what the API says now, if it can be read; `start` has made the provisioner.
  unfoldable pub observe_end_of_run : Option Bool → HarnessState fl → HarnessState fl
  observe_end_of_run observed h =
      if h.end_observed
      then h
      else record_replay_logging_at_end (replay_logging_label observed)
          (record h { end_observed = true })

  abbrev pub waiting_of : ℤ → ℤ
  waiting_of n = if ltb_ℤ n (pos 0) then pos 0 else n

  unfoldable pub status_json : HarnessState fl → StatusBody
  status_json h = record {
    instance_id = cfg.instance_id;
    index_base = cfg.index_base;
    used = h.adds.used;
    limit = cfg.index_limit;
    active = h.stats.active_clients;
    suspended = h.stats.suspended_clients;
    waiting = waiting_of (h.adds.used -ℤ h.stats.active_clients -ℤ h.stats.suspended_clients);
    busy = h.adds.busy;
    add_error = h.adds.add_error;
    rung_id = h.stats.rung_id;
    threads = cfg.threads;
    update_hz = cfg.update_hz;
    replay_logging = h.replay_logging_observed;
    replay_logging_requested = cfg.replay_logging;
    replay_logging_at_end = h.replay_logging_at_end;
  }

  unfoldable pub sync_sign_in : SignInTally → HarnessState fl → HarnessState fl
  sync_sign_in t h = record h {
    stats = set_sign_in h.stats t.reused t.minted_provisioning t.minted_mid_run;
  }

  -- The flag of the signal handler, which `start` keeps a pointer to, is set too.
  unfoldable pub request_shutdown : HarnessState fl → HarnessState fl
  request_shutdown h = record h { is_shutdown = true }
