-- ===== src/Harness/Rungs/Filed.antt =====
-- A rung from its opening to the end of the run.
use cks_loadtest.Base.{ℕ, ◌≡◌, refl, ◌∙◌, Bool, true, false, Option, some, List, [], ◌∷◌}
use cks_loadtest.Base.Int.{ℤ}
use cks_loadtest.Base.Text.{Text, is_empty}
use cks_loadtest.Platform.{Floats}
use cks_loadtest.Config.{Config}
use cks_loadtest.Stats.{Stats, mark_window, record_latency_ms, record_all, load_window}
use cks_loadtest.Stats.Report.{replay_logging_label, StatsBody}
use cks_loadtest.Harness.Rungs.{
  HarnessState, Clock, rung_path, write_rung_file, open_rung, close_rung, stats_json, set_at_end,
  record_replay_logging_at_end, observe_end_of_run,
}

record_all-rung_id : (s : Stats) (ms : List ℤ) → (record_all s ms).rung_id ≡ s.rung_id
unfolding record_all record_latency_ms
record_all-rung_id s [] = refl
record_all-rung_id s (m ∷ ms) = record_all-rung_id (record_latency_ms s m) ms

module _ {fl : Floats} (cfg : Config fl) (can_write : Text → Bool) where
  opening :
      (c : Clock) (h : HarnessState fl) (id : Text)
      → is_empty id ≡ false
      → h.adds.busy ≡ false
      → open_rung cfg can_write c id h
        ≡ ([], record h { stats = mark_window h.stats id c.epoch_sec c.steady })
  unfolding open_rung
  opening c h id nonempty free = simp (nonempty, free)

  closing :
      (c : Clock) (h : HarnessState fl) (id : Text)
      → h.stats.rung_id ≡ id
      → is_empty id ≡ false
      → is_empty cfg.stats_dir ≡ false
      → can_write (rung_path cfg can_write id) ≡ true
      → close_rung cfg can_write c h ≡ (
        stats_json cfg can_write c h,
        record h {
          last_rung_id = id;
          last_rung_body = some (stats_json cfg can_write c h);
          files = (rung_path cfg can_write id, stats_json cfg can_write c h) ∷ h.files;
        },
      )
  unfolding close_rung stats_json write_rung_file
  closing c h id e nonempty dir writable = rw (e, nonempty, dir, writable) refl

  ending :
      (observed : Option Bool) (h : HarnessState fl) (id : Text) (body : StatsBody fl)
      → h.last_rung_id ≡ id
      → h.last_rung_body ≡ some body
      → h.end_observed ≡ false
      → is_empty id ≡ false
      → is_empty cfg.stats_dir ≡ false
      → can_write (rung_path cfg can_write id) ≡ true
      → observe_end_of_run cfg can_write observed h ≡ record h {
        end_observed = true;
        replay_logging_at_end = replay_logging_label observed;
        files =
            (
              rung_path cfg can_write id,
              set_at_end cfg can_write (replay_logging_label observed) body,
            )
            ∷ h.files;
      }
  unfolding observe_end_of_run record_replay_logging_at_end write_rung_file
  ending observed h id body e b first nonempty dir writable =
      rw (first, b, e, nonempty, dir, writable) refl

  ended :
      (observed : Option Bool) (h : HarnessState fl)
      → h.end_observed ≡ true
      → observe_end_of_run cfg can_write observed h ≡ h
  unfolding observe_end_of_run
  ended observed h e = rw e refl

  stats_json-rung_id :
      (c : Clock) (h : HarnessState fl)
      → ((stats_json cfg can_write c h).meta.rung_id ≡ h.stats.rung_id)
        × ((stats_json cfg can_write c h).window ≡ load_window h.stats)
  unfolding stats_json
  stats_json-rung_id c h = (refl, refl)

  marked-rung_id :
      (s : Stats) (id : Text) (epoch_sec steady : ℕ) (ms : List ℤ)
      → (record_all (mark_window s id epoch_sec steady) ms).rung_id ≡ id
  unfolding mark_window
  marked-rung_id s id epoch_sec steady ms =
      record_all-rung_id (mark_window s id epoch_sec steady) ms

  -- A rung that is opened with an id while no add runs, in which samples arrive and which is then
  -- closed, reports under its id the window since it was opened, and the file of the rung, which
  -- can be written, holds this report. The end of the run adds to it what the API says then of the
  -- replay logging, and nothing else, and is only taken once.
  pub rung-filed :
      (h : HarnessState fl) (opened closed : Clock) (id : Text) (ms : List ℤ)
      (observed later : Option Bool)
      → is_empty id ≡ false
      → h.adds.busy ≡ false
      → h.end_observed ≡ false
      → is_empty cfg.stats_dir ≡ false
      → can_write (rung_path cfg can_write id) ≡ true
      → let (error, h1) = open_rung cfg can_write opened id h in
        let h2 = record h1 { stats = record_all h1.stats ms } in
        let (body, h3) = close_rung cfg can_write closed h2 in
        let h4 = observe_end_of_run cfg can_write observed h3 in
        (error ≡ [])
        × (body.meta.rung_id ≡ id)
        × (body.window
            ≡ load_window (record_all (mark_window h.stats id opened.epoch_sec opened.steady) ms))
        × (h4.files
            ≡ (
              rung_path cfg can_write id,
              set_at_end cfg can_write (replay_logging_label observed) body,
            )
              ∷ (rung_path cfg can_write id, body)
              ∷ h.files)
        × (observe_end_of_run cfg can_write later h4 ≡ h4)
  rung-filed h opened closed id ms observed later nonempty free first dir writable =
      let h2 : HarnessState fl = record h {
        stats = record_all (mark_window h.stats id opened.epoch_sec opened.steady) ms;
      } in
      let e = marked-rung_id h.stats id opened.epoch_sec opened.steady ms in
      let body = stats_json cfg can_write closed h2 in
      let h3 : HarnessState fl = record h2 {
        last_rung_id = id;
        last_rung_body = some body;
        files = (rung_path cfg can_write id, body) ∷ h.files;
      } in
      rw
        (
          opening opened h id nonempty free,
          closing closed h2 id e nonempty dir writable,
          ending observed h3 id body refl refl first nonempty dir writable,
        )
        (
          refl,
          (stats_json-rung_id closed h2).0 ∙ e,
          (stats_json-rung_id closed h2).1,
          refl,
          ended later _ refl,
        )
