-- ===== src/Tests/OfControl.antt =====
-- Witnesses for the control port and the rungs.
use cks_loadtest.Base.{◌≡◌, ◌⊎◌, ◌<◌, refl, arith, true, false, none, some, List, [], ◌∷◌, Bool}
use cks_loadtest.Base.Int.{ℤ, pos}
use cks_loadtest.Base.Text.{Text, codes, is_empty}
use cks_loadtest.Config.{Config}
use cks_loadtest.Stats.{record_all, load_window, mark_window}
use cks_loadtest.Stats.Report.{replay_logging_label}
use cks_loadtest.Harness.Rungs.{
  HarnessState, Clock, open_rung, close_rung, observe_end_of_run, rung_path, set_at_end,
}
use cks_loadtest.Harness.Rungs.Filed.{rung-filed}
use cks_loadtest.ControlServer.{
  Request, serve, post_shutdown, get_health, post_clients_add, unauthorized,
}
use cks_loadtest.ControlServer.Guard.{serve-LacksToken, serve-refused}
use cks_loadtest.Tests.{floats, config, no_stats}
use cks_loadtest.Tests.OfHarness.{no_adds, no_digits}
use cks_loadtest.Tests.OfProvisioner.{json}

abbrev harness : HarnessState floats
harness = record {
  adds = no_adds;
  stats = no_stats;
  interval = record {
    dt_sec = 0;
    epoch_sec = 0;
    tx_pps = 0;
    tx_bps = 0;
    rx_dps = 0;
    rx_bps = 0;
    rx_notif_ps = 0;
    avg_latency_ms = 0;
  };
  replay_logging_observed = codes "off";
  replay_logging_at_end = [];
  last_rung_id = [];
  last_rung_body = none;
  is_shutdown = false;
  is_started = true;
  end_observed = false;
  files = [];
}

abbrev with_dir : Config floats
with_dir = record config { stats_dir = codes "/tmp/stats" }

abbrev any_file : Text → Bool
any_file path = true

abbrev at_ten : Clock
at_ten = record { epoch_sec = 10; steady = 1_000_000_000 }

abbrev at_twenty : Clock
at_twenty = record { epoch_sec = 20; steady = 11_000_000_000 }

abbrev rung : Text
rung = codes "rung1"

abbrev two_samples : List ℤ
two_samples = pos 12 ∷ pos 40 ∷ []

rung-filed_example :
    let (error, h1) = open_rung with_dir any_file at_ten rung harness in
    let h2 = record h1 { stats = record_all h1.stats two_samples } in
    let (body, h3) = close_rung with_dir any_file at_twenty h2 in
    let h4 = observe_end_of_run with_dir any_file (some true) h3 in
    (error ≡ [])
    × (body.meta.rung_id ≡ rung)
    × (body.window
        ≡ load_window (record_all (mark_window no_stats rung 10 1_000_000_000) two_samples))
    × (h4.files
        ≡ (
          rung_path with_dir any_file rung,
          set_at_end with_dir any_file (replay_logging_label (some true)) body,
        )
          ∷ (rung_path with_dir any_file rung, body)
          ∷ [])
    × (observe_end_of_run with_dir any_file none h4 ≡ h4)
unfolding is_empty
rung-filed_example =
    rung-filed with_dir any_file harness at_ten at_twenty rung two_samples (some true) none refl
      refl refl refl refl

-- A shutdown without the token.
abbrev stranger : Request
stranger = record { route = post_shutdown; authorization = codes "Bearer guess"; body = [] }

serve-LacksToken_example :
    let (response, h') =
      serve json no_digits config any_file (codes "secret") at_ten stranger harness in
    (h' ≡ harness) × ((post_shutdown ≡ get_health) ⊎ (response ≡ unauthorized {fl = floats}))
unfolding is_empty
serve-LacksToken_example =
    serve-LacksToken json no_digits config any_file (codes "secret") at_ten stranger harness refl
      (ground arith)

-- A request without a count is one for no clients.
abbrev empty_add : Request
empty_add = record { route = post_clients_add; authorization = codes "Bearer secret"; body = [] }

serve-refused_example :
    let (response, h') =
      serve json no_digits config any_file (codes "secret") at_ten empty_add harness in
    (response.status < 400) ⊎ (h' ≡ harness)
serve-refused_example =
    serve-refused json no_digits config any_file (codes "secret") at_ten empty_add harness
