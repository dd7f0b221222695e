-- ===== src/Tests/OfHarness.antt =====
-- Witnesses for the configuration and the harness.
use cks_loadtest.Control.{refresh}
use cks_loadtest.Harness.Answers.{IsRefreshAnswer, handle_refresh}
use cks_loadtest.Base.{
  ◌%◌, ℕ, ◌≡◌, ◌↔◌, refl, true, false, Option, none, some, List, [], ◌∷◌, arith, ltb, if◌then◌else◌,
}
use cks_loadtest.Base.Int.{ℤ, pos, negsuc, ◌+ℤ◌}
use cks_loadtest.Base.Text.{Text, codes, is_empty}
use cks_loadtest.Config.Bind.{default_bind, parse_control_bind, trim, drop_blanks, drop_trailing}
use cks_loadtest.Config.Validate.{validate, validate_iff, IsSound, IsGuarded}
use cks_loadtest.Control.{ClientCredentials, ControlRequest, reassign}
use cks_loadtest.Harness.Api.{Api, returned, threw, done}
use cks_loadtest.Harness.Control.{handle_request}
use cks_loadtest.Harness.Answers.{IsAnswer, handle_reassign}
use cks_loadtest.Harness.Adds.{
  Adds, AddEvent, requested, finished, run_events, IsWithin, run_events-IsWithin,
}
use cks_loadtest.Harness.Spread.{distribute, waiting_count}
use cks_loadtest.Harness.Spread.HandOut.{hand_out, distribute-hand_out}
use cks_loadtest.Worker.Loop.{Worker}
use cks_loadtest.Placement.{cube_chunk, cube_slot, cube_chunk-distinct}
use cks_loadtest.Harness.Spread.{rem}
use cks_loadtest.Tests.{floats, config, credentials, no_stats, no_requests}

abbrev no_number : Text → Option ℤ
no_number t = none

-- The fixture has no control address, so that the control port is off.
validate_iff_example :
    (validate no_number config ≡ some [])
    ↔ (IsSound config × IsGuarded config (record default_bind { disabled = true }))
unfolding parse_control_bind trim drop_blanks drop_trailing is_empty
validate_iff_example = validate_iff no_number config (record default_bind { disabled = true }) refl

-- The first two attempts to assign a server fail.
abbrev flaky : Api
flaky = record {
  management_api_url = codes "https://example.com";
  refresh_token = λ url c. threw c;
  assign_server = λ n c. if ltb n 3 then threw c else returned done c;
  is_shutdown = λ n. false;
}

abbrev reassign_request : ControlRequest
reassign_request = record {
  worker_index = 0;
  client_index = 4;
  kind = reassign;
  creds = credentials;
}

handle_reassign_example :
    let (u, t) = handle_request flaky reassign_request no_stats in
    (u.client_index ≡ 4) × IsAnswer flaky credentials no_stats u.failed u.creds t
handle_reassign_example = handle_reassign flaky reassign_request no_stats refl

-- A refresh that does not keep the server.
abbrev moving : Api
moving = record flaky { refresh_token = λ url c. returned false c }

handle_refresh_example :
    let (u, t) = handle_request moving (record reassign_request { kind = refresh }) no_stats in
    (u.client_index ≡ 4)
    × IsRefreshAnswer moving (returned false credentials) no_stats u.failed u.creds t
handle_refresh_example =
    handle_refresh moving (record reassign_request { kind = refresh }) no_stats refl

abbrev adds : List AddEvent
adds =
    requested (pos 40)
    ∷ requested (pos 1)
    ∷ finished true false
    ∷ requested (pos 70)
    ∷ requested (pos 60)
    ∷ finished false true
    ∷ []

abbrev pub no_adds : Adds
no_adds = record { used = pos 0; busy = false; add_error = []; running = none }

abbrev pub no_digits : ℤ → Text
no_digits z = []

run_events-IsWithin_example :
    IsWithin no_digits (pos 100) (pos 1000) (run_events no_digits (pos 100) (pos 1000) adds no_adds)
unfolding ◌+ℤ◌
run_events-IsWithin_example =
    run_events-IsWithin no_digits (pos 100) (pos 1000) (omega arith) adds no_adds (omega arith)
      (record { used_range = omega arith; one_runs = refl })

abbrev idle : Worker floats ℕ
idle = record {
  index = 0;
  clients = [];
  client_count = 0;
  inbox = [];
  pending = [];
  gen = 0;
  stats = no_stats;
  control = no_requests;
}

-- Two clients of worker 1, and one with a negative index.
abbrev three_clients : List ClientCredentials
three_clients =
    record credentials { index = pos 3 }
    ∷ record credentials { index = negsuc 4 }
    ∷ record credentials { index = pos 5 }
    ∷ []

distribute-hand_out_example :
    (distribute config 5 three_clients (idle ∷ idle ∷ [])
      ≡ hand_out config 5 0 0 three_clients (idle ∷ idle ∷ []))
    × (waiting_count (distribute config 5 three_clients (idle ∷ idle ∷ [])) ≡ 3)
distribute-hand_out_example =
    distribute-hand_out config 5 three_clients (idle ∷ idle ∷ []) (omega arith) (omega arith)

cube_chunk-distinct_example : 5 % 27 ≡ 32 % 27
unfolding cube_chunk cube_slot rem ◌+ℤ◌
cube_chunk-distinct_example = cube_chunk-distinct 3 (omega arith) 5 32 refl
