-- ===== src/Tests/OfWorker.antt =====
-- Witnesses for the workers.
use cks_loadtest.Base.{ℕ, refl, true, List, [], ◌∷◌, some}
use cks_loadtest.Base.Int.{pos, ◌+ℤ◌}
use cks_loadtest.Wire.Codes.{generic_error_message, err_unauthorized, err_token_expired}
use cks_loadtest.Worker.Receive.{datagram, drained, handle_error}
use cks_loadtest.Worker.Loop.{Worker, Tick}
use cks_loadtest.Worker.Gauges.{IsConsistent}
use cks_loadtest.Worker.Gauges.Run.{
  Event, client_added, update_posted, round_run, run_all, run_all-IsConsistent,
}
use cks_loadtest.Worker.Refresh.{AsksNothing, handle_error-AsksNothing}
use cks_loadtest.Worker.Refresh.Once.{AsksOnce}
use cks_loadtest.Worker.Refresh.Once.Run.{
  ClientStep, updates, sends, receives, run_client, run_client-AsksOnce,
}
use cks_loadtest.Tests.{
  floats, crypto, config, still, credentials, no_stats, no_requests, refused_update, asking_cell,
}

abbrev new_worker : Worker floats ℕ
new_worker = record {
  index = 0;
  clients = [];
  client_count = 0;
  inbox = [];
  pending = [];
  gen = 0;
  stats = no_stats;
  control = no_requests;
}

-- A round in which sockets open, sends succeed, and the client of slot 0 gets an error message.
abbrev tick : Tick floats
tick = record {
  steady_now = 50;
  steady_seconds = 1;
  system_now = 60;
  openings = λ slot. record {
    socket_fd = some slot;
    address_parses = true;
    rcvbuf_set = true;
    connects = true;
    epoll_adds = true;
  };
  sends = λ slot. record { caps_sent = true; update_sent = true };
  events =
      (
        0,
        datagram (record { steady_now = 51; steady_seconds = 1; epoch_millis = pos 9 })
              (generic_error_message ∷ 0 ∷ err_unauthorized ∷ [])
            ∷ drained
            ∷ [],
      )
      ∷ [];
}

abbrev history : List (Event floats)
history =
    client_added credentials 10
    ∷ round_run tick
    ∷ update_posted refused_update
    ∷ round_run tick
    ∷ []

run_all-IsConsistent_example : IsConsistent (pos 3) (pos 4) (
    run_all still crypto config history (record new_worker {
      stats = record no_stats { active_clients = pos 3; suspended_clients = pos 4 };
    }))
unfolding ◌+ℤ◌
run_all-IsConsistent_example =
    run_all-IsConsistent still crypto config (pos 3) (pos 4) history
      (record new_worker {
        stats = record no_stats { active_clients = pos 3; suspended_clients = pos 4 };
      })
      (record { active_gauge = refl; suspended_gauge = refl; all_tidy = tt; counted = refl })

handle_error-AsksNothing_example :
    AsksNothing asking_cell (handle_error config 0 0 100 err_token_expired asking_cell)
handle_error-AsksNothing_example =
    handle_error-AsksNothing config 0 0 100 err_token_expired asking_cell refl refl

-- A refused refresh, a token error, and a round of sending, for a client that has asked.
abbrev unanswered : List (ClientStep still)
unanswered =
    updates refused_update
    ∷ receives (
        datagram (record { steady_now = 51; steady_seconds = 1; epoch_millis = pos 9 })
          (generic_error_message ∷ 0 ∷ err_token_expired ∷ [])
        ∷ [])
    ∷ sends 3 200 (record { caps_sent = true; update_sent = true }) 0
    ∷ []

run_client-AsksOnce_example :
    AsksOnce asking_cell (run_client still crypto config 0 0 unanswered asking_cell)
run_client-AsksOnce_example =
    run_client-AsksOnce still crypto config 0 0 unanswered asking_cell (refl, tt)
