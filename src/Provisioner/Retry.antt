-- ===== src/Provisioner/Retry.antt =====
-- `requestWithRetry` of src/Provisioner.cpp. No call of it passes the flag `stop`.
pub mod Attempts
pub mod Keeps
use cks_loadtest.Base.{ℕ, zero, suc, ◌+◌, ◌*◌, not, ◌||◌, List, if◌then◌else◌, leb}
use cks_loadtest.Base.Text.{Text}
use cks_loadtest.Graphql.{Json, Net, Query}
use cks_loadtest.Graphql.Action.{Action, Result, ok, err, other_exception, is_transport}
use cks_loadtest.Graphql.Request.{GraphqlClient, request}
use cks_loadtest.Provisioner.{Session}

module _ (json : Json) (net : Net) where
  abbrev pub Call : Type 0 → Type 0
  Call A = Action (Session net) A

  unfoldable pub request_once : GraphqlClient → Query → Text → List Text → Call json.Value
  request_once client query bearer extra_headers s =
      let (reply, w) = request json net client query bearer extra_headers s.world in
      (reply, record s { world = w })

  abbrev pub sleep : ℕ → Session net → Session net
  sleep ms s = record s { world = net.sleep_for ms s.world }

  -- The `catch` of the loop: rethrow, or sleep and go on.
  abbrev pub retry_or_throw :
      (Session net → Result json.Value × Session net)
      → ℕ
      → Result json.Value × Session net
      → Result json.Value × Session net
  retry_or_throw again attempts (ok v, s) = (ok v, s)
  retry_or_throw again attempts (err e, s) =
      if not (is_transport e) || leb 3 attempts
      then (err e, s)
      else again (sleep (500 * attempts) s)

  -- The loop, on fuel, after `attempts` attempts.
  unfoldable pub retry_from : ℕ → ℕ → Call json.Value → Call json.Value
  retry_from zero attempts once s = (err other_exception, s)
  retry_from (suc fuel) attempts once s =
      retry_or_throw (retry_from fuel (attempts + 1) once) (attempts + 1) (once s)

  unfoldable pub request_with_retry : GraphqlClient → Query → Text → List Text → Call json.Value
  request_with_retry client query bearer extra_headers =
      retry_from 3 0 (request_once client query bearer extra_headers)
