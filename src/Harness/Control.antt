-- ===== src/Harness/Control.antt =====
-- `controlLoop` of src/Harness.cpp: one round of its loop, for the request that it popped.
use cks_loadtest.Base.{
  ℕ, zero, suc, ◌+◌, Bool, true, false, not, ◌&&◌, ◌||◌, if◌then◌else◌, ◌==◌, leb,
}
use cks_loadtest.Base.Text.{Text, text_eq, is_empty}
use cks_loadtest.Control.{ClientCredentials, ControlRequest, ClientUpdate, Kind, reassign, refresh}
use cks_loadtest.Stats.{Stats, inc}
use cks_loadtest.Harness.Api.{Api, Call, returned, threw, Done, done}

abbrev pub is_refresh : Kind → Bool
is_refresh refresh = true
is_refresh reassign = false

-- The credentials, the counters, and whether an exception reached the outer handler.
pub record Outcome : Type 0 where
  pub creds : ClientCredentials
  pub stats : Stats
  pub failed : Bool

module _ (api : Api) where
  abbrev pub refresh_url : ClientCredentials → Text
  refresh_url c =
      if not (is_empty c.game_api_url) && not (text_eq c.game_api_url api.management_api_url)
      then c.game_api_url
      else api.management_api_url

  -- The body of the `for` loop: an attempt that throws is the last one if it is the 15th or the
  -- queue is shut down.
  abbrev pub next : (ClientCredentials → Call Done) → ℕ → Call Done → Call Done
  next retry attempt (returned d c) = returned d c
  next retry attempt (threw c) =
      if leb 15 attempt || api.is_shutdown attempt then threw c else retry c

  -- The loop, with `left` attempts left.
  unfoldable pub assign_from : ℕ → ℕ → ClientCredentials → Call Done
  assign_from zero attempt c = threw c
  assign_from (suc left) attempt c =
      next (assign_from left (attempt + 1)) attempt (api.assign_server attempt c)

  abbrev pub has_moved : ClientCredentials → ClientCredentials → Bool
  has_moved before after =
      not (text_eq after.server_ip4 before.server_ip4)
      || not (after.server_port == before.server_port)

  abbrev pub count_reassignment : Kind → ClientCredentials → Call Done → Stats → Outcome
  count_reassignment k before (threw c) s = record { creds = c; stats = s; failed = true }
  count_reassignment k before (returned d c) s = record {
    creds = c;
    stats =
        if not (is_refresh k) || has_moved before c
        then record s { reassignments = inc s.reassignments }
        else s;
    failed = false;
  }

  -- What follows the refresh, from `previousIp4` on.
  abbrev pub place : Kind → Bool → ClientCredentials → Stats → Outcome
  place k kept c s =
      let placed = assign_from 15 1 c in
      count_reassignment k c (if kept then returned done c else placed) s

  abbrev pub after_refresh : Call Bool → Stats → Outcome
  after_refresh (threw c) s = record { creds = c; stats = s; failed = true }
  after_refresh (returned kept c) s =
      let t = record s { token_refreshes = inc s.token_refreshes } in
      place refresh kept c
        (if kept then record t { refreshes_kept_server = inc t.refreshes_kept_server } else t)

  unfoldable pub attempt_request : Kind → ClientCredentials → Stats → Outcome
  attempt_request reassign c s = place reassign false c s
  attempt_request refresh c s = after_refresh (api.refresh_token (refresh_url c) c) s

  -- The update that is posted to worker `req.worker_index`, and the counters.
  unfoldable pub handle_request : ControlRequest → Stats → ClientUpdate × Stats
  handle_request req s =
      let o = attempt_request req.kind req.creds s in
      (
        record { client_index = req.client_index; failed = o.failed; creds = o.creds },
        if o.failed
            then record (o.stats) { control_failures = inc o.stats.control_failures }
            else o.stats,
      )
