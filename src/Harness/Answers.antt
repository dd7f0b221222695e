-- ===== src/Harness/Answers.antt =====
-- When the control thread succeeds, and what it counts.
use cks_loadtest.Base.{==_refl}
use cks_loadtest.Base.Text.{text_eq_iff}
use cks_loadtest.Control.{refresh}
use cks_loadtest.Harness.Control.{Outcome, has_moved, after_refresh, refresh_url}
use cks_loadtest.Base.{
  ℕ, zero, suc, ◌+◌, ◌<◌, ◌≡◌, refl, Bool, true, false, arith, ◌⊎◌, inl, inr, leb, ◌||◌, Bool-cases,
  if◌then◌else◌,
}
use cks_loadtest.Control.{ClientCredentials, ControlRequest, reassign}
use cks_loadtest.Stats.{Stats, inc}
use cks_loadtest.Harness.Api.{Api, Call, returned, threw, Done, done}
use cks_loadtest.Harness.Control.{
  next, assign_from, handle_request, attempt_request, count_reassignment,
}

-- From attempt `n` on, the assignment succeeds with `after`: this attempt returns, or it throws, is
-- not the 15th, the queue is not shut down, and a later attempt succeeds.
pub data Placed (api : Api) : ℕ → ClientCredentials → ClientCredentials → Type 0 where
  at_once :
      {n : ℕ} {c after : ClientCredentials}
      → api.assign_server n c ≡ returned done after
      → Placed api n c after
  retried :
      {n : ℕ} {c between after : ClientCredentials}
      → api.assign_server n c ≡ threw between
      → n < 15
      → api.is_shutdown n ≡ false
      → Placed api (n + 1) between after
      → Placed api n c after

-- The attempts end in `r`: with success exactly as `Placed` says, or with none.
abbrev pub Ends : Api → ℕ → ClientCredentials → Call Done → Type 0
Ends api n c (returned d after) = Placed api n c after
Ends api n c (threw last) = (after : ClientCredentials) → Placed api n c after → ⊥

module _ (api : Api) where
  -- A throwing attempt after which the loop gives up leaves no way to succeed.
  last_throw :
      (n : ℕ) (c last : ClientCredentials)
      → api.assign_server n c ≡ threw last
      → (leb 15 n || api.is_shutdown n) ≡ true
      → Ends api n c (threw last)
  last_throw n c last e h after (at_once f) = absurd (ground (arith, e, f))
  last_throw n c last e h after (retried f lt live p) = absurd (ground (arith, h, lt, live))

  no_later :
      (n : ℕ) (c between last : ClientCredentials)
      → api.assign_server n c ≡ threw between
      → Ends api (n + 1) between (threw last)
      → Ends api n c (threw last)
  no_later n c between last e p after (at_once f) = absurd (ground (arith, e, f))
  no_later n c between last e p after (retried {between = other} f lt live q) =
      let same : other ≡ between = ground (arith, e, f) in p after (rw⁻¹ same q)

  more_throw :
      (n : ℕ) (c between : ClientCredentials) (r : Call Done)
      → api.assign_server n c ≡ threw between
      → (leb 15 n || api.is_shutdown n) ≡ false
      → Ends api (n + 1) between r
      → Ends api n c r
  more_throw n c between (returned d after) e h p =
      retried e (ground (arith, h)) (ground (arith, h)) p
  more_throw n c between (threw last) e h p = no_later n c between last e p

  Ends-next :
      (n : ℕ) (c : ClientCredentials) (retry : ClientCredentials → Call Done) (r : Call Done)
      → api.assign_server n c ≡ r
      → ((between : ClientCredentials) → n < 15 → Ends api (n + 1) between (retry between))
      → Ends api n c (next api retry n r)
  Ends-next n c retry (returned done after) e later = at_once e
  Ends-next n c retry (threw between) e later = elim (Bool-cases (leb 15 n || api.is_shutdown n)) [
    | inl over ↦ rw over (last_throw n c between e over)
    | inr on ↦
        rw on (more_throw n c between (retry between) e on (later between (ground (arith, on))))
  ]

  assign_from-Ends :
      (left n : ℕ) (c : ClientCredentials)
      → left + n ≡ 15
      → Ends api n c (assign_from api (suc left) n c)
  unfolding assign_from
  assign_from-Ends zero n c h =
      Ends-next n c _ (api.assign_server n c) refl (λ between lt. absurd (omega arith))
  assign_from-Ends (suc left) n c h =
      Ends-next n c _ (api.assign_server n c) refl
        (λ between lt. assign_from-Ends left (n + 1) between (omega arith))

  -- What a reassignment comes to, if its attempts end in `r`.
  abbrev pub IsAnswer : ClientCredentials → Stats → Bool → ClientCredentials → Stats → Type 0
  IsAnswer c s failed after t =
      ((failed ≡ false)
        × Placed api 1 c after
        × (t ≡ record s { reassignments = inc s.reassignments }))
      ⊎ ((failed ≡ true)
          × ((other : ClientCredentials) → Placed api 1 c other → ⊥)
          × (t ≡ record s { control_failures = inc s.control_failures }))

  reassign-Ends :
      (c : ClientCredentials) (s : Stats) (r : Call Done)
      → Ends api 1 c r
      → let o = count_reassignment api reassign c r s in
        IsAnswer c s o.failed o.creds (
          if o.failed
          then record (o.stats) { control_failures = inc o.stats.control_failures }
          else o.stats)
  reassign-Ends c s (returned done after) p = inl (refl, p, refl)
  reassign-Ends c s (threw last) p = inr (refl, p, refl)

  -- A reassignment is answered at the slot that asked. It succeeds with the credentials of the
  -- first attempt that returns, if all before it (14 at most) threw while the queue was open, and
  -- counts one reassignment; if there is no such attempt, the update says that it failed, and one
  -- control failure is counted.
  pub handle_reassign :
      (req : ControlRequest) (s : Stats)
      → req.kind ≡ reassign
      → let (u, t) = handle_request api req s in
        (u.client_index ≡ req.client_index) × IsAnswer req.creds s u.failed u.creds t
  unfolding handle_request attempt_request
  handle_reassign req s k = (
    refl,
    rw k (
        reassign-Ends req.creds s (assign_from api 15 1 req.creds)
          (assign_from-Ends 14 1 req.creds refl)),
  )

  -- What a refresh comes to, by what the API's refresh did.
  abbrev pub IsRefreshAnswer : Call Bool → Stats → Bool → ClientCredentials → Stats → Type 0
  IsRefreshAnswer (threw c) s failed after t =
      (failed ≡ true) × (t ≡ record s { control_failures = inc s.control_failures })
  IsRefreshAnswer (returned true c) s failed after t =
      (failed ≡ false)
      × (after ≡ c)
      × (t ≡ record s {
        token_refreshes = inc s.token_refreshes;
        refreshes_kept_server = inc s.refreshes_kept_server;
      })
  IsRefreshAnswer (returned false c) s failed after t =
      let r : Stats = record s { token_refreshes = inc s.token_refreshes } in
      ((failed ≡ false)
        × Placed api 1 c after
        × (t ≡ (
            if has_moved api c after then record r { reassignments = inc r.reassignments } else r)))
      ⊎ ((failed ≡ true)
          × ((other : ClientCredentials) → Placed api 1 c other → ⊥)
          × (t ≡ record r { control_failures = inc r.control_failures }))

  has_moved_refl : (c : ClientCredentials) → has_moved api c c ≡ false
  has_moved_refl c = rw ((text_eq_iff c.server_ip4 c.server_ip4).1 refl, ==_refl c.server_port) refl

  abbrev count_failure : Outcome → Stats
  count_failure o =
      if o.failed
      then record (o.stats) { control_failures = inc o.stats.control_failures }
      else o.stats

  moved-Ends :
      (c : ClientCredentials) (s : Stats) (r : Call Done)
      → Ends api 1 c r
      → let o =
          count_reassignment api refresh c r
            (record s { token_refreshes = inc s.token_refreshes }) in
        IsRefreshAnswer (returned false c) s o.failed o.creds (count_failure o)
  moved-Ends c s (returned done after) p = inl (refl, p, refl)
  moved-Ends c s (threw last) p = inr (refl, p, refl)

  refresh-Ends :
      (s : Stats) (r : Call Bool)
      → let o = after_refresh api r s in IsRefreshAnswer r s o.failed o.creds (count_failure o)
  refresh-Ends s (threw c) = (refl, refl)
  refresh-Ends s (returned true c) = (refl, refl, rw (has_moved_refl c) refl)
  refresh-Ends s (returned false c) =
      moved-Ends c s (assign_from api 15 1 c) (assign_from-Ends 14 1 c refl)

  -- A refresh is answered at the slot that asked. If the API's refresh throws, the update says that it
  -- failed. If the API keeps the client's server, the update has the refreshed credentials and no
  -- server is asked for. Otherwise a server is asked for as in a reassignment, which counts as one
  -- exactly if the address changed. A refresh that returned is counted, and so is a failure.
  pub handle_refresh :
      (req : ControlRequest) (s : Stats)
      → req.kind ≡ refresh
      → let (u, t) = handle_request api req s in
        (u.client_index ≡ req.client_index)
        × IsRefreshAnswer
            (api.refresh_token (refresh_url api req.creds) req.creds)
            s
            u.failed
            u.creds
            t
  unfolding handle_request attempt_request
  handle_refresh req s k =
      (refl, rw k (refresh-Ends s (api.refresh_token (refresh_url api req.creds) req.creds)))
