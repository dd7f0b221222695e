-- ===== src/Provisioner/Pool/Range.antt =====
-- `provisionRange` and `provisionAll`, with the clients of a range as the jobs of the pool.
use cks_loadtest.Base.{
  ℕ, zero, suc, ◌+◌, ◌<◌, ◌≡◌, refl, arith, ◌⊎◌, inl, inr, Bool, true, false, not, ◌&&◌, Option,
  none, some, List, [], ltb, ◌||◌, if◌then◌else◌, length, get_elem?, min, Bool-cases,
}
use cks_loadtest.Base.Int.{ℤ, pos, ◌+ℤ◌, ◌<ℤ◌, leb_ℤ, pos_part}
use cks_loadtest.Base.Text.{Text, is_empty}
use cks_loadtest.Platform.{Floats}
use cks_loadtest.Config.{Config}
use cks_loadtest.Config.Email.{derived_email}
use cks_loadtest.Control.{ClientCredentials}
use cks_loadtest.Graphql.{Json, Net}
use cks_loadtest.Graphql.Action.{Action, Result, ok, err}
use cks_loadtest.Graphql.Request.{client_for}
use cks_loadtest.Provisioner.{Provisioner, Session, find}
use cks_loadtest.Provisioner.Client.{new_credentials, provision_client}
use cks_loadtest.Provisioner.Client.Provisioned.{
  TokensAre64, provision_client-HasToken, provision_client-Keeps,
}
use cks_loadtest.Provisioner.Tokens.Minted.{HasToken}
use cks_loadtest.Provisioner.Roster.{new_provisioner}
use cks_loadtest.Provisioner.Roster.Loaded.{new_provisioner-IsRoster, find-AllValues, IsAppToken}
use cks_loadtest.Provisioner.Pool.{Event, start, run_pool, joined}
use cks_loadtest.Provisioner.Pool.Filled.{start-IsFilling, run_pool-IsFilling}
use cks_loadtest.Provisioner.Pool.Joined.{IsAllOrNothing, joined-IsAllOrNothing}

-- `padded` is `snprintf` with `%0*d`, as for `format_index`.
module _ {fl : Floats} (json : Json) (net : Net) (iso : ℕ → Text → ℕ) (padded : ℤ → ℤ → Text)
    (p : Provisioner fl) where
  abbrev pub is_covered : Option Text → Bool
  is_covered none = false
  is_covered (some t) = true

  -- How many of the first `n` indices have an entry in the roster.
  unfoldable pub covered : ℤ → ℕ → ℕ
  covered global_start zero = 0
  covered global_start (suc n) =
      covered global_start n + (if is_covered (find (global_start +ℤ pos n) p.roster) then 1 else 0)

  abbrev pub job_result : Result (Unit {0}) × Session net → Result ClientCredentials × Session net
  job_result (ok x, s) = (ok s.creds, s)
  job_result (err e, s) = (err e, s)

  -- A round for the client at an offset, with the GraphQL client of its thread.
  unfoldable pub provision_at : ℤ → ℕ → Action (Session net) ClientCredentials
  provision_at global_start offset s =
      let global = global_start +ℤ pos offset in
      job_result (
        provision_client json net iso p
          (client_for p.config.management_api_url p.config.tls_insecure)
          (record s { creds = new_credentials global (derived_email padded p.config global) }))

  abbrev pub thread_count : ℕ → ℕ
  thread_count count = min (pos_part p.config.provision_concurrency) count

  -- The result, `none` while a thread still runs; the events come in any order.
  unfoldable pub provision_range :
      ℤ → ℤ → Bool → List Event → Session net → Option (List ClientCredentials)
  provision_range global_start count stopped events s =
      let n = pos_part count in
      if leb_ℤ count (pos 0)
        || not (is_empty p.config.roster_file)
          && ltb (covered global_start n) n
          && p.config.roster_required
      then some []
      else joined (provision_at global_start) n (
          run_pool (provision_at global_start) n events (
            start (provision_at global_start) n (thread_count n) s (new_credentials (pos 0) [])
              stopped))

  unfoldable pub provision_all : Bool → List Event → Session net → Option (List ClientCredentials)
  provision_all stopped events s =
      if leb_ℤ p.config.clients (pos 0)
      then some []
      else provision_range p.config.index_base p.config.clients stopped events s

  -- The client at offset `i` of a range that begins at `global_start`.
  pub record IsClient (global_start : ℤ) (i : ℕ) (c : ClientCredentials) : Type 0 where
    pub own_index : c.index ≡ global_start +ℤ pos i
    pub own_email : c.email ≡ derived_email padded p.config (global_start +ℤ pos i)
    pub token_64 : length c.app_token ≡ 64
    pub has_url : is_empty c.game_api_url ≡ false

  result-IsClient :
      (global_start : ℤ) (i : ℕ) (s : Session net) (c : ClientCredentials)
      (r : Result (Unit {0}) × Session net)
      → (r.0 ≡ ok tt → HasToken r.1)
      → (r.1.creds.index ≡ global_start +ℤ pos i)
        × (r.1.creds.email ≡ derived_email padded p.config (global_start +ℤ pos i))
      → (job_result r).0 ≡ ok c
      → IsClient global_start i c
  result-IsClient global_start i s c (ok x, t) has (own_index, own_email) h =
      let e : t.creds ≡ c = ground (arith, h) in
      let token = has refl in
      rw⁻¹ e (record {
        own_index = own_index;
        own_email = own_email;
        token_64 = token.token_64;
        has_url = token.has_url;
      })
  result-IsClient global_start i s c (err x, t) has same h = cc

  provision_at-IsClient :
      (global_start : ℤ) (i : ℕ) (s : Session net) (c : ClientCredentials)
      → TokensAre64 p
      → (provision_at global_start i s).0 ≡ ok c
      → IsClient global_start i c
  unfolding provision_at
  provision_at-IsClient global_start i s c all h =
      let mgmt = client_for p.config.management_api_url p.config.tls_insecure in
      let s' : Session net = record s {
        creds =
            new_credentials (global_start +ℤ pos i)
              (derived_email padded p.config (global_start +ℤ pos i));
      } in
      result-IsClient global_start i s c (provision_client json net iso p mgmt s')
        (provision_client-HasToken json net iso p mgmt s' all)
        (provision_client-Keeps json net iso p mgmt s') h

  range-IsAllOrNothing :
      (global_start count : ℤ) (stopped : Bool) (events : List Event) (s : Session net)
      (out : List ClientCredentials)
      → TokensAre64 p
      → pos 0 <ℤ p.config.provision_concurrency
      → provision_range global_start count stopped events s ≡ some out
      → IsAllOrNothing (provision_at global_start) (pos_part count) (IsClient global_start) out
  unfolding provision_range
  range-IsAllOrNothing global_start count stopped events s out all threads h =
      let n = pos_part count in
      elim (Bool-cases (
        leb_ℤ count (pos 0)
        || not (is_empty p.config.roster_file)
          && ltb (covered global_start n) n
          && p.config.roster_required)) [
            | inl empty ↦ inl (ground (arith, h, empty))
            | inr on ↦
                joined-IsAllOrNothing (provision_at global_start) n (IsClient global_start)
                  (run_pool (provision_at global_start) n events (
                    start (provision_at global_start) n (thread_count n) s
                      (new_credentials (pos 0) []) stopped))
                  out
                  (run_pool-IsFilling (provision_at global_start) n (IsClient global_start)
                    (λ i t c e. provision_at-IsClient global_start i t c all e) events _
                    (start-IsFilling (provision_at global_start) n (IsClient global_start)
                      (thread_count n) s (new_credentials (pos 0) []) stopped
                      (ground (arith, threads, on))))
                  (ground (arith, h, on))
          ]

module _ {fl : Floats} (json : Json) (net : Net) (iso : ℕ → Text → ℕ) (padded : ℤ → ℤ → Text) where
  -- Whatever the threads' turns, the answers of the network and the signals: with a provisioner
  -- that the constructor made and at least one thread, a range ends with no client or with
  -- exactly as many as asked for, the client at offset i with the index `global_start + i`, the
  -- email derived from it, an app token of 64 octets and a URL of the game API.
  pub provision_range-IsAllOrNothing :
      (cfg : Config fl) (file : Option Text) (load_time : ℕ) (p : Provisioner fl)
      (global_start count : ℤ) (stopped : Bool) (events : List Event) (s : Session net)
      (out : List ClientCredentials)
      → new_provisioner json net (iso load_time) cfg file ≡ ok p
      → pos 0 <ℤ cfg.provision_concurrency
      → provision_range json net iso padded p global_start count stopped events s ≡ some out
      → (out ≡ [])
        ⊎ ((length out ≡ pos_part count)
            × ((i : ℕ)
                → i < pos_part count
                → (c : ClientCredentials) × (get_elem? out i ≡ some c)
                  × IsClient json net iso padded p global_start i c))
  provision_range-IsAllOrNothing cfg file load_time p global_start count stopped events s out loaded
        threads h =
      let (roster, same) = new_provisioner-IsRoster json net (iso load_time) cfg file p loaded in
      range-IsAllOrNothing json net iso padded p global_start count stopped events s out
        (λ index t e. (find-AllValues IsAppToken index t p.roster_app_tokens roster.0 e).0)
        (rw same threads) h
