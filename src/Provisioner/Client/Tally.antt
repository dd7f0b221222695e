-- ===== src/Provisioner/Client/Tally.antt =====
-- How the sign-ins are counted while clients are provisioned.
use cks_loadtest.Base.{ℕ, ◌≡◌, refl, inl, inr, arith, ◌⊎◌, true, false, Option, none, some, List}
use cks_loadtest.Base.Text.{Text, is_empty}
use cks_loadtest.Control.{ClientCredentials}
use cks_loadtest.Provisioner.Roster.{roster_session}
use cks_loadtest.Platform.{Floats}
use cks_loadtest.Graphql.{Json, Net, Query}
use cks_loadtest.Graphql.Action.{Result, ok, err, and_then, Keeps, Failure, ◌>>◌}
use cks_loadtest.Graphql.Request.{GraphqlClient}
use cks_loadtest.Provisioner.{Provisioner, Session, count_up, RosterAppToken}
use cks_loadtest.Provisioner.Retry.{Call, request_with_retry}
use cks_loadtest.Provisioner.Retry.Keeps.{request-sign_ins, request-run_started}
use cks_loadtest.Provisioner.SignIn.{login, register, sign_in, token_under}
use cks_loadtest.Provisioner.Tokens.{
  update, mint_request, mint_or_consent, mint_answer, after_consents, install_token, choose_url,
  check_minted, mint_app_token, install_server, assign_server, bootstrap_game_client, game_client,
}
use cks_loadtest.Provisioner.Client.{
  place_client, use_app_token, obtain_session, use_session, use_roster, find_app_token,
  provision_client,
}

module _ {net : Net} where
  -- Nothing has been counted.
  abbrev pub SameTally : Session net → Session net → Type 0
  SameTally s t = (t.sign_ins ≡ s.sign_ins) × (t.run_started ≡ s.run_started)

  -- A session has been counted as reused.
  abbrev pub CountsReused : Session net → Session net → Type 0
  CountsReused s t = t.sign_ins ≡ record (s.sign_ins) { reused = count_up s.sign_ins.reused }

  -- A session has been counted as minted, before or during the run.
  abbrev pub CountsMinted : Session net → Session net → Type 0
  CountsMinted s t =
      ((s.run_started ≡ false)
        × (t.sign_ins ≡ record (s.sign_ins) {
          minted_provisioning = count_up s.sign_ins.minted_provisioning;
        }))
      ⊎ ((s.run_started ≡ true)
          × (t.sign_ins
              ≡ record (s.sign_ins) { minted_mid_run = count_up s.sign_ins.minted_mid_run }))

module _ {fl : Floats} (p : Provisioner fl) where
  -- The roster has an app token for the client.
  abbrev pub HasToken : ClientCredentials → Type 0
  HasToken c = (pre : RosterAppToken) × (find_app_token p c ≡ ok (some pre))

  -- The roster has no app token for the client, and this session, which is empty if it has none.
  abbrev pub HasSession : ClientCredentials → Text → Type 0
  HasSession c found =
      (find_app_token p c ≡ ok none) × (roster_session p c.index c.email ≡ ok found)

  -- The client has been counted once: as reused exactly if the roster has a token or a session for it.
  abbrev pub CountsOne : {net : Net} → Session net → Session net → Type 0
  CountsOne s t =
      (HasToken s.creds × CountsReused s t)
      ⊎ ((found : Text) × HasSession s.creds found
          × (((is_empty found ≡ false) × CountsReused s t)
              ⊎ ((is_empty found ≡ true) × CountsMinted s t)))

module _ {fl : Floats} (json : Json) (net : Net) (iso : ℕ → Text → ℕ) (p : Provisioner fl) where
  request-SameTally :
      (client : GraphqlClient) (query : Query) (bearer : Text) (extra_headers : List Text)
      → Keeps SameTally (request_with_retry json net client query bearer extra_headers)
  request-SameTally client query bearer extra_headers s = (
    request-sign_ins json net client query bearer extra_headers s,
    request-run_started json net client query bearer extra_headers s,
  )

  login-SameTally :
      (mgmt : GraphqlClient) (email : Text) → Keeps SameTally (login json net p mgmt email)
  unfolding login token_under
  login-SameTally mgmt email s = grind (arith, request-SameTally)

  register-SameTally :
      (mgmt : GraphqlClient) (email : Text) → Keeps SameTally (register json net p mgmt email)
  unfolding register token_under
  register-SameTally mgmt email s = grind (arith, request-SameTally)

  sign_in-SameTally :
      (mgmt : GraphqlClient) (email : Text) → Keeps SameTally (sign_in json net p mgmt email)
  unfolding sign_in
  sign_in-SameTally mgmt email s = grind (arith, login-SameTally, register-SameTally)

  mint_request-SameTally :
      (mgmt : GraphqlClient) → Keeps SameTally (mint_request json net iso p mgmt)
  unfolding mint_request
  mint_request-SameTally mgmt s = grind (arith, request-SameTally)

  after_consents-SameTally :
      (mgmt : GraphqlClient) (e : Failure) → Keeps SameTally (after_consents json net iso p mgmt e)
  unfolding after_consents
  after_consents-SameTally mgmt e s = grind (arith, request-SameTally, mint_request-SameTally)

  mint_or_consent-SameTally :
      (mgmt : GraphqlClient) → Keeps SameTally (mint_or_consent json net iso p mgmt)
  unfolding mint_or_consent
  mint_or_consent-SameTally mgmt s = grind (arith, mint_request-SameTally, after_consents-SameTally)

  mint_answer-SameTally : (mgmt : GraphqlClient) → Keeps SameTally (mint_answer json net iso p mgmt)
  unfolding mint_answer
  mint_answer-SameTally mgmt s = grind (arith, mint_or_consent-SameTally)

  install_token-SameTally :
      (fresh : json.Value) → Keeps SameTally (install_token json net iso p fresh)
  unfolding install_token
  install_token-SameTally fresh s = ground arith

  choose_url-SameTally : (mint : json.Value) → Keeps SameTally (choose_url json net iso p mint)
  unfolding choose_url
  choose_url-SameTally mint s = ground arith

  check_minted-SameTally : Keeps SameTally (check_minted json net iso p)
  unfolding check_minted
  check_minted-SameTally s = ground arith

  mint-SameTally : (mgmt : GraphqlClient) → Keeps SameTally (mint_app_token json net iso p mgmt)
  unfolding mint_app_token
  mint-SameTally mgmt s = grind (
    arith, mint_answer-SameTally, install_token-SameTally, choose_url-SameTally,
    check_minted-SameTally,
  )

  install_server-SameTally :
      (server : json.Value) → Keeps SameTally (install_server json net iso p server)
  unfolding install_server
  install_server-SameTally server s = ground arith

  assign_server-SameTally : Keeps SameTally (assign_server json net iso p)
  unfolding assign_server game_client
  assign_server-SameTally s = grind (arith, request-SameTally, install_server-SameTally)

  bootstrap-SameTally : Keeps SameTally (bootstrap_game_client json net iso p)
  unfolding bootstrap_game_client game_client
  bootstrap-SameTally s = grind (arith, request-SameTally)

  place-SameTally : Keeps SameTally (place_client json net iso p)
  place-SameTally s = grind (arith, bootstrap-SameTally, assign_server-SameTally)

  obtain-counts :
      (mgmt : GraphqlClient) (found : Text) (s : Session net)
      → (obtain_session json net iso p mgmt found s).0 ≡ ok tt
      → ((is_empty found ≡ false) × CountsReused s (obtain_session json net iso p mgmt found s).1)
        ⊎ ((is_empty found ≡ true) × CountsMinted s (obtain_session json net iso p mgmt found s).1)
  unfolding obtain_session
  obtain-counts mgmt found s h = grind (arith, sign_in-SameTally)

  -- What `use_session` does with what the roster has.
  abbrev with_session : GraphqlClient → Text → Call json net (Unit {0})
  with_session mgmt found = do
    update json net iso p (λ c. record c { session_token = found })
    obtain_session json net iso p mgmt found
    mint_app_token json net iso p mgmt
    place_client json net iso p

  with_session-counts :
      (mgmt : GraphqlClient) (found : Text) (s : Session net)
      → (with_session mgmt found s).0 ≡ ok tt
      → ((is_empty found ≡ false) × CountsReused s (with_session mgmt found s).1)
        ⊎ ((is_empty found ≡ true) × CountsMinted s (with_session mgmt found s).1)
  with_session-counts mgmt found s h = grind (arith, obtain-counts, mint-SameTally, place-SameTally)

  from_session-CountsOne :
      (mgmt : GraphqlClient) (r : Result Text) (s : Session net)
      → find_app_token p s.creds ≡ ok none
      → roster_session p s.creds.index s.creds.email ≡ r
      → (and_then (with_session mgmt) (r, s)).0 ≡ ok tt
      → CountsOne p s (and_then (with_session mgmt) (r, s)).1
  from_session-CountsOne mgmt (ok found) s none_here e h =
      inr (found, (none_here, e), with_session-counts mgmt found s h)
  from_session-CountsOne mgmt (err f) s none_here e h = absurd (ground arith)

  use_session-CountsOne :
      (mgmt : GraphqlClient) (s : Session net)
      → find_app_token p s.creds ≡ ok none
      → (use_session json net iso p mgmt s).0 ≡ ok tt
      → CountsOne p s (use_session json net iso p mgmt s).1
  unfolding use_session
  use_session-CountsOne mgmt s none_here h =
      from_session-CountsOne mgmt (roster_session p s.creds.index s.creds.email) s none_here refl h

  use_app_token-CountsReused :
      (pre : RosterAppToken) (s : Session net)
      → (use_app_token json net iso p pre s).0 ≡ ok tt
      → CountsReused s (use_app_token json net iso p pre s).1
  unfolding use_app_token
  use_app_token-CountsReused pre s h = grind (arith, place-SameTally)

  from_roster-CountsOne :
      (mgmt : GraphqlClient) (r : Result (Option RosterAppToken)) (s : Session net)
      → find_app_token p s.creds ≡ r
      → (and_then (use_roster json net iso p mgmt) (r, s)).0 ≡ ok tt
      → CountsOne p s (and_then (use_roster json net iso p mgmt) (r, s)).1
  from_roster-CountsOne mgmt (ok none) s e h = use_session-CountsOne mgmt s e h
  from_roster-CountsOne mgmt (ok (some t)) s e h = inl ((t, e), use_app_token-CountsReused t s h)
  from_roster-CountsOne mgmt (err f) s e h = absurd (ground arith)

  -- A client that is provisioned without an exception is counted exactly once: as one with a reused
  -- session if the roster has an app token or else a session for it; otherwise as one with a session
  -- minted before, or after, the run started.
  pub provision_client-CountsOne :
      (mgmt : GraphqlClient) (s : Session net)
      → (provision_client json net iso p mgmt s).0 ≡ ok tt
      → CountsOne p s (provision_client json net iso p mgmt s).1
  unfolding provision_client
  provision_client-CountsOne mgmt s h =
      from_roster-CountsOne mgmt (find_app_token p s.creds) s refl h
