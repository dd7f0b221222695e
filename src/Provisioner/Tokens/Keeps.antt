-- ===== src/Provisioner/Tokens/Keeps.antt =====
-- Which of the credentials the calls leave alone.
use cks_loadtest.Base.{ℕ, ◌≡◌, refl, arith, List}
use cks_loadtest.Base.Text.{Text}
use cks_loadtest.Platform.{Floats}
use cks_loadtest.Graphql.{Json, Net, Query}
use cks_loadtest.Graphql.Action.{Keeps, Failure}
use cks_loadtest.Graphql.Request.{GraphqlClient}
use cks_loadtest.Provisioner.{Provisioner, Session}
use cks_loadtest.Provisioner.Retry.{request_with_retry}
use cks_loadtest.Provisioner.Retry.Keeps.{request-creds}
use cks_loadtest.Provisioner.SignIn.{child, login, register, sign_in, token_under}
use cks_loadtest.Provisioner.Tokens.{
  mint_request, mint_or_consent, mint_answer, after_consents, install_token, choose_url,
  check_minted, mint_app_token, install_server, assign_server, bootstrap_game_client, game_client,
}

module _ {net : Net} where
  abbrev pub SameClient : Session net → Session net → Type 0
  SameClient s t = (t.creds.index ≡ s.creds.index) × (t.creds.email ≡ s.creds.email)

  -- The session token may change in no call but the sign-in, and the app token and the URL of the
  -- game API in no call but the mint.
  abbrev pub SameToken : Session net → Session net → Type 0
  SameToken s t =
      (t.creds.index ≡ s.creds.index)
      × (t.creds.email ≡ s.creds.email)
      × (t.creds.app_token ≡ s.creds.app_token)
      × (t.creds.game_api_url ≡ s.creds.game_api_url)

  SameClient-trans : (s t u : Session net) → SameClient s t → SameClient t u → SameClient s u
  SameClient-trans s t u h k = ground (arith, h, k)

  SameToken-trans : (s t u : Session net) → SameToken s t → SameToken t u → SameToken s u
  SameToken-trans s t u h k = ground (arith, h, k)

module _ {fl : Floats} (json : Json) (net : Net) (iso : ℕ → Text → ℕ) (p : Provisioner fl) where
  install_token-Keeps : (fresh : json.Value) → Keeps SameClient (install_token json net iso p fresh)
  unfolding install_token
  install_token-Keeps fresh s = ground arith

  choose_url-Keeps : (mint : json.Value) → Keeps SameClient (choose_url json net iso p mint)
  unfolding choose_url
  choose_url-Keeps mint s = ground arith

  mint_request-Keeps : (mgmt : GraphqlClient) → Keeps SameClient (mint_request json net iso p mgmt)
  unfolding mint_request
  mint_request-Keeps mgmt s = rw (request-creds json net) (refl, refl)

  install_server-Keeps :
      (server : json.Value) → Keeps SameToken (install_server json net iso p server)
  unfolding install_server
  install_server-Keeps server s = ground arith

  child-Keeps : (v : json.Value) (key : Text) → Keeps SameToken (child json net v key)
  child-Keeps v key s = ground arith

  child-SameClient : (v : json.Value) (key : Text) → Keeps SameClient (child json net v key)
  child-SameClient v key s = ground arith

  request-Keeps :
      (client : GraphqlClient) (query : Query) (bearer : Text) (extra_headers : List Text)
      → Keeps SameToken (request_with_retry json net client query bearer extra_headers)
  request-Keeps client query bearer extra_headers s =
      rw (request-creds json net client query bearer extra_headers s) (refl, refl, refl, refl)

  request-SameClient :
      (client : GraphqlClient) (query : Query) (bearer : Text) (extra_headers : List Text)
      → Keeps SameClient (request_with_retry json net client query bearer extra_headers)
  request-SameClient client query bearer extra_headers s =
      rw (request-creds json net client query bearer extra_headers s) (refl, refl)

  login-creds :
      (mgmt : GraphqlClient) (email : Text) (s : Session net)
      → (login json net p mgmt email s).1.creds ≡ s.creds
  unfolding login token_under
  login-creds mgmt email s = grind (arith, request-creds json net)

  register-creds :
      (mgmt : GraphqlClient) (email : Text) (s : Session net)
      → (register json net p mgmt email s).1.creds ≡ s.creds
  unfolding register token_under
  register-creds mgmt email s = grind (arith, request-creds json net)

  pub assign_server-Keeps : Keeps SameToken (assign_server json net iso p)
  unfolding assign_server game_client
  assign_server-Keeps s = grind (arith, request-creds json net, install_server-Keeps)

  pub bootstrap-Keeps : Keeps SameToken (bootstrap_game_client json net iso p)
  unfolding bootstrap_game_client game_client
  bootstrap-Keeps s = grind (arith, request-creds json net)

  check_minted-Keeps : Keeps SameClient (check_minted json net iso p)
  unfolding check_minted
  check_minted-Keeps s = ground arith

  after_consents-Keeps :
      (mgmt : GraphqlClient) (e : Failure) → Keeps SameClient (after_consents json net iso p mgmt e)
  unfolding after_consents
  after_consents-Keeps mgmt e s = grind (arith, request-creds json net, mint_request-Keeps)

  mint_or_consent-Keeps :
      (mgmt : GraphqlClient) → Keeps SameClient (mint_or_consent json net iso p mgmt)
  unfolding mint_or_consent
  mint_or_consent-Keeps mgmt s = grind (arith, mint_request-Keeps, after_consents-Keeps)

  mint_answer-Keeps : (mgmt : GraphqlClient) → Keeps SameClient (mint_answer json net iso p mgmt)
  unfolding mint_answer
  mint_answer-Keeps mgmt s = grind (arith, mint_or_consent-Keeps)

  pub mint-Keeps : (mgmt : GraphqlClient) → Keeps SameClient (mint_app_token json net iso p mgmt)
  unfolding mint_app_token
  mint-Keeps mgmt s =
      grind (arith, mint_answer-Keeps, install_token-Keeps, choose_url-Keeps, check_minted-Keeps)

  pub sign_in-Keeps :
      (mgmt : GraphqlClient) (email : Text) (s : Session net)
      → (sign_in json net p mgmt email s).1.creds ≡ s.creds
  unfolding sign_in
  sign_in-Keeps mgmt email s = grind (arith, login-creds, register-creds)
