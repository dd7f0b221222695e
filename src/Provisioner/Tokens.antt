-- ===== src/Provisioner/Tokens.antt =====
-- `mintAppToken`, `bootstrapGameClient`, `assignServer` and `refreshToken` of src/Provisioner.cpp.
pub mod Keeps
pub mod Minted
pub mod Refreshed
use cks_loadtest.Base.{
  ℕ, ◌+◌, ◌*◌, ◌%◌, ◌-◌, Bool, true, false, not, ◌&&◌, ◌||◌, Option, none, some, List, [], ◌∷◌,
  ◌++◌, if◌then◌else◌, length, ◌==◌,
}
use cks_loadtest.Base.Int.{ℤ, pos, negsuc, pos_part, ◌+ℤ◌, ◌*ℤ◌}
use cks_loadtest.Base.Text.{Text, codes, text_eq, is_empty, contains_text}
use cks_loadtest.Platform.{Floats}
use cks_loadtest.Control.{ClientCredentials}
use cks_loadtest.Graphql.{
  Json, Net, mint_mutation, consents_mutation, refresh_mutation, legacy_refresh_mutation,
  assign_query, bootstrap_query,
}
use cks_loadtest.Graphql.Action.{
  Result, ok, err, Failure, graphql_error, refused, other_exception, is_transport, code_of,
  not_entitled, no_game_api_url, token_length, pure, raise, or_throw, raise_if, gets, modify, catch,
  ◌>>=◌, ◌>>◌,
}
use cks_loadtest.Graphql.Request.{GraphqlClient, client_for}
use cks_loadtest.Provisioner.{Provisioner, Session}
use cks_loadtest.Provisioner.Retry.{Call, request_with_retry}
use cks_loadtest.Provisioner.SignIn.{child, text_at}

-- `parseIso8601Utc` is a parameter, `iso`, given the time of the call.
module _ {fl : Floats} (json : Json) (net : Net) (iso : ℕ → Text → ℕ) (p : Provisioner fl) where
  abbrev pub update : (ClientCredentials → ClientCredentials) → Call json net (Unit {0})
  update f = modify (λ s. record s { creds = f s.creds })

  abbrev pub app_id_text : Text
  app_id_text = net.number_text p.config.app_id

  unfoldable pub mint_request : GraphqlClient → Call json net json.Value
  mint_request mgmt = do
    session ← gets (λ s. s.creds.session_token)
    request_with_retry json net mgmt (mint_mutation app_id_text) session []

  -- The inner `catch`: the consents are stored, and the token is asked for again.
  unfoldable pub after_consents : GraphqlClient → Failure → Call json net json.Value
  after_consents mgmt e =
      if is_transport e || not (text_eq (code_of e) (codes "LEGAL_ACCEPTANCE_REQUIRED"))
      then raise e
      else (do
        session ← gets (λ s. s.creds.session_token)
        consents ← request_with_retry json net mgmt consents_mutation session []
        mint_request mgmt)

  abbrev pub refuse_forbidden : Failure → Call json net json.Value
  refuse_forbidden e =
      if not (is_transport e) && text_eq (code_of e) (codes "FORBIDDEN")
      then raise (refused not_entitled (code_of e))
      else raise e

  unfoldable pub mint_or_consent : GraphqlClient → Call json net json.Value
  mint_or_consent mgmt = catch (mint_request mgmt) (after_consents mgmt)

  unfoldable pub mint_answer : GraphqlClient → Call json net json.Value
  mint_answer mgmt = catch (mint_or_consent mgmt) refuse_forbidden

  -- The token, its id and its expiry, from the answer of a mint or a refresh.
  unfoldable pub install_token : json.Value → Call json net (Unit {0})
  install_token fresh = do
    token ← text_at json net fresh (codes "token")
    update (λ c. record c { app_token = token })
    digits ← text_at json net fresh (codes "gameTokenId")
    id ← or_throw (net.stoll digits)
    update (λ c. record c { game_token_id = id })
    stamp ← text_at json net fresh (codes "expiresAt")
    modify (λ s. record s {
      creds = record (s.creds) { token_expires_at = iso (net.system_now s.world) stamp };
    })

  abbrev pub set_if_text : json.Value → Call json net (Unit {0})
  set_if_text x =
      if json.is_text x
      then (do url ← or_throw (json.get_text x); update (λ c. record c { game_api_url = url }))
      else pure tt

  unfoldable pub choose_url : json.Value → Call json net (Unit {0})
  choose_url mint =
      if not (is_empty p.config.game_api_url)
      then update (λ c. record c { game_api_url = p.config.game_api_url })
      else if json.contains mint (codes "gameApiUrl")
      then (do url ← child json net mint (codes "gameApiUrl"); set_if_text url)
      else pure tt

  unfoldable pub check_minted : Call json net (Unit {0})
  check_minted = do
    url ← gets (λ s. s.creds.game_api_url)
    raise_if (is_empty url) (refused no_game_api_url (codes ""))
    token ← gets (λ s. s.creds.app_token)
    raise_if (not (length token == 64)) (refused token_length (codes ""))

  unfoldable pub mint_app_token : GraphqlClient → Call json net (Unit {0})
  mint_app_token mgmt = do
    data' ← mint_answer mgmt
    mint ← child json net data' (codes "mintAppToken")
    install_token mint
    choose_url mint
    check_minted

  -- The client of the game API that the credentials name.
  unfoldable pub game_client : Call json net GraphqlClient
  game_client = gets (λ s. client_for s.creds.game_api_url p.config.tls_insecure)

  unfoldable pub bootstrap_game_client : Call json net (Unit {0})
  bootstrap_game_client = do
    game ← game_client
    token ← gets (λ s. s.creds.app_token)
    answer ← request_with_retry json net game (bootstrap_query app_id_text) token []
    pure tt

  -- `static_cast<uint16_t>`
  abbrev pub port_of : ℤ → ℕ
  port_of (pos n) = n % 65_536
  port_of (negsuc n) = 65_535 - n % 65_536

  -- The time from which datagrams may be sent. One before the epoch of the clock, which takes a
  -- negative settle time, counts as the epoch.
  abbrev pub ready_at : ℕ → ℕ
  ready_at now = pos_part (pos now +ℤ pos 1_000_000 *ℤ p.config.session_settle_ms)

  unfoldable pub install_server : json.Value → Call json net (Unit {0})
  install_server server = do
    ip4 ← text_at json net server (codes "ip4")
    update (λ c. record c { server_ip4 = ip4 })
    x ← child json net server (codes "clientPort")
    port ← or_throw (json.get_int x)
    update (λ c. record c { server_port = port_of port })
    modify (λ s. record s {
      creds = record (s.creds) { udp_ready_at = ready_at (net.steady_now s.world) };
    })

  unfoldable pub assign_server : Call json net (Unit {0})
  assign_server = do
    game ← game_client
    token ← gets (λ s. s.creds.app_token)
    data' ← request_with_retry json net game assign_query token []
    server ← child json net data' (codes "serverWithLeastClients")
    install_server server

  abbrev pub what_of : Failure → Text
  what_of (graphql_error what code transport) = what
  what_of (refused r code) = codes ""
  what_of other_exception = codes ""

  -- A refusal that names `currentServer` is remembered; `none` is the null answer.
  abbrev pub remember_legacy : Failure → Call json net (Option json.Value)
  remember_legacy e =
      if is_transport e || not (contains_text (codes "currentServer") (what_of e))
      then raise e
      else (do modify (λ s. record s { legacy_refresh = true }); pure none)

  abbrev pub refresh_at_server : GraphqlClient → Call json net (Option json.Value)
  refresh_at_server mgmt = do
    c ← gets (λ s. s.creds)
    data' ←
        request_with_retry json net mgmt (refresh_mutation c.server_ip4 c.server_port) c.app_token
          []
    pure (some data')

  unfoldable pub try_refresh : GraphqlClient → Call json net (Option json.Value)
  try_refresh mgmt s =
      if not s.legacy_refresh && not (is_empty s.creds.server_ip4)
      then catch (refresh_at_server mgmt) remember_legacy s
      else (ok none, s)

  -- A request returns no null (`IsData` of Graphql.Answers), so that only `none` asks again.
  unfoldable pub or_legacy_refresh : GraphqlClient → Option json.Value → Call json net json.Value
  or_legacy_refresh mgmt (some data') = pure data'
  or_legacy_refresh mgmt none = do
    token ← gets (λ s. s.creds.app_token)
    request_with_retry json net mgmt legacy_refresh_mutation token []

  -- The server that the answer says the token is authorized on, if it names one.
  unfoldable pub keep_server : Option json.Value → Call json net Bool
  keep_server none = raise other_exception
  keep_server (some server) =
      if json.is_null server then pure false else (do installed ← install_server server; pure true)

  unfoldable pub take_server : json.Value → Call json net Bool
  take_server fresh s =
      if json.contains fresh (codes "authorizedServer")
      then keep_server (json.at fresh (codes "authorizedServer")) s
      else (ok false, s)

  unfoldable pub refresh_token : GraphqlClient → Call json net Bool
  refresh_token mgmt = do
    tried ← try_refresh mgmt
    data' ← or_legacy_refresh mgmt tried
    fresh ← child json net data' (codes "refreshAppToken")
    install_token fresh
    take_server fresh
