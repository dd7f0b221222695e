-- ===== src/Provisioner/Tokens/Refreshed.antt =====
-- What `refreshToken` changes.
use cks_loadtest.Base.{Bool, ℕ, ◌≡◌, refl, arith, ◌⊎◌, true, false, Option, none, some}
use cks_loadtest.Base.Text.{Text}
use cks_loadtest.Platform.{Floats}
use cks_loadtest.Graphql.{Json, Net}
use cks_loadtest.Graphql.Action.{Result, ok, err, Keeps}
use cks_loadtest.Graphql.Request.{GraphqlClient}
use cks_loadtest.Provisioner.{Provisioner, Session}
use cks_loadtest.Provisioner.Retry.Keeps.{request-creds, request-legacy_refresh}
use cks_loadtest.Provisioner.Tokens.{
  install_token, install_server, try_refresh, or_legacy_refresh, keep_server, take_server,
  refresh_token,
}

module _ {net : Net} where
  -- The client is the same, with the same session, at the same game API, and an API once known to
  -- be old is not asked for more than it can do.
  abbrev pub IsRefreshed : Session net → Session net → Type 0
  IsRefreshed s t =
      (t.creds.index ≡ s.creds.index)
      × (t.creds.email ≡ s.creds.email)
      × (t.creds.session_token ≡ s.creds.session_token)
      × (t.creds.game_api_url ≡ s.creds.game_api_url)
      × ((s.legacy_refresh ≡ false) ⊎ (t.legacy_refresh ≡ true))

  abbrev pub SameServer : Session net → Session net → Type 0
  SameServer s t =
      (t.creds.server_ip4 ≡ s.creds.server_ip4)
      × (t.creds.server_port ≡ s.creds.server_port)
      × (t.creds.udp_ready_at ≡ s.creds.udp_ready_at)

  -- What the result says of the server: `false`, that the client is where it was.
  abbrev pub AnswerFits : Session net → Session net → Result Bool → Type 0
  AnswerFits s t (ok false) = SameServer s t
  AnswerFits s t (ok true) = Unit
  AnswerFits s t (err e) = Unit

module _ {fl : Floats} (json : Json) (net : Net) (iso : ℕ → Text → ℕ) (p : Provisioner fl) where
  try_refresh-creds :
      (mgmt : GraphqlClient) (s : Session net)
      → ((try_refresh json net iso p mgmt s).1.creds ≡ s.creds)
        × ((s.legacy_refresh ≡ false)
            ⊎ ((try_refresh json net iso p mgmt s).1.legacy_refresh ≡ true))
  unfolding try_refresh
  try_refresh-creds mgmt s = grind (arith, request-creds json net, request-legacy_refresh json net)

  legacy-creds :
      (mgmt : GraphqlClient) (o : Option json.Value) (s : Session net)
      → ((or_legacy_refresh json net iso p mgmt o s).1.creds ≡ s.creds)
        × ((or_legacy_refresh json net iso p mgmt o s).1.legacy_refresh ≡ s.legacy_refresh)
  unfolding or_legacy_refresh
  legacy-creds mgmt none s = grind (arith, request-creds json net, request-legacy_refresh json net)
  legacy-creds mgmt (some v) s = (refl, refl)

  install_token-Refreshed :
      (fresh : json.Value) (s : Session net)
      → IsRefreshed s (install_token json net iso p fresh s).1
        × SameServer s (install_token json net iso p fresh s).1
  unfolding install_token
  install_token-Refreshed fresh s = ground arith

  install_server-Refreshed :
      (server : json.Value) → Keeps IsRefreshed (install_server json net iso p server)
  unfolding install_server
  install_server-Refreshed server s = ground arith

  keep_server-Refreshed : (o : Option json.Value) → Keeps IsRefreshed (keep_server json net iso p o)
  unfolding keep_server
  keep_server-Refreshed none s = ground arith
  keep_server-Refreshed (some server) s = grind (arith, install_server-Refreshed)

  keep_server-false :
      (o : Option json.Value) (s : Session net)
      → (keep_server json net iso p o s).0 ≡ ok false
      → SameServer s (keep_server json net iso p o s).1
  unfolding keep_server
  keep_server-false none s h = cc
  keep_server-false (some server) s h = grind arith

  take_server-Refreshed :
      (fresh : json.Value) → Keeps IsRefreshed (take_server json net iso p fresh)
  unfolding take_server
  take_server-Refreshed fresh s = grind (arith, keep_server-Refreshed)

  take_server-false :
      (fresh : json.Value) (s : Session net)
      → (take_server json net iso p fresh s).0 ≡ ok false
      → SameServer s (take_server json net iso p fresh s).1
  unfolding take_server
  take_server-false fresh s h = grind (arith, keep_server-false)

  refresh-Refreshed : (mgmt : GraphqlClient) → Keeps IsRefreshed (refresh_token json net iso p mgmt)
  unfolding refresh_token
  refresh-Refreshed mgmt s =
      grind (arith, try_refresh-creds, legacy-creds, install_token-Refreshed, take_server-Refreshed)

  refresh-SameServer :
      (mgmt : GraphqlClient) (s : Session net)
      → (refresh_token json net iso p mgmt s).0 ≡ ok false
      → SameServer s (refresh_token json net iso p mgmt s).1
  unfolding refresh_token
  refresh-SameServer mgmt s h =
      grind (arith, try_refresh-creds, legacy-creds, install_token-Refreshed, take_server-false)

  -- A refresh, also one that throws, leaves the client its index, email, session and game API, and
  -- an API that is known to be old stays known as such. If it returns that the server was not
  -- kept, the address and the time of the first datagram are the ones from before.
  pub refresh_token-Refreshed :
      (mgmt : GraphqlClient) (s : Session net)
      → let (r, t) = refresh_token json net iso p mgmt s in IsRefreshed s t × AnswerFits s t r
  refresh_token-Refreshed mgmt s = (
    refresh-Refreshed mgmt s,
    fits (refresh_token json net iso p mgmt s) (refresh-SameServer mgmt s),
  )
    where
      fits :
          (r : Result Bool × Session net)
          → (r.0 ≡ ok false → SameServer s r.1)
          → AnswerFits s r.1 r.0
      fits (ok false, t) h = h refl
      fits (ok true, t) h = tt
      fits (err e, t) h = tt
