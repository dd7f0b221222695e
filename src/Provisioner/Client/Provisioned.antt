-- ===== src/Provisioner/Client/Provisioned.antt =====
-- What a client holds that has been provisioned.
use cks_loadtest.Base.{◌≡◌, refl, arith, length, Option, none, some, Bool-cases, inl, inr}
use cks_loadtest.Base.Text.{Text}
use cks_loadtest.Base.Int.{ℤ}
use cks_loadtest.Base.{ℕ}
use cks_loadtest.Platform.{Floats}
use cks_loadtest.Graphql.{Json, Net}
use cks_loadtest.Graphql.Action.{Result, ok, err, and_then, Keeps}
use cks_loadtest.Graphql.Request.{GraphqlClient}
use cks_loadtest.Provisioner.{Provisioner, Session, RosterAppToken, find}
use cks_loadtest.Control.{ClientCredentials}
use cks_loadtest.Provisioner.Roster.Loaded.{roster_app_token-found}
use cks_loadtest.Provisioner.Tokens.Keeps.{
  SameClient, SameToken, assign_server-Keeps, bootstrap-Keeps, mint-Keeps, sign_in-Keeps,
}
use cks_loadtest.Provisioner.Tokens.Minted.{HasToken, mint-HasToken}
use cks_loadtest.Provisioner.Client.{
  place_client, use_app_token, obtain_session, use_session, use_roster, find_app_token,
  provision_client,
}

-- The app tokens of a roster that has been loaded.
abbrev pub TokensAre64 : {fl : Floats} → Provisioner fl → Type 0
TokensAre64 p =
    (index : ℤ) (t : RosterAppToken) → find index p.roster_app_tokens ≡ some t → length t.token ≡ 64

module _ {fl : Floats} (json : Json) (net : Net) (iso : ℕ → Text → ℕ) (p : Provisioner fl) where
  place-Keeps : Keeps SameToken (place_client json net iso p)
  place-Keeps s = grind (arith, bootstrap-Keeps, assign_server-Keeps)

  obtain-Keeps :
      (mgmt : GraphqlClient) (found : Text)
      → Keeps SameClient (obtain_session json net iso p mgmt found)
  unfolding obtain_session
  obtain-Keeps mgmt found s = grind (arith, sign_in-Keeps)

  use_session-HasToken :
      (mgmt : GraphqlClient) (s : Session net)
      → (use_session json net iso p mgmt s).0 ≡ ok tt
      → HasToken (use_session json net iso p mgmt s).1
  unfolding use_session
  use_session-HasToken mgmt s h = grind (arith, mint-HasToken, place-Keeps)

  use_session-Keeps : (mgmt : GraphqlClient) → Keeps SameClient (use_session json net iso p mgmt)
  unfolding use_session
  use_session-Keeps mgmt s = grind (arith, obtain-Keeps, mint-Keeps, place-Keeps)

  use_app_token-HasToken :
      (pre : RosterAppToken) (s : Session net)
      → length pre.token ≡ 64
      → (use_app_token json net iso p pre s).0 ≡ ok tt
      → HasToken (use_app_token json net iso p pre s).1
  unfolding use_app_token
  use_app_token-HasToken pre s h e = grind (arith, place-Keeps)

  use_app_token-Keeps : (pre : RosterAppToken) → Keeps SameClient (use_app_token json net iso p pre)
  unfolding use_app_token
  use_app_token-Keeps pre s = grind (arith, place-Keeps)

  found_token-64 :
      (c : ClientCredentials) (t : RosterAppToken)
      → TokensAre64 p
      → find_app_token p c ≡ ok (some t)
      → length t.token ≡ 64
  unfolding find_app_token
  found_token-64 c t all h = elim (Bool-cases p.roster_kind_app_token) [
    | inl kind ↦
        all c.index t (roster_app_token-found p c.index c.email t (ground (arith, h, kind)))
    | inr kind ↦ absurd (ground (arith, h, kind))
  ]

  from_roster-HasToken :
      (mgmt : GraphqlClient) (r : Result (Option RosterAppToken)) (s : Session net)
      → ((t : RosterAppToken) → r ≡ ok (some t) → length t.token ≡ 64)
      → (and_then (use_roster json net iso p mgmt) (r, s)).0 ≡ ok tt
      → HasToken (and_then (use_roster json net iso p mgmt) (r, s)).1
  from_roster-HasToken mgmt (ok none) s all h = use_session-HasToken mgmt s h
  from_roster-HasToken mgmt (ok (some t)) s all h = use_app_token-HasToken t s (all t refl) h
  from_roster-HasToken mgmt (err e) s all h = cc

  from_roster-Keeps :
      (mgmt : GraphqlClient) (r : Result (Option RosterAppToken)) (s : Session net)
      → SameClient s (and_then (use_roster json net iso p mgmt) (r, s)).1
  from_roster-Keeps mgmt (ok none) s = use_session-Keeps mgmt s
  from_roster-Keeps mgmt (ok (some t)) s = use_app_token-Keeps t s
  from_roster-Keeps mgmt (err e) s = (refl, refl)

  -- A client that is provisioned without an exception has an app token of 64 octets and a URL of the
  -- game API, whether its token came from the roster, a session of the roster or a sign-in, if the
  -- app tokens of the roster have 64 octets.
  pub provision_client-HasToken :
      (mgmt : GraphqlClient) (s : Session net)
      → TokensAre64 p
      → (provision_client json net iso p mgmt s).0 ≡ ok tt
      → HasToken (provision_client json net iso p mgmt s).1
  unfolding provision_client
  provision_client-HasToken mgmt s all h =
      from_roster-HasToken mgmt (find_app_token p s.creds) s (λ t e. found_token-64 s.creds t all e)
        h

  -- Whatever happens while a client is provisioned, it keeps its index and its email.
  pub provision_client-Keeps :
      (mgmt : GraphqlClient) → Keeps SameClient (provision_client json net iso p mgmt)
  unfolding provision_client
  provision_client-Keeps mgmt s = from_roster-Keeps mgmt (find_app_token p s.creds) s
