-- ===== src/Provisioner/Client.antt =====
-- The body of the loop of `provisionRange` in src/Provisioner.cpp: one client is provisioned.
pub mod Provisioned
pub mod Tally
use cks_loadtest.Base.{ℕ, Bool, not, Option, none, some, if◌then◌else◌}
use cks_loadtest.Base.Int.{ℤ, pos}
use cks_loadtest.Base.Text.{Text, codes, is_empty}
use cks_loadtest.Platform.{Floats}
use cks_loadtest.Control.{ClientCredentials}
use cks_loadtest.Graphql.{Json, Net}
use cks_loadtest.Graphql.Action.{
  Result, ok, err, refused, no_roster_game_api_url, pure, raise_if, gets, modify, ◌>>=◌, ◌>>◌,
}
use cks_loadtest.Graphql.Request.{GraphqlClient}
use cks_loadtest.Provisioner.{Provisioner, Session, SignInTally, count_up, RosterAppToken}
use cks_loadtest.Provisioner.Retry.{Call}
use cks_loadtest.Provisioner.Roster.{roster_app_token, roster_session}
use cks_loadtest.Provisioner.SignIn.{sign_in}
use cks_loadtest.Provisioner.Tokens.{update, mint_app_token, bootstrap_game_client, assign_server}

-- A new `ClientCredentials`.
abbrev pub new_credentials : ℤ → Text → ClientCredentials
new_credentials index email = record {
  index = index;
  email = email;
  session_token = codes "";
  app_token = codes "";
  game_token_id = pos 0;
  game_api_url = codes "";
  token_expires_at = 0;
  server_ip4 = codes "";
  server_port = 0;
  udp_ready_at = 0;
}

-- The app token of the roster for a client, if it has one.
unfoldable pub find_app_token :
    {fl : Floats} → Provisioner fl → ClientCredentials → Result (Option RosterAppToken)
find_app_token p c = if p.roster_kind_app_token then roster_app_token p c.index c.email else ok none

module _ {fl : Floats} (json : Json) (net : Net) (iso : ℕ → Text → ℕ) (p : Provisioner fl) where
  abbrev pub lift : {A : Type 0} → Result A → Call json net A
  lift r s = (r, s)

  abbrev pub tally : (SignInTally → SignInTally) → Call json net (Unit {0})
  tally f = modify (λ s. record s { sign_ins = f s.sign_ins })

  abbrev pub count_reused : Call json net (Unit {0})
  count_reused = tally (λ t. record t { reused = count_up t.reused })

  abbrev pub place_client : Call json net (Unit {0})
  place_client = do bootstrap_game_client json net iso p; assign_server json net iso p

  -- A token of the roster: no session, no sign-in, no mint.
  unfoldable pub use_app_token : RosterAppToken → Call json net (Unit {0})
  use_app_token pre = do
    update json net iso p (λ c. record c {
      app_token = pre.token;
      game_token_id = pre.game_token_id;
      token_expires_at = pre.expires_at;
      game_api_url =
          if not (is_empty p.config.game_api_url)
          then p.config.game_api_url
          else p.roster_game_api_url;
    })
    url ← gets (λ s. s.creds.game_api_url)
    raise_if (is_empty url) (refused no_roster_game_api_url (codes ""))
    count_reused
    place_client

  -- The counter shows whether a sign-in falls into the measured part of the run.
  abbrev pub count_minted : Call json net (Unit {0})
  count_minted = modify (λ s. record s {
    sign_ins =
        let t = s.sign_ins in
        if s.run_started
        then record t { minted_mid_run = count_up t.minted_mid_run }
        else record t { minted_provisioning = count_up t.minted_provisioning };
  })

  unfoldable pub obtain_session : GraphqlClient → Text → Call json net (Unit {0})
  obtain_session mgmt found = if not (is_empty found) then count_reused else (do
    email ← gets (λ s. s.creds.email)
    session ← sign_in json net p mgmt email
    update json net iso p (λ c. record c { session_token = session })
    count_minted)

  unfoldable pub use_session : GraphqlClient → Call json net (Unit {0})
  use_session mgmt = do
    c ← gets (λ s. s.creds)
    found ← lift (roster_session p c.index c.email)
    update json net iso p (λ c. record c { session_token = found })
    obtain_session mgmt found
    mint_app_token json net iso p mgmt
    place_client

  abbrev pub use_roster : GraphqlClient → Option RosterAppToken → Call json net (Unit {0})
  use_roster mgmt none = use_session mgmt
  use_roster mgmt (some pre) = use_app_token pre

  unfoldable pub provision_client : GraphqlClient → Call json net (Unit {0})
  provision_client mgmt = do
    c ← gets (λ s. s.creds)
    pre ← lift (find_app_token p c)
    use_roster mgmt pre
