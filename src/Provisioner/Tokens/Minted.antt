-- ===== src/Provisioner/Tokens/Minted.antt =====
-- What a client holds after `mintAppToken`.
use cks_loadtest.Base.{◌≡◌, arith, false, length}
use cks_loadtest.Base.Text.{Text, is_empty}
use cks_loadtest.Base.{ℕ}
use cks_loadtest.Platform.{Floats}
use cks_loadtest.Graphql.{Json, Net}
use cks_loadtest.Graphql.Action.{ok}
use cks_loadtest.Graphql.Request.{GraphqlClient}
use cks_loadtest.Provisioner.{Provisioner, Session}
use cks_loadtest.Provisioner.Tokens.{check_minted, mint_app_token}
use cks_loadtest.Provisioner.Tokens.Keeps.{SameClient, mint-Keeps}

-- A token of 64 octets, and a URL to use it at.
pub record HasToken {net : Net} (s : Session net) : Type 0 where
  pub token_64 : length s.creds.app_token ≡ 64
  pub has_url : is_empty s.creds.game_api_url ≡ false

module _ {fl : Floats} (json : Json) (net : Net) (iso : ℕ → Text → ℕ) (p : Provisioner fl) where
  check_minted-HasToken :
      (s : Session net)
      → (check_minted json net iso p s).0 ≡ ok tt
      → HasToken (check_minted json net iso p s).1
  unfolding check_minted
  check_minted-HasToken s h = ground arith

  minted :
      (mgmt : GraphqlClient) (s : Session net)
      → (mint_app_token json net iso p mgmt s).0 ≡ ok tt
      → HasToken (mint_app_token json net iso p mgmt s).1
  unfolding mint_app_token
  minted mgmt s h = grind (arith, check_minted-HasToken)

  -- A mint that returns leaves an app token of 64 octets and a URL of the game API, and the client its
  -- index and its email.
  pub mint-HasToken :
      (mgmt : GraphqlClient) (s : Session net)
      → (mint_app_token json net iso p mgmt s).0 ≡ ok tt
      → HasToken (mint_app_token json net iso p mgmt s).1
        × SameClient s (mint_app_token json net iso p mgmt s).1
  mint-HasToken mgmt s h = (minted mgmt s h, mint-Keeps json net iso p mgmt s)
