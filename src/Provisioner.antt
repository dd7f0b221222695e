-- ===== src/Provisioner.antt =====
-- src/Provisioner.cpp: accounts, app tokens and servers for the simulated clients, through the
-- GraphQL client.
pub mod Time
pub mod Retry
pub mod Roster
pub mod Tokens
pub mod SignIn
pub mod Client
pub mod Pool
use cks_loadtest.Base.{ℕ, Bool, Option, none, some, List, [], ◌∷◌, if◌then◌else◌, ◌==◌, zero, suc}
use cks_loadtest.Base.Int.{ℤ, pos, negsuc, ◌==ℤ◌}
use cks_loadtest.Base.Text.{Text}
use cks_loadtest.Platform.{Floats}
use cks_loadtest.Config.{Config}
use cks_loadtest.Control.{ClientCredentials}
use cks_loadtest.Graphql.{Net}

pub record SignInTally : Type 0 where
  pub reused : ℤ
  pub minted_provisioning : ℤ
  pub minted_mid_run : ℤ

-- `fetch_add(1)` on a 32-bit `int`, which wraps around.
abbrev pub count_up : ℤ → ℤ
count_up (pos n) = if n == 2_147_483_647 then negsuc 2_147_483_647 else pos (suc n)
count_up (negsuc zero) = pos 0
count_up (negsuc (suc n)) = negsuc n

-- `std::unordered_map<int, A>`, with one entry for a key.
abbrev pub IntMap : Type 0 → Type 0
IntMap A = List (ℤ × A)

module _ {A : Type 0} where
  unfoldable pub find : ℤ → IntMap A → Option A
  find k [] = none
  find k ((i, a) ∷ m) = let later = find k m in if i ==ℤ k then some a else later

  unfoldable pub insert : ℤ → A → IntMap A → IntMap A
  insert k a [] = (k, a) ∷ []
  insert k a ((i, b) ∷ m) = let rest = insert k a m in if i ==ℤ k then (k, a) ∷ m else (i, b) ∷ rest

pub record RosterAppToken : Type 0 where
  pub token : Text
  pub game_token_id : ℤ
  pub expires_at : ℕ

-- What the constructor sets and nothing changes.
pub record Provisioner (fl : Floats) : Type 0 where
  pub config : Config fl
  pub roster : IntMap Text
  pub roster_emails : IntMap Text
  pub roster_kind_app_token : Bool
  pub roster_app_tokens : IntMap RosterAppToken
  pub roster_game_api_url : Text

-- What a method changes: the rest of the world, the members that are atomic, and the credentials
-- that it is given by reference.
pub record Session (net : Net) : Type 0 where
  pub world : net.World
  pub legacy_refresh : Bool
  pub run_started : Bool
  pub sign_ins : SignInTally
  pub creds : ClientCredentials
