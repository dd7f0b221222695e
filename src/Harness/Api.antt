-- ===== src/Harness/Api.antt =====
-- What the control thread asks of the provisioner (src/Provisioner.cpp).
use cks_loadtest.Base.{ℕ, Bool}
use cks_loadtest.Base.Text.{Text}
use cks_loadtest.Control.{ClientCredentials}

-- A call that takes the credentials by reference: it returns, or throws, and may have changed them.
pub data Call (A : Type 0) : Type 0 where
  returned : A → ClientCredentials → Call A
  threw : ClientCredentials → Call A

pub data Done : Type 0 where
  done : Done

-- `refresh_token` is given the URL of the API that it asks, and says whether the server was kept.
-- `assign_server` and `is_shutdown` are asked in attempt `n`.
pub record Api : Type 0 where
  pub management_api_url : Text
  pub refresh_token : Text → ClientCredentials → Call Bool
  pub assign_server : ℕ → ClientCredentials → Call Done
  pub is_shutdown : ℕ → Bool
