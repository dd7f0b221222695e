-- ===== src/Provisioner/SignIn.antt =====
-- `signIn`, `setReplayLogging` and `readReplayLogging` of src/Provisioner.cpp.
use cks_loadtest.Base.{Bool, not, Option, none, some, List, [], ◌∷◌, ◌++◌, if◌then◌else◌}
use cks_loadtest.Base.Text.{Text, codes, is_empty}
use cks_loadtest.Platform.{Floats}
use cks_loadtest.Graphql.{
  Json, Net, login_mutation, register_mutation, set_replay_logging_mutation,
  read_replay_logging_query,
}
use cks_loadtest.Graphql.Action.{
  Result, ok, err, Failure, refused, is_transport, code_of, password_rejected,
  base_account_rejected, logging_not_set, logging_refused, pure, raise, or_throw, raise_if, catch,
  ◌>>=◌,
}
use cks_loadtest.Graphql.Request.{GraphqlClient, client_for}
use cks_loadtest.Provisioner.{Provisioner, Session}
use cks_loadtest.Provisioner.Retry.{Call, request_with_retry}

-- `data[key]["token"].get<std::string>()`, and the like.
module _ (json : Json) (net : Net) where
  abbrev pub child : json.Value → Text → Call json net json.Value
  child v key = or_throw (json.at v key)

  abbrev pub text_at : json.Value → Text → Call json net Text
  text_at v key = do x ← child v key; or_throw (json.get_text x)

module _ {fl : Floats} (json : Json) (net : Net) (p : Provisioner fl) where
  unfoldable pub token_under : Text → json.Value → Call json net Text
  token_under key data' = do x ← child json net data' key; text_at json net x (codes "token")

  abbrev pub register_headers : List Text
  register_headers =
      if is_empty p.config.provisioning_token
      then []
      else (codes "X-CK-Provisioning-Token: " ++ p.config.provisioning_token) ∷ []

  unfoldable pub login : GraphqlClient → Text → Call json net Text
  unfolding token_under
  login mgmt email = do
    data' ← request_with_retry json net mgmt (login_mutation email p.config.password) [] []
    token_under (codes "login") data'

  unfoldable pub register : GraphqlClient → Text → Call json net Text
  unfolding token_under
  register mgmt email = do
    data' ←
        request_with_retry json net mgmt (register_mutation email p.config.password) []
          register_headers
    token_under (codes "register") data'

  -- A handler that rethrows what the network caused, and goes on with the rest otherwise.
  abbrev pub unless_transport : Call json net Text → Failure → Call json net Text
  unless_transport rest e = if is_transport e then raise e else rest

  abbrev pub rejected : Failure → Call json net Text
  rejected e = if is_transport e then raise e else raise (refused password_rejected (code_of e))

  unfoldable pub sign_in : GraphqlClient → Text → Call json net Text
  sign_in mgmt email = catch (login mgmt email) (
      unless_transport
        (catch (register mgmt email) (unless_transport (catch (login mgmt email) rejected))))

  abbrev pub management : GraphqlClient
  management = client_for p.config.management_api_url p.config.tls_insecure

  abbrev pub base_rejected : Failure → Call json net Text
  base_rejected e =
      if is_transport e then raise e else raise (refused base_account_rejected (code_of e))

  unfoldable pub set_logging : Bool → Text → Call json net (Unit {0})
  set_logging on session = do
    data' ←
        request_with_retry json net management
          (set_replay_logging_mutation (net.number_text p.config.app_id) on) session []
    app ← child json net data' (codes "updateApp")
    field ← child json net app (codes "replayLoggingEnabled")
    now_on ← or_throw (json.get_bool field)
    raise_if (if on then not now_on else now_on) (refused logging_not_set (codes ""))

  abbrev pub logging_rejected : Failure → Call json net (Unit {0})
  logging_rejected e =
      if is_transport e then raise e else raise (refused logging_refused (code_of e))

  unfoldable pub set_replay_logging : Bool → Call json net (Unit {0})
  unfolding set_logging
  set_replay_logging on = do
    session ← catch (login management p.config.email) base_rejected
    catch (set_logging on session) logging_rejected

  abbrev pub logging_field : Option json.Value → Option Bool
  logging_field none = none
  logging_field (some v) = if json.is_bool v then json.get_bool v else none

  abbrev pub logging_in : json.Value → Call json net (Option Bool)
  logging_in app =
      if json.is_object app
      then pure (logging_field (json.at app (codes "replayLoggingEnabled")))
      else pure none

  unfoldable pub read_logging : Call json net (Option Bool)
  read_logging = do
    session ← login management p.config.email
    data' ←
        request_with_retry json net management
          (read_replay_logging_query (net.number_text p.config.app_id)) session []
    app ← child json net data' (codes "app")
    logging_in app

  -- Every exception ends in `none`, with a warning on the console.
  abbrev pub none_if_thrown : Result (Option Bool) × Session net → Option Bool × Session net
  none_if_thrown (ok o, s) = (o, s)
  none_if_thrown (err e, s) = (none, s)

  unfoldable pub read_replay_logging : Session net → Option Bool × Session net
  unfolding read_logging
  read_replay_logging s = none_if_thrown (read_logging s)
