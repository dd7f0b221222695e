-- ===== src/Tests/OfProvisioner.antt =====
-- Witnesses for the GraphQL client and the provisioner.
use cks_loadtest.Base.{
  ℕ, suc, ◌+◌, ◌≡◌, ◌↔◌, refl, ◌⊎◌, ◌<◌, ◌≤◌, Bool, true, false, Option, none, some, List, [], ◌∷◌,
  arith, if◌then◌else◌, length, get_elem?,
}
use cks_loadtest.Base.Int.{ℤ, pos}
use cks_loadtest.Base.Text.{Text, codes, text_eq, is_empty}
use cks_loadtest.Config.{Config}
use cks_loadtest.Control.{ClientCredentials}
use cks_loadtest.Graphql.{Json, Net, response}
use cks_loadtest.Graphql.Action.{ok, Action}
use cks_loadtest.Graphql.Request.{GraphqlClient, read_answer}
use cks_loadtest.Graphql.Answers.{IsData, read_answer_iff}
use cks_loadtest.Provisioner.{Provisioner, Session}
use cks_loadtest.Provisioner.Client.{new_credentials, provision_client}
use cks_loadtest.Graphql.{consents_mutation}
use cks_loadtest.Graphql.Request.{request, answer_of}
use cks_loadtest.Provisioner.{find, insert}
use cks_loadtest.Provisioner.Retry.{request_once, request_with_retry, retry_from}
use cks_loadtest.Provisioner.Retry.Attempts.{Tries, request_with_retry-Tries}
use cks_loadtest.Provisioner.Roster.{
  without_roster, new_provisioner, load_document, check_origin, roster_url, add_entries, add_entry,
  add_email, add_token, roster_session,
}
use cks_loadtest.Provisioner.Roster.Loaded.{
  IsRoster, roster_of, new_provisioner-IsRoster, roster_session-IsOwn,
}
use cks_loadtest.Provisioner.Tokens.{
  mint_app_token, mint_answer, mint_or_consent, mint_request, install_token, choose_url,
  check_minted,
}
use cks_loadtest.Base.{◌-◌, ◌*◌}
use cks_loadtest.Base.Int.{◌+ℤ◌, ◌*ℤ◌}
use cks_loadtest.Base.Text.{is_prefix, find_char}
use cks_loadtest.Config.Email.{derived_email, format_index, replace_from}
use cks_loadtest.Provisioner.SignIn.{sign_in, login, token_under}
use cks_loadtest.Provisioner.Tokens.{
  bootstrap_game_client, assign_server, install_server, game_client, refresh_token,
}
use cks_loadtest.Provisioner.Tokens.Refreshed.{IsRefreshed, AnswerFits, refresh_token-Refreshed}
use cks_loadtest.Provisioner.Client.{find_app_token, use_session, obtain_session}
use cks_loadtest.Provisioner.Client.Tally.{CountsOne, provision_client-CountsOne}
use cks_loadtest.Provisioner.Pool.{
  Event, turn, Pool, between, busy_at, start, run_pool, go_on, take_offset, joined, all_ended,
}
use cks_loadtest.Provisioner.Pool.Range.{
  provision_range, provision_at, IsClient, provision_range-IsAllOrNothing,
}
use cks_loadtest.Provisioner.Pool.Turns.{CanGo, turns, IsSchedule, run_pool-ends}
use cks_loadtest.Tests.{floats, config, credentials, token}

pub data Doc : Type 0 where
  absent : Doc
  text : Text → Doc
  number : ℤ → Doc
  object : (Text → Doc) → Doc

abbrev pub is_there : Doc → Bool
is_there absent = false
is_there (text t) = true
is_there (number z) = true
is_there (object f) = true

abbrev pub member : Doc → Text → Doc
member absent k = absent
member (text t) k = absent
member (number z) k = absent
member (object f) k = f k

abbrev pub text_in : Doc → Option Text
text_in (text t) = some t
text_in absent = none
text_in (number z) = none
text_in (object f) = none

abbrev pub number_in : Doc → Option ℤ
number_in (number z) = some z
number_in (text t) = none
number_in absent = none
number_in (object f) = none

abbrev pub is_some : {A : Type 0} → Option A → Bool
is_some none = false
is_some (some a) = true

-- The fields of every answer of the API.
abbrev pub fields : Text → Doc
fields k =
    if text_eq k (codes "token")
    then text token
    else if text_eq k (codes "clientPort")
    then number (pos 7777)
    else if text_eq k (codes "index")
    then number (pos 3)
    else if text_eq k (codes "authorizedServer")
    then absent
    else text (codes "17")

abbrev pub answer : Doc
answer = object (λ k. if text_eq k (codes "data") then object (λ name. object fields) else absent)

abbrev pub json : Json
json = record {
  Value = Doc;
  parse = λ body. some answer;
  contains = λ v k. is_there (member v k);
  at = λ v k. if is_there (member v k) then some (member v k) else none;
  is_text = λ v. is_some (text_in v);
  is_bool = λ v. false;
  is_object = λ v. is_there v;
  is_null = λ v. false;
  is_array = λ v. false;
  elements = λ v. [];
  get_text = text_in;
  get_int = number_in;
  get_bool = λ v. none;
  text_at_or = λ v k d. some d;
  int_at_or = λ v k d. some d;
  elements_at = λ v k. some (object fields ∷ []);
}

-- The network answers with success, and counts the requests.
abbrev net : Net
net = record {
  World = ℕ;
  perform = λ request w. (response 200 [], suc w);
  payload_of = λ q. [];
  sleep_for = λ ms w. w;
  system_now = λ w. w;
  steady_now = λ w. w;
  number_text = λ z. [];
  stoll = λ t. some (pos 17);
}

abbrev iso : ℕ → Text → ℕ
iso now t = now + 1500

abbrev mgmt : GraphqlClient
mgmt = record { url = codes "https://example.com/graphql"; tls_insecure = false }

read_answer_iff_example :
    (read_answer json net mgmt (response 200 []) ≡ ok (object (λ name. object fields)))
    ↔ IsData json net (response 200 []) (object (λ name. object fields))
read_answer_iff_example =
    read_answer_iff json net mgmt (response 200 []) (object (λ name. object fields))

abbrev session : Session net
session = record {
  world = 0;
  legacy_refresh = false;
  run_started = true;
  sign_ins = record { reused = pos 0; minted_provisioning = pos 0; minted_mid_run = pos 0 };
  creds = new_credentials (pos 3) (codes "load+3@example.com");
}

request_with_retry-Tries_example :
    (k : ℕ) × (k ≤ 3)
    × Tries json net
        (request_once json net mgmt consents_mutation token [])
        1
        session
        k
        (request_with_retry json net mgmt consents_mutation token [] session)
request_with_retry-Tries_example =
    request_with_retry-Tries json net mgmt consents_mutation token [] session

abbrev plain_provisioner : Provisioner floats
plain_provisioner = without_roster json net (iso 0) config

-- A roster with one session.
abbrev roster_config : Config floats
roster_config = record config { roster_file = codes "roster.json" }

abbrev loaded : Provisioner floats
loaded = record {
  config = roster_config;
  roster = (pos 3, token) ∷ [];
  roster_emails = (pos 3, codes "17") ∷ [];
  roster_kind_app_token = false;
  roster_app_tokens = [];
  roster_game_api_url = [];
}

load_runs : new_provisioner json net (iso 0) roster_config (some []) ≡ ok loaded
unfolding new_provisioner load_document check_origin roster_url add_entries add_entry add_email
    add_token is_empty text_eq insert
load_runs = refl

new_provisioner-IsRoster_example :
    IsRoster (roster_of json net (iso 0) loaded) × (loaded.config ≡ roster_config)
new_provisioner-IsRoster_example =
    new_provisioner-IsRoster json net (iso 0) roster_config (some []) loaded load_runs

roster_session-IsOwn_example :
    (find (pos 3) loaded.roster ≡ some token)
    × ((named : Text) → find (pos 3) loaded.roster_emails ≡ some named → named ≡ codes "17")
unfolding roster_session find is_empty text_eq
roster_session-IsOwn_example = roster_session-IsOwn loaded (pos 3) (codes "17") token refl refl

client_runs : (provision_client json net iso plain_provisioner mgmt session).0 ≡ ok tt
unfolding provision_client find_app_token use_session roster_session find obtain_session sign_in
    login token_under mint_app_token mint_answer mint_or_consent mint_request install_token
    choose_url check_minted bootstrap_game_client assign_server install_server game_client
    request_with_retry retry_from request_once request read_answer answer_of text_eq is_empty
client_runs = refl

provision_client-CountsOne_example :
    CountsOne plain_provisioner session
      (provision_client json net iso plain_provisioner mgmt session).1
provision_client-CountsOne_example =
    provision_client-CountsOne json net iso plain_provisioner mgmt session client_runs

refresh_token-Refreshed_example :
    let (r, t) = refresh_token json net iso plain_provisioner mgmt session in
    IsRefreshed session t × AnswerFits session t r
refresh_token-Refreshed_example =
    refresh_token-Refreshed json net iso plain_provisioner mgmt session

abbrev one_digit : ℤ → ℤ → Text
one_digit width z = codes "1"

abbrev plain_config : Config floats
plain_config = record config { email_pattern = codes "load@example.com" }

abbrev range_provisioner : Provisioner floats
range_provisioner = without_roster json net (iso 0) plain_config

range_loads : new_provisioner json net (iso 0) plain_config none ≡ ok range_provisioner
unfolding new_provisioner is_empty
range_loads = refl

-- Two threads take two clients in turns.
abbrev two_threads : List Event
two_threads = turn 0 ∷ turn 1 ∷ turn 1 ∷ turn 0 ∷ turn 0 ∷ turn 1 ∷ []

abbrev ready : ℕ → ℕ → ClientCredentials
ready i requests = record {
  index = pos i;
  email = codes "load@example.com";
  session_token = token;
  app_token = token;
  game_token_id = pos 17;
  game_api_url = codes "17";
  token_expires_at = requests - 2 + 1500;
  server_ip4 = codes "17";
  server_port = 7777;
  udp_ready_at = requests;
}

range_runs :
    provision_range json net iso one_digit range_provisioner
      (pos 0)
      (pos 2)
      false
      two_threads
      session
    ≡ some (ready 0 8 ∷ ready 1 4 ∷ [])
unfolding provision_range provision_at start run_pool go_on take_offset joined all_ended
    derived_email format_index replace_from is_prefix find_char ◌+ℤ◌ ◌*ℤ◌ provision_client
    find_app_token use_session roster_session find obtain_session sign_in login token_under
    mint_app_token mint_answer mint_or_consent mint_request install_token choose_url check_minted
    bootstrap_game_client assign_server install_server game_client request_with_retry retry_from
    request_once request read_answer answer_of text_eq is_empty
range_runs = refl

provision_range-IsAllOrNothing_example :
    (ready 0 8 ∷ ready 1 4 ∷ [] ≡ [])
    ⊎ ((length (ready 0 8 ∷ ready 1 4 ∷ []) ≡ 2)
        × ((i : ℕ)
            → i < 2
            → (c : ClientCredentials) × (get_elem? (ready 0 8 ∷ ready 1 4 ∷ []) i ≡ some c)
              × IsClient json net iso one_digit range_provisioner (pos 0) i c))
provision_range-IsAllOrNothing_example =
    provision_range-IsAllOrNothing json net iso one_digit plain_config none 0 range_provisioner
      (pos 0) (pos 2) false two_threads session (ready 0 8 ∷ ready 1 4 ∷ []) range_loads
      (omega arith) range_runs

abbrev range_job : ℕ → Action (Session net) ClientCredentials
range_job = provision_at json net iso one_digit range_provisioner (pos 0)

abbrev range_start : Pool (Session net) ClientCredentials
range_start = start range_job 2 2 session credentials false

two_threads-IsSchedule : IsSchedule range_job 2 two_threads range_start
unfolding provision_range provision_at start run_pool go_on take_offset joined all_ended
    derived_email format_index replace_from is_prefix find_char ◌+ℤ◌ ◌*ℤ◌ provision_client
    find_app_token use_session roster_session find obtain_session sign_in login token_under
    mint_app_token mint_answer mint_or_consent mint_request install_token choose_url check_minted
    bootstrap_game_client assign_server install_server game_client request_with_retry retry_from
    request_once request read_answer answer_of text_eq is_empty
two_threads-IsSchedule = (
  (between, refl, ground arith),
  (
    (between, refl, ground arith),
    (
      (busy_at 1, refl, ground arith),
      (
        (busy_at 0, refl, ground arith),
        ((between, refl, ground arith), ((between, refl, ground arith), tt)),
      ),
    ),
  ),
)

run_pool-ends_example :
    let p = run_pool range_job 2 two_threads range_start in
    (turns two_threads ≤ 2 * 2 + 2)
    × (((out : List ClientCredentials) × (joined range_job 2 p ≡ some out))
        ⊎ ((t : ℕ) × CanGo range_job 2 p.threads t))
run_pool-ends_example =
    run_pool-ends range_job 2 2 session credentials false two_threads two_threads-IsSchedule
