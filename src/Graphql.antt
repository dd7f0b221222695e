-- ===== src/Graphql.antt =====
-- src/GraphQLClient.cpp: one request of the GraphQL client, with what it takes from outside the
-- repository, the JSON library and libcurl.
pub mod Action
pub mod Request
pub mod Answers
use cks_loadtest.Base.{ℕ, Bool, Option, List}
use cks_loadtest.Base.Int.{ℤ}
use cks_loadtest.Base.Text.{Text}

-- `nlohmann::json`. An operation that throws gives `none`, and so does `[]` on a key that is
-- missing, which the library leaves undefined. `elements_at v k` is what a loop over
-- `v.value(k, array())` visits, and `text_at_or v k d` and `int_at_or v k d` are `v.value(k, d)`.
pub record Json : Type 1 where
  pub Value : Type 0
  pub parse : Text → Option Value
  pub contains : Value → Text → Bool
  pub at : Value → Text → Option Value
  pub is_text : Value → Bool
  pub is_bool : Value → Bool
  pub is_object : Value → Bool
  pub is_null : Value → Bool
  pub is_array : Value → Bool
  pub elements : Value → List Value
  pub get_text : Value → Option Text
  pub get_int : Value → Option ℤ
  pub get_bool : Value → Option Bool
  pub text_at_or : Value → Text → Text → Option Text
  pub int_at_or : Value → Text → ℤ → Option ℤ
  pub elements_at : Value → Text → Option (List Value)

-- The documents of src/Provisioner.cpp, each with the variables that it is sent with.
pub data Query : Type 0 where
  login_mutation : Text → Text → Query
  register_mutation : Text → Text → Query
  mint_mutation : Text → Query
  consents_mutation : Query
  refresh_mutation : Text → ℕ → Query
  legacy_refresh_mutation : Query
  assign_query : Query
  set_replay_logging_mutation : Text → Bool → Query
  read_replay_logging_query : Text → Query
  bootstrap_query : Text → Query

-- What libcurl is given, and what it answers: a code other than `CURLE_OK` with its text, or the
-- status and the body of the response. `CURLOPT_FOLLOWLOCATION` is off and the timeouts are fixed.
pub record HttpRequest : Type 0 where
  pub url : Text
  pub payload : Text
  pub headers : List Text
  pub verify_tls : Bool

pub data HttpAnswer : Type 0 where
  not_performed : Text → HttpAnswer
  response : ℕ → Text → HttpAnswer

-- The rest of the world as a state: `perform` is `curl_easy_perform`, `payload_of` the dumped body.
-- Clocks count nanoseconds, and `sleep_for` is given milliseconds.
pub record Net : Type 1 where
  pub World : Type 0
  pub perform : HttpRequest → World → HttpAnswer × World
  pub payload_of : Query → Text
  pub sleep_for : ℕ → World → World
  pub system_now : World → ℕ
  pub steady_now : World → ℕ
  pub number_text : ℤ → Text
  pub stoll : Text → Option ℤ
