-- ===== src/Graphql/Request.antt =====
-- `GraphQLClient::request`, and the endpoint that a client is made for. A client whose
-- `curl_easy_init` fails is not modelled.
use cks_loadtest.Base.{
  ℕ, ◌-◌, Bool, true, false, not, ◌&&◌, ◌||◌, Option, none, some, List, [], ◌∷◌, ◌++◌,
  if◌then◌else◌, ltb, leb, length, drop, take, ◌==◌,
}
use cks_loadtest.Base.Int.{pos}
use cks_loadtest.Base.Text.{Text, codes, text_eq, is_empty}
use cks_loadtest.Graphql.{Json, Query, HttpRequest, HttpAnswer, not_performed, response, Net}
use cks_loadtest.Graphql.Action.{Result, ok, err, graphql_error, other_exception}

-- The text without the slashes at its end.
unfoldable pub trim_slash : Text → Text
trim_slash [] = []
trim_slash (c ∷ cs) = let rest = trim_slash cs in if c == 47 && is_empty rest then [] else c ∷ rest

unfoldable pub graphql_endpoint : Text → Text
graphql_endpoint base_url =
    let url = trim_slash base_url in
    if ltb (length url) 8 || not (text_eq (drop (length url - 8) url) (codes "/graphql"))
    then url ++ codes "/graphql"
    else url

pub record GraphqlClient : Type 0 where
  pub url : Text
  pub tls_insecure : Bool

abbrev pub client_for : Text → Bool → GraphqlClient
client_for url tls_insecure = record { url = graphql_endpoint url; tls_insecure = tls_insecure }

abbrev pub request_headers : Text → List Text → List Text
request_headers bearer extra_headers =
    codes "Content-Type: application/json"
    ∷ ((if is_empty bearer then [] else (codes "Authorization: Bearer " ++ bearer) ∷ [])
        ++ extra_headers)

module _ (json : Json) (net : Net) where
  abbrev pub Reply : Type 0
  Reply = Result json.Value

  abbrev pub throw : Text → Text → Bool → Reply
  throw what code transport = err (graphql_error what code transport)

  -- `first.value("message", ...)`, and the code among the extensions.
  unfoldable pub code_in : json.Value → Option Text
  code_in first =
      if json.contains first (codes "extensions")
      then elim (json.at first (codes "extensions")) [
        | none ↦ none
        | some e ↦
            if json.is_object e
            then json.text_at_or e (codes "code") (codes "")
            else some (codes "")
      ]
      else some (codes "")

  abbrev pub throw_error : Option Text → Option Text → Reply
  throw_error (some message) (some code) = throw message code false
  throw_error (some message) none = err other_exception
  throw_error none code = err other_exception

  -- The members of `parsed["errors"]`, if that is an array.
  abbrev pub array_of : Option json.Value → List json.Value
  array_of none = []
  array_of (some v) = if json.is_array v then json.elements v else []

  abbrev pub errors_of : json.Value → List json.Value
  errors_of parsed =
      if json.contains parsed (codes "errors")
      then array_of (json.at parsed (codes "errors"))
      else []

  abbrev pub missing_data : GraphqlClient → Reply
  missing_data client = throw (codes "GraphQL response missing data from " ++ client.url) [] true

  abbrev pub data_of : GraphqlClient → Option json.Value → Reply
  data_of client none = missing_data client
  data_of client (some v) = if json.is_null v then missing_data client else ok v

  -- What follows the parsing of the body.
  unfoldable pub answer_of : GraphqlClient → ℕ → Text → json.Value → List json.Value → Reply
  answer_of client status body parsed (first ∷ errors) =
      throw_error (json.text_at_or first (codes "message") (codes "unknown GraphQL error"))
        (code_in first)
  answer_of client status body parsed [] =
      if ltb status 200 || leb 300 status
      then throw
          (codes "HTTP "
            ++ (net.number_text (pos status)
                ++ (codes " from " ++ (client.url ++ (codes ": " ++ take 300 body)))))
          [] true
      else if json.contains parsed (codes "data")
      then data_of client (json.at parsed (codes "data"))
      else missing_data client

  abbrev pub parsed_answer : GraphqlClient → ℕ → Text → Option json.Value → Reply
  parsed_answer client status body none =
      throw
        (codes "non-JSON response (HTTP "
          ++ (net.number_text (pos status)
              ++ (codes ") from " ++ (client.url ++ (codes ": " ++ take 300 body)))))
        [] true
  parsed_answer client status body (some parsed) =
      answer_of client status body parsed (errors_of parsed)

  unfoldable pub read_answer : GraphqlClient → HttpAnswer → Reply
  read_answer client (not_performed why) =
      throw (codes "HTTP request to " ++ (client.url ++ (codes " failed: " ++ why))) [] true
  read_answer client (response status body) = parsed_answer client status body (json.parse body)

  unfoldable pub http_request : GraphqlClient → Query → Text → List Text → HttpRequest
  http_request client query bearer extra_headers = record {
    url = client.url;
    payload = net.payload_of query;
    headers = request_headers bearer extra_headers;
    verify_tls = not client.tls_insecure;
  }

  unfoldable pub request : GraphqlClient → Query → Text → List Text → net.World → Reply × net.World
  request client query bearer extra_headers w =
      let (answer, w') = net.perform (http_request client query bearer extra_headers) w in
      (read_answer client answer, w')
