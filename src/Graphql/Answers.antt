-- ===== src/Graphql/Answers.antt =====
-- What the GraphQL client takes for data, and what for an error worth a retry.
use cks_loadtest.Base.{
  ℕ, ◌≤◌, ◌<◌, ◌≡◌, refl, ◌↔◌, true, false, Option, none, some, List, [], ◌∷◌, arith,
}
use cks_loadtest.Base.Text.{Text, codes}
use cks_loadtest.Graphql.{Json, HttpAnswer, not_performed, response, Net}
use cks_loadtest.Graphql.Action.{ok}
use cks_loadtest.Graphql.Request.{
  GraphqlClient, answer_of, data_of, throw_error, code_in, parsed_answer, read_answer, errors_of,
}

module _ (json : Json) (net : Net) where
  -- A response that carries data: JSON without errors, a status of success, and `data` not null.
  abbrev pub IsData : HttpAnswer → json.Value → Type 0
  IsData (not_performed why) v = ⊥
  IsData (response status body) v =
      (parsed : json.Value) × (json.parse body ≡ some parsed)
      × (errors_of json net parsed ≡ [])
      × (200 ≤ status)
      × (status < 300)
      × (json.contains parsed (codes "data") ≡ true)
      × (json.at parsed (codes "data") ≡ some v)
      × (json.is_null v ≡ false)

  data_of_iff :
      (client : GraphqlClient) (o : Option json.Value) (v : json.Value)
      → (data_of json net client o ≡ ok v) ↔ ((o ≡ some v) × (json.is_null v ≡ false))
  data_of_iff client none v = ground arith
  data_of_iff client (some x) v = ground arith

  throw_error-ne :
      (message code : Option Text) (v : json.Value) → throw_error json net message code ≡ ok v → ⊥
  throw_error-ne none code v h = cc
  throw_error-ne (some m) none v h = cc
  throw_error-ne (some m) (some c) v h = cc

  answer_of_iff :
      (client : GraphqlClient) (status : ℕ) (body : Text) (parsed v : json.Value)
      (errors : List json.Value)
      → (answer_of json net client status body parsed errors ≡ ok v) ↔ (
          (errors ≡ [])
          × (200 ≤ status)
          × (status < 300)
          × (json.contains parsed (codes "data") ≡ true)
          × (json.at parsed (codes "data") ≡ some v)
          × (json.is_null v ≡ false))
  unfolding answer_of
  answer_of_iff client status body parsed v [] =
      ground (arith, data_of_iff client (json.at parsed (codes "data")) v)
  answer_of_iff client status body parsed v (e ∷ es) = ground (
    arith,
    throw_error-ne (json.text_at_or e (codes "message") (codes "unknown GraphQL error"))
        (code_in json net e) v,
  )

  -- The client returns data exactly if libcurl performed the request, the body is JSON whose
  -- `errors` is no array or an empty one, the status is from 200 to 299, and `data` is there and not null.
  pub read_answer_iff :
      (client : GraphqlClient) (answer : HttpAnswer) (v : json.Value)
      → (read_answer json net client answer ≡ ok v) ↔ IsData answer v
  unfolding read_answer
  read_answer_iff client (not_performed why) v = ground arith
  read_answer_iff client (response status body) v = parsed_iff (json.parse body) refl
    where
      parsed_iff :
          (o : Option json.Value)
          → json.parse body ≡ o
          → (parsed_answer json net client status body o ≡ ok v) ↔ IsData (response status body) v
      parsed_iff none e = ground (arith, e)
      parsed_iff (some parsed) e =
          ground (arith, e, answer_of_iff client status body parsed v (errors_of json net parsed))
