-- ===== src/ControlServer.antt =====
-- src/ControlServer.cpp: the routes of the control port. The HTTP library is outside: it has
-- matched the route, and a header that is missing is an empty text.
pub mod Guard
use cks_loadtest.Base.{
  ℕ, Bool, true, false, Option, none, some, List, [], ◌∷◌, ◌++◌, if◌then◌else◌, not, ◌||◌,
}
use cks_loadtest.Base.Int.{ℤ, pos}
use cks_loadtest.Base.Text.{Text, codes, text_eq, is_empty}
use cks_loadtest.Platform.{Floats}
use cks_loadtest.Config.{Config}
use cks_loadtest.Stats.Report.{StatsBody}
use cks_loadtest.Graphql.{Json}
use cks_loadtest.Harness.Adds.{request_add}
use cks_loadtest.Harness.Rungs.{
  HarnessState, StatusBody, Clock, status_json, stats_json, open_rung, close_rung, request_shutdown,
}

pub data Route : Type 0 where
  get_health get_status get_stats post_clients_add post_rung_open post_rung_close post_shutdown :
      Route

pub record Request : Type 0 where
  pub route : Route
  pub authorization : Text
  pub body : Text

-- The content of a response, by the keys of its object; `exception_text` stands for `e.what()`.
pub data Content (fl : Floats) : Type 0 where
  is_ok : Content fl
  unauthorized_error : Content fl
  exception_text : Content fl
  error_text : Text → Content fl
  status_content : StatusBody → Content fl
  stats_content : StatsBody fl → Content fl
  accepted : ℤ → ℤ → ℤ → Content fl
  opened_id : Text → Content fl

pub record Response (fl : Floats) : Type 0 where
  pub status : ℕ
  pub content : Content fl

unfoldable pub bearer_ok : Text → Text → Bool
bearer_ok authorization token =
    if is_empty token then true else text_eq authorization (codes "Bearer " ++ token)

module _ {fl : Floats} where
  abbrev pub json_res : ℕ → Content fl → Response fl
  json_res status content = record { status = status; content = content }

  abbrev pub unauthorized : Response fl
  unauthorized = record { status = 401; content = unauthorized_error }

module _ {fl : Floats} (json : Json) (to_string : ℤ → Text) (cfg : Config fl)
    (can_write : Text → Bool) where
  abbrev pub parsed_body : Text → Option json.Value
  parsed_body body = json.parse (if is_empty body then codes "{}" else body)

  abbrev pub count_in : Option json.Value → Option ℤ
  count_in none = none
  count_in (some v) = json.int_at_or v (codes "count") (pos 0)

  abbrev pub id_in : Option json.Value → Option Text
  id_in none = none
  id_in (some v) = json.text_at_or v (codes "id") (codes "")

  -- What the harness answers to a request for `count` more clients.
  abbrev pub add_response : ℤ → Text → HarnessState fl → Response fl
  add_response count error h =
      if not (is_empty error)
      then json_res 409 (error_text error)
      else json_res 202 (accepted count h.adds.used cfg.index_limit)

  unfoldable pub add_clients : Option ℤ → HarnessState fl → Response fl × HarnessState fl
  add_clients none h = (json_res 400 exception_text, h)
  add_clients (some count) h =
      let (error, adds) = request_add to_string cfg.index_limit cfg.index_base count h.adds in
      let h' = record h { adds = adds } in (add_response count error h', h')

  abbrev pub open_response : Text → Text → Response fl
  open_response id error =
      if not (is_empty error) then json_res 409 (error_text error) else json_res 200 (opened_id id)

  unfoldable pub rung_open : Clock → Option Text → HarnessState fl → Response fl × HarnessState fl
  rung_open clock none h = (json_res 400 exception_text, h)
  rung_open clock (some id) h =
      let (error, h') = open_rung cfg can_write clock id h in (open_response id error, h')

  unfoldable pub rung_close : Clock → HarnessState fl → Response fl × HarnessState fl
  rung_close clock h =
      let (body, h') = close_rung cfg can_write clock h in (json_res 200 (stats_content body), h')

  -- A route behind the guard.
  unfoldable pub authorized : Clock → Route → Text → HarnessState fl → Response fl × HarnessState fl
  authorized clock get_health body h = (json_res 200 is_ok, h)
  authorized clock get_status body h =
      (json_res 200 (status_content (status_json cfg can_write h)), h)
  authorized clock get_stats body h =
      (json_res 200 (stats_content (stats_json cfg can_write clock h)), h)
  authorized clock post_clients_add body h = add_clients (count_in (parsed_body body)) h
  authorized clock post_rung_open body h = rung_open clock (id_in (parsed_body body)) h
  authorized clock post_rung_close body h = rung_close clock h
  authorized clock post_shutdown body h = (json_res 200 is_ok, request_shutdown cfg can_write h)

  abbrev pub is_open : Route → Bool
  is_open get_health = true
  is_open get_status = false
  is_open get_stats = false
  is_open post_clients_add = false
  is_open post_rung_open = false
  is_open post_rung_close = false
  is_open post_shutdown = false

  unfoldable pub serve : Text → Clock → Request → HarnessState fl → Response fl × HarnessState fl
  serve token clock req h =
      if is_open req.route
      then authorized clock req.route req.body h
      else if bearer_ok req.authorization token
      then authorized clock req.route req.body h
      else (unauthorized, h)

  -- Requests one after another, each at its time.
  unfoldable pub serve_all : Text → List (Clock × Request) → HarnessState fl → HarnessState fl
  serve_all token [] h = h
  serve_all token ((clock, req) ∷ reqs) h = serve_all token reqs (serve token clock req h).1
