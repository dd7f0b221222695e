-- ===== src/ControlServer/Guard.antt =====
-- Who may change what through the control port.
use cks_loadtest.Base.{
  ◌≡◌, ◌≢◌, ◌<◌, ◌∙◌, refl, ◌⊎◌, inl, inr, arith, Bool, true, false, Option, none, some, List, [],
  ◌∷◌, ◌++◌, All, Bool-cases,
}
use cks_loadtest.Base.Int.{ℤ}
use cks_loadtest.Base.Text.{Text, codes, text_eq_iff, is_empty}
use cks_loadtest.Platform.{Floats}
use cks_loadtest.Config.{Config}
use cks_loadtest.Graphql.{Json}
use cks_loadtest.Harness.Adds.{request_add}
use cks_loadtest.Harness.Rungs.{HarnessState, Clock, open_rung}
use cks_loadtest.ControlServer.{
  Route, get_health, get_status, get_stats, post_clients_add, post_rung_open, post_rung_close,
  post_shutdown, Request, bearer_ok, unauthorized, add_clients, rung_open, rung_close, authorized,
  is_open, serve, serve_all, count_in, id_in, parsed_body,
}

module _ {fl : Floats} (json : Json) (to_string : ℤ → Text) (cfg : Config fl)
    (can_write : Text → Bool) where
  -- A request that does not carry the token.
  abbrev pub LacksToken : Text → Request → Type 0
  LacksToken token req = req.authorization ≢ codes "Bearer " ++ token

  not_bearer :
      (token : Text) (req : Request)
      → is_empty token ≡ false
      → LacksToken token req
      → bearer_ok req.authorization token ≡ false
  unfolding bearer_ok
  not_bearer token req some_token lacks =
      ground (arith, some_token, lacks, text_eq_iff req.authorization (codes "Bearer " ++ token))

  only_health :
      (clock : Clock) (route : Route) (body : Text) (h : HarnessState fl)
      → is_open json to_string cfg can_write route ≡ true
      → let (response, h') = authorized json to_string cfg can_write clock route body h in
        (h' ≡ h) × ((route ≡ get_health) ⊎ (response ≡ unauthorized))
  unfolding authorized
  only_health clock get_health body h up = (refl, inl refl)
  only_health clock get_status body h up = cc
  only_health clock get_stats body h up = cc
  only_health clock post_clients_add body h up = cc
  only_health clock post_rung_open body h up = cc
  only_health clock post_rung_close body h up = cc
  only_health clock post_shutdown body h up = cc

  -- If there is a token, a request without it changes nothing, and is answered with 401, unless it only
  -- asks whether the server is up.
  pub serve-LacksToken :
      (token : Text) (clock : Clock) (req : Request) (h : HarnessState fl)
      → is_empty token ≡ false
      → LacksToken token req
      → let (response, h') = serve json to_string cfg can_write token clock req h in
        (h' ≡ h) × ((req.route ≡ get_health) ⊎ (response ≡ unauthorized))
  unfolding serve
  serve-LacksToken token clock req h some_token lacks =
      elim (Bool-cases (is_open json to_string cfg can_write req.route)) [
        | inl up ↦ rw up (only_health clock req.route req.body h up)
        | inr guarded ↦ simp (guarded, not_bearer token req some_token lacks) (refl, inr refl)
      ]

  request_add-refused :
      (count : ℤ) (h : HarnessState fl)
      → let (error, adds) = request_add to_string cfg.index_limit cfg.index_base count h.adds in
        (is_empty error ≡ true) ⊎ (adds ≡ h.adds)
  unfolding request_add is_empty
  request_add-refused count h = ground arith

  open_rung-refused :
      (clock : Clock) (id : Text) (h : HarnessState fl)
      → let (error, h') = open_rung cfg can_write clock id h in (is_empty error ≡ true) ⊎ (h' ≡ h)
  unfolding open_rung is_empty
  open_rung-refused clock id h = ground arith

  add_clients-refused :
      (o : Option ℤ) (h : HarnessState fl)
      → let (response, h') = add_clients json to_string cfg can_write o h in
        (response.status < 400) ⊎ (h' ≡ h)
  unfolding add_clients
  add_clients-refused none h = inr refl
  add_clients-refused (some count) h = grind (arith, request_add-refused count h)

  rung_open-refused :
      (clock : Clock) (o : Option Text) (h : HarnessState fl)
      → let (response, h') = rung_open json to_string cfg can_write clock o h in
        (response.status < 400) ⊎ (h' ≡ h)
  unfolding rung_open
  rung_open-refused clock none h = inr refl
  rung_open-refused clock (some id) h = grind (arith, open_rung-refused clock id h)

  authorized-refused :
      (clock : Clock) (route : Route) (body : Text) (h : HarnessState fl)
      → let (response, h') = authorized json to_string cfg can_write clock route body h in
        (response.status < 400) ⊎ (h' ≡ h)
  unfolding authorized rung_close
  authorized-refused clock get_health body h = inl (omega arith)
  authorized-refused clock get_status body h = inl (omega arith)
  authorized-refused clock get_stats body h = inl (omega arith)
  authorized-refused clock post_clients_add body h =
      add_clients-refused
        (count_in json to_string cfg can_write (parsed_body json to_string cfg can_write body)) h
  authorized-refused clock post_rung_open body h =
      rung_open-refused clock
        (id_in json to_string cfg can_write (parsed_body json to_string cfg can_write body)) h
  authorized-refused clock post_rung_close body h = inl (omega arith)
  authorized-refused clock post_shutdown body h = inl (omega arith)

  -- A request that is answered with a status of 400 or more, be it for a body that does not parse, a
  -- missing token, or an add or a rung that the harness refuses, changes nothing.
  pub serve-refused :
      (token : Text) (clock : Clock) (req : Request) (h : HarnessState fl)
      → let (response, h') = serve json to_string cfg can_write token clock req h in
        (response.status < 400) ⊎ (h' ≡ h)
  unfolding serve
  serve-refused token clock req h = grind (arith, authorized-refused)

  -- Requests without the token, however many, change nothing if there is a token.
  pub serve_all-LacksToken :
      (token : Text) (reqs : List (Clock × Request)) (h : HarnessState fl)
      → is_empty token ≡ false
      → All (λ r. LacksToken token r.1) reqs
      → serve_all json to_string cfg can_write token reqs h ≡ h
  unfolding serve_all
  serve_all-LacksToken token [] h some_token lacks = refl
  serve_all-LacksToken token ((clock, req) ∷ reqs) h some_token (lacks, rest) =
      serve_all-LacksToken token reqs _ some_token rest
      ∙ (serve-LacksToken token clock req h some_token lacks).0
