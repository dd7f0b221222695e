-- ===== src/Worker/Refresh.antt =====
-- Token refreshes: while one is outstanding, a token error asks for nothing.
pub mod Once
use cks_loadtest.Base.{ℕ, ◌≡◌, refl, Bool, true, arith}
use cks_loadtest.Platform.{Floats, Crypto}
use cks_loadtest.Config.{Config}
use cks_loadtest.Base.{◌∙◌}
use cks_loadtest.Base.Words.{bump}
use cks_loadtest.Worker.Client.{Cell, with_stats}
use cks_loadtest.Worker.Simulation.{Simulation}
use cks_loadtest.Worker.Receive.{classify, log_once, react, is_token_error, handle_error}

module _ {fl : Floats} where
  -- The client still waits for an answer, and has neither asked again nor moved.
  pub record AsksNothing (x y : Cell fl) : Type 0 where
    pub same_control : y.control ≡ x.control
    pub same_state : y.client.state ≡ x.client.state
    pub same_fd : y.client.fd ≡ x.client.fd
    pub same_request : y.client.refresh_requested ≡ x.client.refresh_requested

  module _ (cfg : Config fl) (worker slot : ℕ) where
    classify-AsksNothing :
        (now code : ℕ) (x : Cell fl) → AsksNothing x (classify cfg worker slot now code x).1
    unfolding classify
    classify-AsksNothing now code x = ground arith

    log_once-AsksNothing :
        (expected : Bool) (x : Cell fl) → AsksNothing x (log_once cfg worker slot (expected, x))
    log_once-AsksNothing expected x = ground arith

    react-AsksNothing :
        (code : ℕ) (x : Cell fl)
        → is_token_error cfg worker slot code ≡ true
        → x.client.refresh_requested ≡ true
        → AsksNothing x (react cfg worker slot code x)
    unfolding react
    react-AsksNothing code x t r = ground (arith, t, r)

    AsksNothing-trans : (x y z : Cell fl) → AsksNothing x y → AsksNothing y z → AsksNothing x z
    AsksNothing-trans x y z p q = ground (arith, p, q)

    -- While a refresh is outstanding, INVALID_TOKEN, TOKEN_EXPIRED and USER_NOT_AUTHENTICATED put
    -- no request on the control queue and leave the client's state, socket and request flag.
    pub handle_error-AsksNothing :
        (now code : ℕ) (x : Cell fl)
        → is_token_error cfg worker slot code ≡ true
        → x.client.refresh_requested ≡ true
        → AsksNothing x (handle_error cfg worker slot now code x)
    unfolding handle_error
    handle_error-AsksNothing now code x t r =
        let a : Cell fl =
          with_stats x (record (x.stats) { error_codes = bump x.stats.error_codes code }) in
        let b : Bool × Cell fl = classify cfg worker slot now code a in
        let d : Cell fl = log_once cfg worker slot b in
        let ab : AsksNothing a b.1 = classify-AsksNothing now code a in
        let bd : AsksNothing b.1 d = log_once-AsksNothing b.0 b.1 in
        let ad : AsksNothing a d = AsksNothing-trans a b.1 d ab bd in
        let de : AsksNothing d (react cfg worker slot code d) =
          react-AsksNothing code d t (ad.same_request ∙ r) in
        AsksNothing-trans x a _ (ground arith) (AsksNothing-trans a d _ ad de)
