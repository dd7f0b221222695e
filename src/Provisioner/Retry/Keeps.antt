-- ===== src/Provisioner/Retry/Keeps.antt =====
-- A request leaves the credentials alone.
use cks_loadtest.Base.{
  ℕ, zero, suc, ◌+◌, ◌*◌, ◌≡◌, refl, ◌∙◌, not, ◌||◌, leb, List, Bool-cases, inl, inr,
}
use cks_loadtest.Base.Text.{Text}
use cks_loadtest.Graphql.{Json, Net, Query}
use cks_loadtest.Graphql.Action.{Result, ok, err, is_transport}
use cks_loadtest.Graphql.Request.{GraphqlClient}
use cks_loadtest.Provisioner.{Session}
use cks_loadtest.Provisioner.Retry.{
  Call, sleep, retry_or_throw, retry_from, request_once, request_with_retry,
}

module _ (json : Json) (net : Net) where
  -- A part of the state that the rest of the world does not belong to.
  module _ {A : Type 0} (f : Session net → A)
      (apart : (s : Session net) (w : net.World) → f (record s { world = w }) ≡ f s) where
    retry-same :
        (n : ℕ) (s : Session net) (more : Call json net json.Value)
        (r : Result json.Value × Session net)
        → f r.1 ≡ f s
        → ((t : Session net) → f t ≡ f s → f (more t).1 ≡ f s)
        → f (retry_or_throw json net more n r).1 ≡ f s
    retry-same n s more (ok v, t) h later = h
    retry-same n s more (err e, t) h later = elim (Bool-cases (not (is_transport e) || leb 3 n)) [
      | inl stops ↦ rw stops h
      | inr goes_on ↦
          rw goes_on
            (later (sleep json net (500 * n) t) (apart t (net.sleep_for (500 * n) t.world) ∙ h))
    ]

    retry_from-same :
        (once : Call json net json.Value)
        → ((s : Session net) → f (once s).1 ≡ f s)
        → (fuel attempts : ℕ) (s : Session net)
        → f (retry_from json net fuel attempts once s).1 ≡ f s
    unfolding retry_from
    retry_from-same once h zero attempts s = refl
    retry_from-same once h (suc fuel) attempts s =
        retry-same (attempts + 1) s (retry_from json net fuel (attempts + 1) once) (once s) (h s)
          (λ t e. retry_from-same once h fuel (attempts + 1) t ∙ e)

    request-same :
        (client : GraphqlClient) (query : Query) (bearer : Text) (extra_headers : List Text)
        (s : Session net)
        → f (request_with_retry json net client query bearer extra_headers s).1 ≡ f s
    unfolding request_with_retry request_once
    request-same client query bearer extra_headers s =
        retry_from-same (request_once json net client query bearer extra_headers) (λ t. apart t _) 3
          0 s

  module _ (client : GraphqlClient) (query : Query) (bearer : Text) (extra_headers : List Text)
      (s : Session net) where
    pub request-creds :
        (request_with_retry json net client query bearer extra_headers s).1.creds ≡ s.creds
    request-creds = request-same (λ t. t.creds) (λ t w. refl) client query bearer extra_headers s

    pub request-sign_ins :
        (request_with_retry json net client query bearer extra_headers s).1.sign_ins ≡ s.sign_ins
    request-sign_ins =
        request-same (λ t. t.sign_ins) (λ t w. refl) client query bearer extra_headers s

    pub request-run_started :
        (request_with_retry json net client query bearer extra_headers s).1.run_started
        ≡ s.run_started
    request-run_started =
        request-same (λ t. t.run_started) (λ t w. refl) client query bearer extra_headers s

    pub request-legacy_refresh :
        (request_with_retry json net client query bearer extra_headers s).1.legacy_refresh
        ≡ s.legacy_refresh
    request-legacy_refresh =
        request-same (λ t. t.legacy_refresh) (λ t w. refl) client query bearer extra_headers s
