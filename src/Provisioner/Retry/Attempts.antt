-- ===== src/Provisioner/Retry/Attempts.antt =====
-- How often `requestWithRetry` sends its request, and with what it ends.
use cks_loadtest.Base.{
  ℕ, zero, suc, ◌+◌, ◌*◌, ◌≤◌, ◌<◌, ◌≡◌, refl, ap, ◌⊎◌, inl, inr, true, false, not, ◌||◌, leb, List,
  arith, Bool-cases,
}
use cks_loadtest.Base.Text.{Text}
use cks_loadtest.Graphql.{Json, Net, Query}
use cks_loadtest.Graphql.Action.{Failure, Result, ok, err, is_transport}
use cks_loadtest.Graphql.Request.{GraphqlClient}
use cks_loadtest.Provisioner.{Session}
use cks_loadtest.Provisioner.Retry.{
  Call, sleep, retry_or_throw, retry_from, request_once, request_with_retry,
}

module _ (json : Json) (net : Net) where
  -- What is thrown after attempt `n` is not worth another one.
  abbrev pub IsFinal : ℕ → Result json.Value → Type 0
  IsFinal n (ok v) = Unit
  IsFinal n (err e) = (is_transport e ≡ false) ⊎ (n ≡ 3)

  -- From attempt `n` on, in state `s`, the attempts end with attempt `last` and the outcome `r`: this
  -- one is final, or the network fails in it, and after a pause of 500 `n` ms the next one follows.
  pub data Tries (once : Call json net json.Value)
      : ℕ → Session net → ℕ → Result json.Value × Session net → Type 0 where
    final : {n : ℕ} {s : Session net} → IsFinal n (once s).0 → Tries once n s n (once s)
    again :
        {n last : ℕ} {s : Session net} {r : Result json.Value × Session net}
        → (e : _) × ((once s).0 ≡ err e) × (is_transport e ≡ true)
        → n < 3
        → Tries once (n + 1) (sleep json net (500 * n) (once s).1) last r
        → Tries once n s last r

  module _ (once : Call json net json.Value) where
    retried :
        (n : ℕ) (s t : Session net) (x : Failure) (more : Call json net json.Value)
        → once s ≡ (err x, t)
        → is_transport x ≡ true
        → n < 3
        → (k : ℕ) × (k ≤ 3)
          × Tries once (n + 1) (sleep json net (500 * n) t) k (more (sleep json net (500 * n) t))
        → (k : ℕ) × (k ≤ 3) × Tries once n s k (more (sleep json net (500 * n) t))
    retried n s t x more e net_failed lt (k, le, tries) =
        (k, le, again (x, ap (λ r. r.0) e, net_failed) lt (rw e tries))

    Tries-retry :
        (n : ℕ) (s : Session net) (more : Call json net json.Value)
        (r : Result json.Value × Session net)
        → once s ≡ r
        → n ≤ 3
        → ((t : Session net) → n < 3 → (k : ℕ) × (k ≤ 3) × Tries once (n + 1) t k (more t))
        → (k : ℕ) × (k ≤ 3) × Tries once n s k (retry_or_throw json net more n r)
    Tries-retry n s more (ok v, t) e le later = (n, le, rw⁻¹ e (final (rw e tt)))
    Tries-retry n s more (err x, t) e le later =
        elim (Bool-cases (not (is_transport x) || leb 3 n)) [
          | inl stops ↦ rw stops (n, le, rw⁻¹ e (final (rw e (ground (arith, stops, le)))))
          | inr goes_on ↦ rw goes_on (
              retried n s t x more e (ground (arith, goes_on)) (ground (arith, goes_on))
                (later (sleep json net (500 * n) t) (ground (arith, goes_on))))
        ]

    retry_from-Tries :
        (fuel attempts : ℕ) (s : Session net)
        → suc fuel + attempts ≡ 3
        → (k : ℕ) × (k ≤ 3)
          × Tries once (attempts + 1) s k (retry_from json net (suc fuel) attempts once s)
    unfolding retry_from
    retry_from-Tries zero attempts s h =
        Tries-retry (attempts + 1) s (retry_from json net zero (attempts + 1) once) (once s) refl
          (omega arith) (λ t lt. absurd (omega arith))
    retry_from-Tries (suc fuel) attempts s h =
        Tries-retry (attempts + 1) s (retry_from json net (suc fuel) (attempts + 1) once) (once s)
          refl (omega arith) (λ t lt. retry_from-Tries fuel (attempts + 1) t (omega arith))

  -- A request ends after at most three attempts: with the first answer that is data or an error of
  -- the API, which no further attempt follows, or with the third one. Attempt n is followed by a pause of
  -- 500 n milliseconds.
  pub request_with_retry-Tries :
      (client : GraphqlClient) (query : Query) (bearer : Text) (extra_headers : List Text)
      (s : Session net)
      → (k : ℕ) × (k ≤ 3)
        × Tries
            (request_once json net client query bearer extra_headers)
            1
            s
            k
            (request_with_retry json net client query bearer extra_headers s)
  unfolding request_with_retry
  request_with_retry-Tries client query bearer extra_headers s =
      retry_from-Tries (request_once json net client query bearer extra_headers) 2 0 s refl
