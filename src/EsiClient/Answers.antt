-- ===== src/EsiClient/Answers.antt =====
-- What `fetch` of app/esi_client.py answers.
use eve_api_cache.Base.{
  ℕ, zero, suc, ◌+◌, ◌*◌, ◌<◌, ◌≡◌, ◌⊎◌, inl, inr, subst, ◌↔◌, true, false, not, ◌||◌, Option, none,
  some, [], text, Text, arith, Bool-cases,
}
use eve_api_cache.Base.Dict.{Dict}
use eve_api_cache.Base.Exec.{Exec, Result, ok, raise, request_error, overflow_error}
use eve_api_cache.Base.Ints.{pos}
use eve_api_cache.Json.{Codec}
use eve_api_cache.EsiClient.Headers.{Dates, HttpResponse, expires_date, parse_max_age}
use eve_api_cache.EsiClient.State.{Settings, Network, Request, Client}
use eve_api_cache.EsiClient.Breaker.{
  is_rate_limit, trips, block_for, budget_blocked, note_budget-blocked,
}
use eve_api_cache.EsiClient.Pacer.{pace}
use eve_api_cache.EsiClient.Retry.{
  is_retriable, send_request, note, settle, settle_last, attempts, request_with_retries,
}
use eve_api_cache.EsiClient.Pages.{int_eq}
use eve_api_cache.EsiClient.Fetch.{EsiResponse}

module _ (cfg : Settings) (second : ℕ) (net : Network) where
  open net use {World, monotonic}

  pace_returns : (c : Client World) → (pace cfg second net c).0 ≡ ok tt
  unfolding pace
  pace_returns c = ground arith

  -- What holds of a failed request, and of a response that has been noted, holds at the end of the
  -- attempts.
  module _ (P : Result HttpResponse × Client World → Type 0)
      (failed : (c : Client World) → P (raise request_error, c))
      (noted : (resp : HttpResponse) (c : Client World)
        → P (ok resp, (note cfg second net resp c).1)) where
    settle_last_post :
        (answer : Option HttpResponse) (c : Client World) → P (settle_last cfg second net answer c)
    unfolding settle_last
    settle_last_post none c = failed c
    settle_last_post (some resp) c = noted resp c

    settle_post :
        (again : Exec (Client World) HttpResponse) (attempt : ℕ) (answer : Option HttpResponse)
        (c : Client World)
        → ((d : Client World) → P (again d))
        → P (settle cfg second net again attempt answer c)
    unfolding settle
    settle_post again attempt none c h = h _
    settle_post again attempt (some resp) c h =
        elim (Bool-cases (is_rate_limit resp.status_code || not (is_retriable resp.status_code))) [
          | inl final ↦ rw final (noted resp c)
          | inr more ↦ rw more (h _)
        ]

    attempts_post :
        (q : Request) (left attempt : ℕ) (c : Client World)
        → P (attempts cfg second net q left attempt c)
    unfolding attempts send_request
    attempts_post q zero attempt c = rw (pace_returns c) (settle_last_post _ _)
    attempts_post q (suc left) attempt c = rw (pace_returns c) (
        settle_post (attempts cfg second net q left (attempt + 1)) attempt _ _
          (attempts_post q left (attempt + 1)))

  -- The breaker is engaged at the present time.
  abbrev pub Blocked : Client World → Type 0
  Blocked c = budget_blocked (monotonic c.world) c.budget ≡ true

  -- If the answer trips the breaker for `n` seconds, it is engaged at the end.
  abbrev Engages : ℕ → Result HttpResponse × Client World → Type 0
  Engages n (ok resp, c) =
      trips cfg second resp ≡ true → block_for cfg second resp ≡ pos n → Blocked c
  Engages n (raise e, c) = Unit

  note-Engages :
      (n : ℕ)
      → 0 < n * second
      → (resp : HttpResponse) (c : Client World)
      → Engages n (ok resp, (note cfg second net resp c).1)
  unfolding note
  note-Engages n h resp c trip wait =
      note_budget-blocked cfg second n resp (monotonic c.world) (monotonic c.world) c.budget trip
        wait (omega arith)

  -- When a response trips the breaker for `n` seconds, `n` above 0, whichever attempt it answers,
  -- the call that returns it leaves the breaker engaged.
  pub request_with_retries-Blocked :
      (q : Request) (n : ℕ) (c : Client World) (resp : HttpResponse)
      → 0 < n * second
      → (request_with_retries cfg second net q c).0 ≡ ok resp
      → trips cfg second resp ≡ true
      → block_for cfg second resp ≡ pos n
      → Blocked (request_with_retries cfg second net q c).1
  unfolding request_with_retries
  request_with_retries-Blocked q n c resp h e =
      go (attempts cfg second net q cfg.esi_max_retries 0 c)
        (attempts_post (Engages n) (λ d. tt) (note-Engages n h) q cfg.esi_max_retries 0 c) e
    where
      go :
          (end : Result HttpResponse × Client World)
          → Engages n end
          → end.0 ≡ ok resp
          → trips cfg second resp ≡ true
          → block_for cfg second resp ≡ pos n
          → Blocked end.1
      go (ok other, d) engages same trip wait =
          let other_eq : other ≡ resp = cc in
          subst
            (λ (x : HttpResponse).
              trips cfg second x ≡ true → block_for cfg second x ≡ pos n → Blocked d)
            other_eq engages trip wait
      go (raise x, d) engages same trip wait = cc

  -- Ends without an exception, or with a `RequestError`.
  abbrev pub EndsWell : Result HttpResponse × Client World → Type 0
  EndsWell (ok resp, c) = Unit
  EndsWell (raise request_error, c) = Unit
  EndsWell (raise _, c) = ⊥

  -- A call returns a response, or raises a request error and no other exception.
  pub request_with_retries-EndsWell :
      (q : Request) (c : Client World) → EndsWell (request_with_retries cfg second net q c)
  unfolding request_with_retries
  request_with_retries-EndsWell q c =
      attempts_post EndsWell (λ d. tt) (λ resp d. tt) q cfg.esi_max_retries 0 c

-- What every answer of `fetch` satisfies, `etag` being the one that the request was made with.
pub record IsSound (etag : Option Text) (r : EsiResponse) : Type 0 where
  -- a merged body of several pages has no validator
  pub merged_without_etag : (int_eq r.page_count (pos 1) ≡ true) ⊎ (r.etag ≡ none)
  pub not_modified_iff : (r.not_modified ≡ true) ↔ (r.status ≡ 304)
  pub empty_if_not_modified : (r.not_modified ≡ false) ⊎ ((r.body ≡ []) × (r.etag ≡ etag))

module _ (json : Codec) (dates : Dates) (cfg : Settings) (net : Network) where
  open dates use {second}
  open net use {World, monotonic}

  -- The max-age of a response ends behind the last time that a `datetime` can be, and there is no
  -- date that takes its place.
  abbrev pub Overflows : HttpResponse → ℕ → Type 0
  Overflows resp now =
      (expires_date dates (resp.header (text "expires")) ≡ none)
      × ((age : ℕ) × ((parse_max_age dates resp now ≡ some age)
            × (dates.last < now + age * second)))

  -- What `fetch` ends with for a response of the upstream, or for the lack of one.
  abbrev pub Returns :
      Option Text → Option (HttpResponse × ℕ) → Result EsiResponse × Client World → Type 0
  Returns etag got (ok r, c) = IsSound etag r
  Returns etag (some (resp, now)) (raise overflow_error, c) = Overflows resp now
  Returns etag got (raise e, c) = ⊥

  -- The response that a call returned, and the time when it did.
  abbrev pub response_in : Result HttpResponse × Client World → Option (HttpResponse × ℕ)
  response_in (ok resp, c) = some (resp, net.wall_clock c.world)
  response_in (raise e, c) = none

  -- Every branch ends with a sound answer.
  abbrev IsAnswered : Option Text → Result EsiResponse × Client World → Type 0
  IsAnswered etag (ok r, c) = IsSound etag r
  IsAnswered etag (raise e, c) = ⊥

  -- A 503 of the client's own, which leaves the client but for its metrics as it was.
  abbrev pub Untouched : Result EsiResponse × Client World → Client World → Type 0
  Untouched end c =
      (r : EsiResponse) × (end.0 ≡ ok r)
      × (r.status ≡ 503)
      × (end.1.world ≡ c.world)
      × (end.1.budget ≡ c.budget)
      × (end.1.bucket ≡ c.bucket)
