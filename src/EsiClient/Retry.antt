-- ===== src/EsiClient/Retry.antt =====
-- `_request_with_retries` and `_sleep_before_retry` of app/esi_client.py. The semaphores bound how
-- many requests run side by side, and change nothing in the run of one.
use eve_api_cache.Base.{
  ℕ, zero, suc, ◌+◌, ◌*◌, ◌^◌, min, Bool, not, ◌||◌, Option, none, some, [], ◌∷◌, ◌==◌,
  if◌then◌else◌, text,
}
use eve_api_cache.Base.Exec.{Exec, ok, request_error, ◌>>=◌, ◌>>◌, pure, throw}
use eve_api_cache.Base.Ints.{ℤ, pos, negsuc, str_nat}
use eve_api_cache.Events.{inc_counter}
use eve_api_cache.EsiClient.Headers.{HttpResponse, int_header}
use eve_api_cache.EsiClient.State.{Settings, Network, Request, Client, emit}
use eve_api_cache.EsiClient.Breaker.{is_rate_limit, note_budget, budget_events}
use eve_api_cache.EsiClient.Pacer.{pace}

-- `_RETRIABLE_STATUSES`
abbrev pub is_retriable : ℕ → Bool
is_retriable status = status == 502 || status == 503 || status == 504

abbrev header_delay : ℕ → ℕ → Option ℤ → ℕ
header_delay second default none = default
header_delay second default (some (pos n)) = n * second
header_delay second default (some (negsuc n)) = 0

abbrev retry_after : Option HttpResponse → Option ℤ
retry_after none = none
retry_after (some resp) = int_header resp (text "retry-after")

module _ (cfg : Settings) (second : ℕ) (net : Network) where
  open net use {World, monotonic, sleep, send}

  -- The delay before a retry, in ticks.
  unfoldable pub retry_delay : Option HttpResponse → ℕ → ℕ
  retry_delay resp attempt =
      min (header_delay second (cfg.esi_retry_base_delay * 2 ^ attempt) (retry_after resp))
        cfg.esi_retry_max_delay

  unfoldable pub sleep_before_retry : Option HttpResponse → ℕ → Exec (Client World) (Unit {0})
  unfolding retry_delay
  sleep_before_retry resp attempt c =
      (ok tt, record c { world = sleep (retry_delay resp attempt) c.world })

  unfoldable pub send_request : Request → Exec (Client World) (Option HttpResponse)
  send_request q c = let (answer, w) = send q c.world in (ok answer, record c { world = w })

  -- `_note_response_budget`
  unfoldable pub note_response_budget : HttpResponse → Exec (Client World) (Unit {0})
  note_response_budget resp c =
      let now = monotonic c.world in
      let b = note_budget cfg second resp now c.budget in
      (ok tt, record c { budget = b; events = budget_events resp now b c.events })

  abbrev count_retry : Exec (Client World) (Unit {0})
  count_retry = emit (inc_counter (text "esi_retries_total") [])

  -- The response that an attempt received is noted.
  unfoldable pub note : HttpResponse → Exec (Client World) (Unit {0})
  unfolding note_response_budget
  note resp = do
    note_response_budget resp
    emit (inc_counter (text "esi_requests_total") ((text "status", str_nat resp.status_code) ∷ []))

  -- `continue` of the loop, `again` being what is left of it
  unfoldable pub again_after :
      Option HttpResponse → ℕ → Exec (Client World) HttpResponse → Exec (Client World) HttpResponse
  unfolding sleep_before_retry
  again_after resp attempt again = do count_retry; sleep_before_retry resp attempt; again

  abbrev is_final : HttpResponse → Bool
  is_final resp = is_rate_limit resp.status_code || not (is_retriable resp.status_code)

  -- An attempt's answer, where another attempt is left.
  unfoldable pub settle :
      Exec (Client World) HttpResponse → ℕ → Option HttpResponse → Exec (Client World) HttpResponse
  unfolding again_after note
  settle again attempt none = again_after none attempt again
  settle again attempt (some resp) = do
    note resp
    if is_final resp then pure resp else again_after (some resp) attempt again

  -- The answer of the last attempt.
  unfoldable pub settle_last : Option HttpResponse → Exec (Client World) HttpResponse
  unfolding note
  settle_last none = throw request_error
  settle_last (some resp) = do note resp; pure resp

  -- The attempts, `left` more of them allowed behind this one.
  unfoldable pub attempts : Request → ℕ → ℕ → Exec (Client World) HttpResponse
  attempts q zero attempt = do pace cfg second net; answer ← send_request q; settle_last answer
  attempts q (suc left) attempt = do
    pace cfg second net
    answer ← send_request q
    settle (attempts q left (attempt + 1)) attempt answer

  unfoldable pub request_with_retries : Request → Exec (Client World) HttpResponse
  request_with_retries q = attempts q cfg.esi_max_retries 0
