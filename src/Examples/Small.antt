-- ===== src/Examples/Small.antt =====
-- Runs of the limiter, the allowlist, the cache, the client, the coalescing, the metrics and the body
-- cap.
use eve_api_cache.Base.{
  ◌+◌, ℕ, ◌+◌, ◌≤◌, ◌≡◌, ◌⊎◌, ◌↔◌, refl, true, false, ◌&&◌, ◌||◌, Option, none, some, List, [], ◌∷◌,
  ◌++◌, all, text_eq, Text, text, elem, arith, if◌then◌else◌,
}
use eve_api_cache.Base.Exec.{ok, raise, overflow_error}
use eve_api_cache.Base.Dict.{lookup}
use eve_api_cache.Base.Ints.{pos, int_of}
use eve_api_cache.RateLimit.{init, run}
use eve_api_cache.RateLimit.Window.{ideal_run, in_window, accepted}
use eve_api_cache.RateLimit.Refinement.{run-eq-ideal_run, run-le-limit}
use eve_api_cache.Allowlist.Endpoints.{EndpointSpec, time_series}
use eve_api_cache.Allowlist.Path.{
  valid_versions, danger_at, is_dangerous, split_slash, lstrip_slash, validate_path,
}
use eve_api_cache.Allowlist.Params.{proxy_params, keys, check_params}
use eve_api_cache.Allowlist.Safety.{validate_path_safe, check_params-accepts}
use eve_api_cache.Cache.Client.{set_body}
use eve_api_cache.Cache.Views.{entry, entry_of_set, entry-set_body}
use eve_api_cache.EsiClient.Headers.{HttpResponse, parse_expires, search_max_age}
use eve_api_cache.EsiClient.State.{Network}
use eve_api_cache.EsiClient.Fetch.{fetch, answer_for, answer_or_fail}
use eve_api_cache.EsiClient.Retry.{request_with_retries, attempts, send_request, settle}
use eve_api_cache.EsiClient.Pacer.{pace}
use eve_api_cache.EsiClient.Breaker.{budget_blocked, trips, block_for}
use eve_api_cache.EsiClient.Traffic.{counting, sent, is_settled, request_with_retries_sends}
use eve_api_cache.EsiClient.Answers.{Blocked, request_with_retries-Blocked}
use eve_api_cache.Routes.{read_body_capped}
use eve_api_cache.Routes.Bodies.{concat, within, read_body_capped-concat}
use eve_api_cache.Examples.{
  redis, lib, json, dates, response, network, client_settings, request, client, path,
}

-- Three calls of one client and one of another, in a window of 5 ticks.
abbrev calls : List (ℕ × Text)
calls = (1, text "a") ∷ (2, text "a") ∷ (3, text "b") ∷ (7, text "a") ∷ []

run-eq-ideal_run_example : run (init 1 5) calls ≡ ideal_run 1 5 [] calls
run-eq-ideal_run_example =
    run-eq-ideal_run 1 5 calls (omega arith, (omega arith, (omega arith, (omega arith, tt))))

run-le-limit_example : in_window 5 7 (text "a") (accepted [] calls (run (init 1 5) calls)) ≤ 1
run-le-limit_example =
    run-le-limit 1 5 calls (omega arith)
      (omega arith, (omega arith, (omega arith, (omega arith, tt)))) 7 (text "a")

validate_path_safe_example :
    (elem (text "v1") valid_versions ≡ true)
    × (lstrip_slash (text "/v1/status/") ≡ text "v1" ++ text "/status/")
    × (danger_at (text "us/") ≡ false)
unfolding validate_path is_dangerous split_slash lstrip_slash
validate_path_safe_example =
    validate_path_safe (text "/v1/status/") (text "v1") (text "/status/") (text "/v1/stat")
      (text "us/") refl refl

abbrev history_spec : EndpointSpec
history_spec = record {
  pattern = [];
  methods = [];
  archive_type = time_series;
  extract_names = false;
  allowed_params = text "type_id" ∷ [];
  required_params = text "type_id" ∷ [];
}

abbrev history_params : List (Text × Text)
history_params = (text "type_id", text "34") ∷ (text "page", text "1") ∷ []

check_params-accepts_example : ((check_params history_spec history_params) ≡ none) ↔ (
    (all (λ k. elem k proxy_params || elem k history_spec.allowed_params) (keys history_params)
      && all (λ k. elem k (keys history_params)) history_spec.required_params)
    ≡ true)
check_params-accepts_example = check_params-accepts history_spec history_params

abbrev nothing : ℕ → Text → Option (List ℕ)
nothing t k = none

entry-set_body_example :
    entry redis lib 2
      (text "k")
      12
      (set_body redis lib 2 (text "k") (text "[1]") 30 none 60 10 nothing).1
    ≡ (if text_eq (text "k") (text "k")
        then entry_of_set (text "[1]") 30 none 60 10 12
        else entry redis lib 2 (text "k") 12 nothing)
entry-set_body_example =
    entry-set_body redis lib 2 (text "k") (text "[1]") 30 none 60 10 nothing 12 (text "k")
      (omega arith) (omega arith) refl

request_with_retries_sends_example :
    (sent client_settings 1 (network 503) (client 0 (0, 0)) + 1
      ≤ sent client_settings 1
          (network 503)
          (request_with_retries client_settings 1
            (counting (network 503))
            request
            (client 0 (0, 0))).1)
    × (sent client_settings 1
          (network 503)
          (request_with_retries client_settings 1
            (counting (network 503))
            request
            (client 0 (0, 0))).1
        ≤ sent client_settings 1 (network 503) (client 0 (0, 0)) + 2 + 1)
    × ((is_settled client_settings 1
            (network 503)
            (request_with_retries client_settings 1
              (counting (network 503))
              request
              (client 0 (0, 0))).0
          ≡ true)
        ⊎ (sent client_settings 1
              (network 503)
              (request_with_retries client_settings 1
                (counting (network 503))
                request
                (client 0 (0, 0))).1
            ≡ sent client_settings 1 (network 503) (client 0 (0, 0)) + 2 + 1))
request_with_retries_sends_example =
    request_with_retries_sends client_settings 1 (network 503) request (client 0 (0, 0))

throttled-answer :
    (request_with_retries client_settings 1 (network 420) request (client 0 0)).0
    ≡ ok (response 420)
unfolding request_with_retries attempts pace send_request settle
throttled-answer = refl

throttled-trips : trips client_settings 1 (response 420) ≡ true
unfolding trips
throttled-trips = refl

throttled-block_for : block_for client_settings 1 (response 420) ≡ pos 7
unfolding block_for lookup int_of
throttled-block_for = refl

request_with_retries-Blocked_example :
    Blocked client_settings 1
      (network 420)
      (request_with_retries client_settings 1 (network 420) request (client 0 0)).1
request_with_retries-Blocked_example =
    request_with_retries-Blocked client_settings 1 (network 420) request 7 (client 0 0)
      (response 420) (omega arith) throttled-answer throttled-trips throttled-block_for

-- A response whose max-age ends behind the last date.
abbrev lasting : HttpResponse
lasting = record (response 200) {
  header = λ name. lookup name ((text "cache-control", text "max-age=1000000000000") ∷ []);
}

abbrev lasting_network : Network
lasting_network = record (network 200) { send = λ q w. (some lasting, w + 1) }

-- It raises.
lasting_raises :
    (fetch json dates client_settings lasting_network path (text "GET") [] none none (client 0 0)).0
    ≡ raise overflow_error
unfolding fetch request_with_retries attempts pace send_request settle parse_expires answer_for
    answer_or_fail budget_blocked lookup search_max_age
lasting_raises = refl

read_body_capped-concat_example :
    read_body_capped 4 (text "[1" ∷ text ",2" ∷ text "]" ∷ [])
    ≡ within 4 (concat (text "[1" ∷ text ",2" ∷ text "]" ∷ []))
read_body_capped-concat_example = read_body_capped-concat 4 (text "[1" ∷ text ",2" ∷ text "]" ∷ [])
