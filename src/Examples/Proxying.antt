-- ===== src/Examples/Proxying.antt =====
-- Runs of the proxy, of the catch-all route and of the collector.
use eve_api_cache.Base.{
  ◌≡◌, refl, true, false, ◌&&◌, none, some, [], ◌∷◌, ◌==◌, any, text_eq, text, arith, if◌then◌else◌,
}
use eve_api_cache.Base.Exec.{ok, raise, redis_error}
use eve_api_cache.Base.Ints.{pos}
use eve_api_cache.Allowlist.Path.{validate_path}
use eve_api_cache.Coalesce.{Turn, lead}
use eve_api_cache.Cache.Client
use eve_api_cache.Cache.Values.{decode_value}
use eve_api_cache.EsiClient.Fetch.{EsiResponse}
use eve_api_cache.Proxy.Defs.{State, result, hit, miss}
use eve_api_cache.Proxy.Admission.{admit}
use eve_api_cache.Proxy.Effects.{now_of, cache_get_stale}
use eve_api_cache.Proxy.Dispatch.{
  on_ok, on_client_error, on_answer, on_fetched, serve, revalidated_ttl,
}
use eve_api_cache.Proxy.Rejections.{Checked, endpoint_of, admit-Checked}
use eve_api_cache.Proxy.Answers.{degraded-hides-upstream, on_fetched_not_modified}
use eve_api_cache.Proxy.Caching.{serve-on_ok, serve-on_client_error}
use eve_api_cache.Routes.{HttpRequest, error_response}
use eve_api_cache.Base.Dict.{lookup}
use eve_api_cache.Routes.Handler.{RouteSettings, too_large, forward, forward_oversize}
use eve_api_cache.Collector.{Job, get_job, keys_of, store_fetched}
use eve_api_cache.Collector.Warming.{entry_at, fresh_entry, entry-store_fetched}
use eve_api_cache.Examples.{json, env, empty_state, plan, path, answer_with}

abbrev alone : Turn (State env) EsiResponse
alone = lead (λ s. s)

abbrev stored : State env
stored = (on_ok env plan path (answer_with 200 false) true (empty_state 10)).1

abbrev later : State env
later = record stored { client = (empty_state 20).client }

serve-on_ok_example :
    serve env plan path (text "GET") alone alone later
    ≡ (ok (result (pos 200) (text "[1]") hit), later)
serve-on_ok_example =
    serve-on_ok env plan path (text "GET") alone alone (answer_with 200 false) (empty_state 10)
      later refl refl (omega arith) (omega arith)

abbrev refused_state : State env
refused_state = (on_client_error env plan (answer_with 404 false) (empty_state 10)).1

abbrev refused_later : State env
refused_later = record refused_state { client = (empty_state 20).client }

nothing_stored :
    Client.get env.redis env.lib env.cfg.cache_compress_min_bytes plan.cache_key
      (now_of env refused_later)
      (empty_state 10).store
    ≡ none
unfolding Client.get
nothing_stored = refl

serve-on_client_error_example :
    serve env plan path (text "GET") alone alone refused_later
    ≡ (ok (result (pos 404) (text "[1]") hit), refused_later)
serve-on_client_error_example =
    serve-on_client_error env plan path (text "GET") alone alone (answer_with 404 false)
      (empty_state 10) refused_later refl refl nothing_stored (omega arith) (omega arith)

admit-Checked_example :
    Checked json
      (λ b. b)
      env.cfg
      (text "/v1/status/")
      (text "GET")
      []
      none
      (endpoint_of json (λ b. b) env.cfg (text "GET") (validate_path (text "/v1/status/")))
      (admit json (λ b. b) env.cfg (text "/v1/status/") (text "GET") [] none)
admit-Checked_example =
    admit-Checked json (λ b. b) env.cfg (text "/v1/status/") (text "GET") [] none

degraded-hides-upstream_example :
    (on_answer env plan path (answer_with 502 false, true) (empty_state 3)
      ≡ on_answer env plan path
          (record (answer_with 502 false) { body = text "secret" }, false)
          (empty_state 3))
    × ((on_answer env plan path (answer_with 502 false, true) (empty_state 3)).1 ≡ empty_state 3)
degraded-hides-upstream_example =
    degraded-hides-upstream env plan path (answer_with 502 false)
      (record (answer_with 502 false) { body = text "secret" }) true false (empty_state 3) refl refl

-- A 304 with `max-age=0`, and a store that has the stale copy alone.
abbrev expired : EsiResponse
expired = record (answer_with 304 true) { max_age = some 0 }

abbrev with_stale : State env
with_stale = record (empty_state 3) {
  store = λ t k. if text_eq k (text "esi:stale:esi:k") then some (text "[0]") else none;
}

stale_at_hand : cache_get_stale env plan.cache_key with_stale ≡ some (text "[0]")
unfolding cache_get_stale Client.get_stale decode_value
stale_at_hand = refl

on_fetched_not_modified_example :
    (on_fetched env plan path (text "GET") none alone (expired, true) with_stale).0 ≡ (
      if true && revalidated_ttl env plan expired with_stale == 0
      then raise redis_error
      else ok (result (pos 200) (text "[0]") miss))
on_fetched_not_modified_example =
    on_fetched_not_modified env plan path (text "GET") none alone expired true (text "[0]")
      with_stale refl stale_at_hand

abbrev posted : HttpRequest
posted = record {
  client_host = some (text "10.0.0.1");
  headers = [];
  method = text "POST";
  version = text "v1";
  path = text "universe/names/";
  query_params = [];
  stream = text "[1," ∷ text "2]" ∷ [];
}

abbrev route_settings : RouteSettings
route_settings = record { trusted_proxies = []; max_post_body_bytes = 4 }

forward_oversize_example :
    forward env route_settings posted alone alone 9 (empty_state 3) ≡ (ok too_large, empty_state 3)
unfolding error_response lookup
forward_oversize_example =
    forward_oversize env route_settings posted alone alone 9 (empty_state 3) refl (omega arith)

abbrev job : Job
job = get_job path []

entry-store_fetched_example :
    entry_at env
      (text "tranquility")
      (text "latest" ∷ [])
      (text "k")
      5
      (store_fetched env
        (text "tranquility")
        (text "latest" ∷ [])
        job
        (answer_with 200 false)
        (empty_state 3)).1
    ≡ (if any
          (λ k. text_eq k (text "k"))
          (keys_of env (text "tranquility") (text "latest" ∷ []) job)
        then fresh_entry env
            (text "tranquility")
            (text "latest" ∷ [])
            (answer_with 200 false)
            (empty_state 3)
            5
        else entry_at env (text "tranquility") (text "latest" ∷ []) (text "k") 5 (empty_state 3))
entry-store_fetched_example =
    entry-store_fetched env (text "tranquility") (text "latest" ∷ []) job (text "k")
      (answer_with 200 false) (empty_state 3) 5 refl (omega arith) refl
