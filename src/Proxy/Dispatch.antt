-- ===== src/Proxy/Dispatch.antt =====
-- `_dispatch` of app/proxy.py from step 3 on, and `proxy_request`. Between two suspensions for the
-- upstream a request runs alone; what other requests do in a suspension is part of its `Turn`.
use eve_api_cache.Base.{
  ℕ, Bool, false, not, ◌&&◌, ◌||◌, Option, none, some, [], ◌∷◌, ◌-◌, ltb, leb, ◌==◌, if◌then◌else◌,
  length, Text, Bytes, text, get_or, or_default,
}
use eve_api_cache.Base.Dict.{Dict}
use eve_api_cache.Base.Exec.{Exec, Result, pure, when, ◌>>=◌, ◌>>◌}
use eve_api_cache.Base.Ints.{ℤ, pos, negsuc}
use eve_api_cache.Json.{str, int, object, end, member}
use eve_api_cache.Events.{inc_counter, observe}
use eve_api_cache.EsiClient.Fetch.{EsiResponse}
use eve_api_cache.Coalesce.{Turn, coalesce}
use eve_api_cache.Proxy.Defs.{
  Env, State, Settings, ProxyResult, CacheStatus, hit, miss, stale, archive_fallback, error, result,
}
use eve_api_cache.Proxy.Admission.{Plan, rejected, admitted, admit, endpoint_label_for}
use eve_api_cache.Proxy.Effects.{
  cache_get, cache_get_negative, cache_get_etag, cache_get_stale, cache_get_ttl, cache_set,
  cache_set_negative, emit, fetch_upstream, archive_response,
}

-- `await cache.get_ttl(cache_key) or 300`; Redis refuses a negative TTL like a TTL of 0
abbrev pub ttl_or_300 : Option ℤ → ℕ
ttl_or_300 none = 300
ttl_or_300 (some (pos n)) = if n == 0 then 300 else n
ttl_or_300 (some (negsuc n)) = 0

-- `a or b` for two ETags
abbrev pub etag_or : Option Text → Option Text → Option Text
etag_or none other = other
etag_or (some []) other = other
etag_or (some (c ∷ cs)) other = some (c ∷ cs)

abbrev pub status_label : CacheStatus → Text
status_label hit = text "HIT"
status_label miss = text "MISS"
status_label stale = text "STALE"
status_label archive_fallback = text "ARCHIVE_FALLBACK"
status_label error = text "ERROR"

-- `_stale_ttl_for_payload`
unfoldable pub stale_ttl_for_payload : Settings → Bytes → ℕ
stale_ttl_for_payload cfg body =
    if ltb 0 cfg.stale_cache_max_body_bytes && ltb cfg.stale_cache_max_body_bytes (length body)
    then 0
    else cfg.stale_cache_seconds

module _ (env : Env) where
  open env use {redis, lib, json, sha256, dates, net, esi, archive, cfg, clock}

  -- What the leader writes on a 200.
  unfoldable pub store_response : Plan → Text → EsiResponse → Exec (State env) (Unit {0})
  store_response plan full_path resp = do
    cache_set env plan.cache_key resp.body (or_default resp.max_age 300) resp.etag
        (stale_ttl_for_payload cfg resp.body)
    archive_response env plan full_path resp

  -- Step 8: a 200.
  unfoldable pub on_ok : Plan → Text → EsiResponse → Bool → Exec (State env) ProxyResult
  on_ok plan full_path resp is_leader = do
    when is_leader (store_response plan full_path resp)
    pure (record (result (pos 200) resp.body miss) { content_type = resp.content_type })

  -- The envelope of a failed upstream.
  abbrev pub envelope : ℕ → Bytes
  envelope status = json.dumps (
      object (
        member (text "error") (str (text "upstream_error"))
          (member (text "status") (int false status) end)))

  -- `if archive_body`
  unfoldable pub from_archive : EsiResponse → Option Bytes → ProxyResult
  from_archive resp none = result (pos resp.status) (envelope resp.status) error
  from_archive resp (some []) = result (pos resp.status) (envelope resp.status) error
  from_archive resp (some (b ∷ bs)) = result (pos 200) (b ∷ bs) archive_fallback

  -- Step 9: 420 or 5xx.
  unfoldable pub on_degraded : Plan → Text → EsiResponse → Exec (State env) ProxyResult
  on_degraded plan full_path resp s = elim (cache_get_stale env plan.cache_key s) [
    | some stale_body ↦ (Result.ok (result (pos 200) stale_body stale), s)
    | none ↦
        (do
          archive_body ←
              (λ t. (archive.get_latest_payload plan.datasource full_path plan.query_hash t.db, t))
          pure (from_archive resp archive_body))
          s
  ]

  -- `neg_ttl`
  abbrev pub negative_ttl : EsiResponse → ℕ
  negative_ttl resp = get_or resp.max_age cfg.negative_cache_ttl_seconds

  -- The two conditions of the negative cache.
  abbrev pub is_negative : EsiResponse → Bool
  is_negative resp =
      leb 400 resp.status
      && ltb resp.status 500
      && not (resp.status == 429)
      && ltb 0 (negative_ttl resp)

  -- Step 10: the negative cache, and the pass through.
  unfoldable pub on_client_error : Plan → EsiResponse → Exec (State env) ProxyResult
  on_client_error plan resp = do
    when (is_negative resp)
        (cache_set_negative env plan.cache_key resp.body resp.status (negative_ttl resp))
    pure (record (result (pos resp.status) resp.body miss) { content_type = resp.content_type })

  -- Steps 8 to 10.
  unfoldable pub on_answer : Plan → Text → EsiResponse × Bool → Exec (State env) ProxyResult
  on_answer plan full_path (resp, is_leader) =
      if resp.status == 200
      then on_ok plan full_path resp is_leader
      else if resp.status == 420 || leb 500 resp.status
      then on_degraded plan full_path resp
      else if leb 300 resp.status && ltb resp.status 400
      then pure (record (result (pos resp.status) resp.body miss) { location = resp.location })
      else on_client_error plan resp

  -- Step 7 with a stale body: the new or the prior TTL.
  unfoldable pub revalidated_ttl : Plan → EsiResponse → State env → ℕ
  revalidated_ttl plan resp s = elim resp.max_age [
    | some age ↦ age
    | none ↦ ttl_or_300 (cache_get_ttl env plan.cache_key s)
  ]

  unfoldable pub on_revalidated :
      Plan → Option Text → EsiResponse × Bool → Bytes → Exec (State env) ProxyResult
  on_revalidated plan stored_etag (resp, is_leader) stale_body = do
    (λ s.
        when is_leader
          (cache_set env plan.cache_key stale_body (revalidated_ttl plan resp s)
            (etag_or resp.etag stored_etag) (stale_ttl_for_payload cfg stale_body))
          s)
    pure (result (pos 200) stale_body miss)

  -- Steps 5 to 7: the coalesced fetch, and for a 304 without a body a second one without the ETag.
  unfoldable pub on_not_modified :
      Plan
      → Text
      → Text
      → Option Text
      → Turn (State env) EsiResponse
      → EsiResponse × Bool
      → Exec (State env) ProxyResult
  on_not_modified plan full_path method stored_etag refetch answer s =
      elim (cache_get_stale env plan.cache_key s) [
        | some stale_body ↦ on_revalidated plan stored_etag answer stale_body s
        | none ↦
            (do
              again ←
                  coalesce refetch
                    (fetch_upstream env full_path method plan.esi_params plan.body none)
              on_answer plan full_path again)
              s
      ]

  unfoldable pub on_fetched :
      Plan
      → Text
      → Text
      → Option Text
      → Turn (State env) EsiResponse
      → EsiResponse × Bool
      → Exec (State env) ProxyResult
  on_fetched plan full_path method stored_etag refetch answer =
      if answer.0.not_modified
      then on_not_modified plan full_path method stored_etag refetch answer
      else on_answer plan full_path answer

  -- From step 5 on.
  unfoldable pub from_upstream :
      Plan
      → Text
      → Text
      → Turn (State env) EsiResponse
      → Turn (State env) EsiResponse
      → Exec (State env) ProxyResult
  from_upstream plan full_path method turn refetch s =
      let stored_etag = cache_get_etag env plan.cache_key s in
      (do
        answer ←
            coalesce turn
              (fetch_upstream env full_path method plan.esi_params plan.body stored_etag)
        on_fetched plan full_path method stored_etag refetch answer)
        s

  -- From step 3 on: the positive and the negative cache come first.
  unfoldable pub serve :
      Plan
      → Text
      → Text
      → Turn (State env) EsiResponse
      → Turn (State env) EsiResponse
      → Exec (State env) ProxyResult
  serve plan full_path method turn refetch s = elim (cache_get env plan.cache_key s) [
    | some (body, etag) ↦ (Result.ok (result (pos 200) body hit), s)
    | none ↦ elim (cache_get_negative env plan.cache_key s) [
      | some (body, status) ↦ (Result.ok (result status body hit), s)
      | none ↦ from_upstream plan full_path method turn refetch s
    ]
  ]

  unfoldable pub dispatch :
      Text
      → Text
      → Dict Text
      → Option Bytes
      → Turn (State env) EsiResponse
      → Turn (State env) EsiResponse
      → Exec (State env) ProxyResult
  dispatch full_path method params body turn refetch =
      elim (admit json sha256 cfg full_path method params body) [
        | rejected answer ↦ pure answer
        | admitted plan ↦ serve plan full_path method turn refetch
      ]

  -- `proxy_request`: the answer of `_dispatch`, counted and timed
  unfoldable pub proxy_request :
      Text
      → Text
      → Dict Text
      → Option Bytes
      → Turn (State env) EsiResponse
      → Turn (State env) EsiResponse
      → Exec (State env) ProxyResult
  proxy_request full_path method params body turn refetch s =
      let start = net.monotonic s.client.world in
      let endpoint : Text × Text = (text "endpoint", endpoint_label_for full_path method) in
      (do
        answer ← dispatch full_path method params body turn refetch
        emit env (
            inc_counter (text "proxy_requests_total")
              (endpoint ∷ (text "cache_status", status_label answer.cache_status) ∷ []))
        (λ t.
            emit env
              (observe (text "proxy_request_duration_seconds")
                (net.monotonic t.client.world - start) (endpoint ∷ []))
              t)
        pure answer)
        s
