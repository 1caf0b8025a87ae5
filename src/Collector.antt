-- ===== src/Collector.antt =====
-- app/collector.py: fetching one endpoint ahead of any caller and storing it in Redis and in the
-- archive. Redis, the upstream client and the archive are those of the proxy (`Env`). The paths and
-- parameters of the single collectors are in `jobs`.
pub mod Warming
pub mod Types
pub mod Histories
use eve_api_cache.Base.{
  ℕ, Bool, true, false, ◌==◌, Option, none, some, List, [], ◌∷◌, ◌++◌, map, filter, not,
  if◌then◌else◌, Text, Bytes, text, text_eq, or_default,
}
use eve_api_cache.Base.Dict.{Dict, insert}
use eve_api_cache.Base.Exec.{Exec, Result, ok, raise, ◌>>=◌, ◌>>◌, pure}
use eve_api_cache.Base.Ints.{str_int, str_nat, ℤ}
use eve_api_cache.Allowlist.Path.{split_slash}
use eve_api_cache.Allowlist.Endpoints.{ArchiveType, time_series}
use eve_api_cache.Allowlist.Keys.{compute_query_hash, build_cache_key}
use eve_api_cache.EsiClient.Fetch.{EsiResponse}
use eve_api_cache.Proxy.Defs.{Env, State}
use eve_api_cache.Proxy.Effects.{cache_set, fetch_upstream}
use eve_api_cache.Proxy.Dispatch.{stale_ttl_for_payload}

-- `_swap_version`: the text before the first slash and the version behind it are replaced
abbrev swapped : Text → Text → Text × Option Text → Text
swapped path version (head, none) = path
swapped path version (head, some rest) = b'/' ∷ version ++ b'/' ∷ rest

abbrev behind : Text → Text → Text × Option Text → Text
behind path version (head, none) = path
behind path version (head, some rest) = swapped path version (split_slash rest)

unfoldable pub swap_version : Text → Text → Text
unfolding split_slash
swap_version path version = behind path version (split_slash path)

-- What `_fetch_and_store` is called with; `params` is the query of the endpoint.
pub record Job : Type 0 where
  pub path : Text
  pub params : Dict Text
  pub method : Text
  pub body : Option Bytes
  pub archive_type : ArchiveType

-- `dict(params)`, with the datasource unless it is the default one
unfoldable pub esi_params : Text → Dict Text → Dict Text
esi_params datasource params =
    if text_eq datasource (text "tranquility")
    then params
    else insert (text "datasource") datasource params

module _ (env : Env) (datasource : Text) (alias_versions : List Text) where
  open env use {json, sha256, net, archive, cfg}

  unfoldable pub key_of : Job → Text → Text
  key_of job path = build_cache_key json sha256 datasource job.method path job.params job.body

  -- The keys that are warmed: the canonical one, and those of the alias versions.
  unfoldable pub keys_of : Job → List Text
  unfolding key_of
  keys_of job =
      key_of job job.path
      ∷ map (key_of job)
          (filter (λ p. not (text_eq p job.path)) (map (swap_version job.path) alias_versions))

  -- `cache.set` of the same body under each of the keys
  unfoldable pub warm : List Text → EsiResponse → Exec (State env) (Unit {0})
  warm [] resp = pure tt
  warm (key ∷ keys) resp = do
    cache_set env key resp.body (or_default resp.max_age 300) resp.etag
        (stale_ttl_for_payload cfg resp.body)
    warm keys resp

  abbrev not_stored : Result (Unit {0}) → State env → Result Bool × State env
  not_stored (ok done) s = (ok false, s)
  not_stored (raise e) s = (raise e, s)

  -- The archive session: an error is rolled back, which may raise in turn, and reported.
  abbrev settled : Result (Unit {0}) × archive.Db → State env → Result Bool × State env
  settled (ok done, db) s = (ok true, record s { db = db })
  settled (raise e, db) s =
      let (r, db') = archive.rollback db in not_stored r (record s { db = db' })

  unfoldable pub write_session : Job → EsiResponse → Exec (State env) Bool
  write_session job resp s =
      settled
        (archive.write_snapshot datasource job.path
          (compute_query_hash json sha256 job.params job.body) (sha256 resp.body) resp.body 200
          resp.etag resp.expires_at job.archive_type (net.wall_clock s.client.world) s.db)
        s

  -- From the response on.
  unfoldable pub store_fetched : Job → EsiResponse → Exec (State env) Bool
  store_fetched job resp =
      if resp.status == 200
      then (do warm (keys_of job) resp; write_session job resp)
      else pure false

  -- `_fetch_and_store`
  unfoldable pub fetch_and_store : Job → Exec (State env) Bool
  fetch_and_store job = do
    resp ← fetch_upstream env job.path job.method (esi_params datasource job.params) job.body none
    store_fetched job resp

abbrev pub get_job : Text → Dict Text → Job
get_job path params = record {
  path = path;
  params = params;
  method = text "GET";
  body = none;
  archive_type = time_series;
}

-- `collect_market_orders`
unfoldable pub market_orders : ℕ → Job
market_orders region_id =
    get_job (text "/v1/markets/" ++ (str_nat region_id ++ text "/orders/"))
      ((text "order_type", text "all") ∷ [])

-- `collect_market_history`
unfoldable pub market_history : ℕ → ℤ → Job
market_history region_id type_id =
    get_job (text "/v1/markets/" ++ (str_nat region_id ++ text "/history/"))
      ((text "type_id", str_int type_id) ∷ [])

-- `collect_market_prices` and the six universe collectors
unfoldable pub jobs : List Job
jobs =
    get_job (text "/v1/markets/prices/") []
    ∷ get_job (text "/v1/universe/system_jumps/") []
    ∷ get_job (text "/v1/universe/system_kills/") []
    ∷ get_job (text "/v1/sovereignty/map/") []
    ∷ get_job (text "/v1/sovereignty/structures/") []
    ∷ get_job (text "/v1/incursions/") []
    ∷ get_job (text "/v1/industry/facilities/") []
    ∷ []
