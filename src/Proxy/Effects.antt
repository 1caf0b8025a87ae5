-- ===== src/Proxy/Effects.antt =====
-- The effects of app/proxy.py: its calls of the cache, of the upstream client and of the archive.
use eve_api_cache.Base.{
  ℕ, Bool, true, false, not, ◌&&◌, Option, [], ◌∷◌, if◌then◌else◌, Text, Bytes, text,
}
use eve_api_cache.Base.Dict.{Dict}
use eve_api_cache.Base.Exec.{Exec, Result, ok, raise, continue, ◌>>◌}
use eve_api_cache.Base.Ints.{ℤ}
use eve_api_cache.Events.{Event, inc_counter}
use eve_api_cache.Cache.Client
use eve_api_cache.Allowlist.Endpoints.{ArchiveType}
use eve_api_cache.EsiClient.Fetch.{EsiResponse, fetch}
use eve_api_cache.Proxy.Defs.{Env, State, archive_label}
use eve_api_cache.Proxy.Admission.{Plan}

abbrev pub is_archived : ArchiveType → Bool
is_archived ArchiveType.not_archived = false
is_archived _ = true

module _ (env : Env) where
  open env use {redis, lib, json, sha256, dates, net, esi, archive, cfg, clock}

  -- The time of the Redis server.
  abbrev pub now_of : State env → ℕ
  now_of s = clock s.client.world

  unfoldable pub cache_get : Text → State env → Option (Bytes × Option Bytes)
  cache_get key s = Client.get redis lib cfg.cache_compress_min_bytes key (now_of s) s.store

  unfoldable pub cache_get_negative : Text → State env → Option (Bytes × ℤ)
  cache_get_negative key s =
      Client.get_negative redis lib cfg.cache_compress_min_bytes key (now_of s) s.store

  unfoldable pub cache_get_etag : Text → State env → Option Bytes
  cache_get_etag key s =
      Client.get_etag redis lib cfg.cache_compress_min_bytes key (now_of s) s.store

  unfoldable pub cache_get_stale : Text → State env → Option Bytes
  cache_get_stale key s =
      Client.get_stale redis lib cfg.cache_compress_min_bytes key (now_of s) s.store

  unfoldable pub cache_get_ttl : Text → State env → Option ℤ
  cache_get_ttl key s = Client.get_ttl redis lib cfg.cache_compress_min_bytes key (now_of s) s.store

  unfoldable pub cache_set : Text → Bytes → ℕ → Option Text → ℕ → Exec (State env) (Unit {0})
  cache_set key body ttl etag stale_ttl s =
      let (r, store) =
        Client.set_body redis lib cfg.cache_compress_min_bytes key body ttl etag stale_ttl
          (now_of s) s.store in
      (r, record s { store = store })

  unfoldable pub cache_set_negative : Text → Bytes → ℕ → ℕ → Exec (State env) (Unit {0})
  cache_set_negative key body status ttl s =
      let (r, store) =
        Client.set_negative redis lib cfg.cache_compress_min_bytes key body status ttl (now_of s)
          s.store in
      (r, record s { store = store })

  abbrev pub emit : Event → Exec (State env) (Unit {0})
  emit e s = (Result.ok tt, record s { events = e ∷ s.events })

  -- `esi.fetch`
  unfoldable pub fetch_upstream :
      Text → Text → Dict Text → Option Bytes → Option Text → Exec (State env) EsiResponse
  fetch_upstream path method params body etag s =
      let (r, client) = fetch json dates esi net path method params body etag s.client in
      (r, record s { client = client })

  -- `if archive_type != ArchiveType.NONE`
  unfoldable pub write_snapshot_step : Plan → Text → EsiResponse → Exec (State env) (Unit {0})
  write_snapshot_step plan full_path resp s =
      let (r, db) =
        archive.write_snapshot plan.datasource full_path plan.query_hash (sha256 resp.body)
          resp.body 200 resp.etag resp.expires_at plan.spec.archive_type
          (net.wall_clock s.client.world) s.db in
      if is_archived plan.spec.archive_type then (r, record s { db = db }) else (Result.ok tt, s)

  -- `if extract_names`
  unfoldable pub write_names_step : Plan → EsiResponse → Exec (State env) (Unit {0})
  write_names_step plan resp s =
      let (r, stored) =
        archive.write_names plan.datasource resp.body (net.wall_clock s.client.world) (now_of s)
          (s.db, s.store) in
      if plan.spec.extract_names
      then (r, record s { db = stored.0; store = stored.1 })
      else (Result.ok tt, s)

  -- The body of the `try` of `_archive_response`.
  unfoldable pub write_archive : Plan → Text → EsiResponse → Exec (State env) (Unit {0})
  write_archive plan full_path resp = do
    write_snapshot_step plan full_path resp
    write_names_step plan resp

  abbrev pub count_write : Plan → Text → Event
  count_write plan outcome =
      inc_counter (text "archive_writes_total") (
        (text "archive_type", archive_label plan.spec.archive_type) ∷ (text "result", outcome) ∷ [])

  -- The `except` of `_archive_response`; the rollback may raise in turn.
  unfoldable pub settle_archive :
      Plan → Result (Unit {0}) × State env → Result (Unit {0}) × State env
  settle_archive plan (ok done, s) = emit (count_write plan (text "ok")) s
  settle_archive plan (raise e, s) =
      let (r, db) = archive.rollback s.db in
      continue r (λ done. emit (count_write plan (text "error"))) (record s { db = db })

  -- `_archive_response`
  unfoldable pub archive_response : Plan → Text → EsiResponse → Exec (State env) (Unit {0})
  archive_response plan full_path resp s =
      if not (is_archived plan.spec.archive_type) && not plan.spec.extract_names
      then (Result.ok tt, s)
      else settle_archive plan (write_archive plan full_path resp s)
