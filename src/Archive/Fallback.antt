-- ===== src/Archive/Fallback.antt =====
-- app/proxy.py over the archive of app/archive.py: a response is archived, and later the upstream is
-- degraded.
use eve_api_cache.Base.{
  ℕ, ◌≡◌, ◌≢◌, refl, ap, sym, ◌∙◌, subst, Bool, true, false, none, some, [], ◌∷◌, All, Text, Bytes,
}
use eve_api_cache.Base.Exec.{Result, ok}
use eve_api_cache.Base.Ints.{pos}
use eve_api_cache.Allowlist.Endpoints.{time_series}
use eve_api_cache.EsiClient.Fetch.{EsiResponse}
use eve_api_cache.Proxy.Defs.{Env, State, ProxyResult, result, archive_fallback}
use eve_api_cache.Proxy.Admission.{Plan}
use eve_api_cache.Proxy.Effects.{
  is_archived, cache_get_stale, write_snapshot_step, write_names_step, write_archive,
  settle_archive, archive_response,
}
use eve_api_cache.Proxy.Dispatch.{on_answer, on_degraded, from_archive}
use eve_api_cache.Proxy.Answers.{is_degraded, on_answer_degraded}
use eve_api_cache.Archive.Sessions.{ArchiveEnv, Session}
use eve_api_cache.Archive.Snapshots.{Snapshot, write_snapshot}
use eve_api_cache.Archive.Reads.{get_latest_payload}
use eve_api_cache.Archive.Live.{archive_of}
use eve_api_cache.Archive.RoundTrip.{IsOld, IsUnkeyed, IsSound, get_latest_payload-write_snapshot}

-- The proxy with the archive of app/archive.py.
abbrev pub live : ArchiveEnv → Env → Env
live archive env = record env {
  archive = archive_of archive env.redis;
  sha256 = archive.sha256;
  json = archive.json;
  lib = archive.lib;
}

module _ (aenv : ArchiveEnv) (env : Env) (plan : Plan) (full_path : Text) where
  -- The snapshot of a response.
  abbrev pub snapshot_of : EsiResponse → Snapshot
  snapshot_of resp = record {
    datasource = plan.datasource;
    path = full_path;
    query_hash = plan.query_hash;
    content_hash = aenv.sha256 resp.body;
    payload = resp.body;
    http_status = 200;
    etag = resp.etag;
    expires_at = resp.expires_at;
    archive_type = plan.spec.archive_type;
  }

  abbrev pub time_of : State (live aenv env) → ℕ
  time_of s = env.net.wall_clock s.client.world

  abbrev written : EsiResponse → State (live aenv env) → Result (Unit {0}) × Session aenv
  written resp s = write_snapshot aenv (snapshot_of resp) (time_of s) s.db

  -- A response of an archived endpoint without names leaves the database as `write_snapshot` does.
  archive_response-db :
      (resp : EsiResponse) (s : State (live aenv env))
      → plan.spec.archive_type ≡ time_series
      → plan.spec.extract_names ≡ false
      → (written resp s).0 ≡ ok tt
      → (archive_response (live aenv env) plan full_path resp s).1.db ≡ (written resp s).1
  unfolding archive_response write_archive settle_archive write_snapshot_step write_names_step
  archive_response-db resp s series plain returned =
      let archived : is_archived plan.spec.archive_type ≡ true = ap is_archived series in
      rw (archived, plain, returned) refl

  from_archive_body :
      (resp : EsiResponse) (body : Bytes)
      → body ≢ []
      → from_archive (live aenv env) resp (some body) ≡ result (pos 200) body archive_fallback
  unfolding from_archive
  from_archive_body resp [] full = absurd (full refl)
  from_archive_body resp (b ∷ bs) full = refl

  on_degraded_archived :
      (resp : EsiResponse) (t : State (live aenv env)) (body : Bytes)
      → cache_get_stale (live aenv env) plan.cache_key t ≡ none
      → get_latest_payload aenv plan.datasource full_path plan.query_hash t.db ≡ ok (some body)
      → body ≢ []
      → on_degraded (live aenv env) plan full_path resp t
        ≡ (ok (result (pos 200) body archive_fallback), t)
  unfolding on_degraded
  on_degraded_archived resp t body cold found full =
      rw (cold, on_degraded)
        (rw found (ap (λ (r : ProxyResult). (ok r, t)) (from_archive_body resp body full)))

  -- The leader archives the response of a TIME_SERIES endpoint that extracts no names, and
  -- `write_snapshot` returns. No row has the snapshot's idempotency key yet, every row of the
  -- same request is earlier, every blob decompresses to a body with its hash, and the response's
  -- body has not the hash of the empty body. Later, with the database in the state that
  -- `_archive_response` left, the upstream is degraded (420 or 5xx) and there is no stale copy. If
  -- the statements of the read reach the server, the caller gets a 200 ARCHIVE_FALLBACK whose body has the hash of
  -- the body that was archived, and nothing is written.
  pub on_answer-archive_response :
      (resp failed : EsiResponse) (leads : Bool) (s t : State (live aenv env))
      → plan.spec.archive_type ≡ time_series
      → plan.spec.extract_names ≡ false
      → (write_snapshot aenv (snapshot_of resp) (time_of s) s.db).0 ≡ ok tt
      → All (IsOld aenv (snapshot_of resp) (time_of s)) (aenv.pg.rows s.db.working.timeseries)
      → All (IsUnkeyed aenv (snapshot_of resp) (time_of s)) (aenv.pg.rows s.db.working.timeseries)
      → All (IsSound aenv) (aenv.pg.rows s.db.working.blobs)
      → aenv.sha256 [] ≢ aenv.sha256 resp.body
      → t.db ≡ (archive_response (live aenv env) plan full_path resp s).1.db
      → cache_get_stale (live aenv env) plan.cache_key t ≡ none
      → is_degraded (live aenv env) plan full_path failed ≡ true
      → aenv.up t.db.sent ≡ true
      → (body : Bytes) × ((on_answer (live aenv env) plan full_path (failed, leads) t
            ≡ (ok (result (pos 200) body archive_fallback), t))
          × (aenv.sha256 body ≡ aenv.sha256 resp.body))
  on_answer-archive_response resp failed leads s t series plain returned old unkeyed sound full same
        cold degraded up =
      let same_db : t.db ≡ (written resp s).1 =
        same ∙ archive_response-db resp s series plain returned in
      let (body, (found, (hashed, committed))) =
        get_latest_payload-write_snapshot aenv (snapshot_of resp) (time_of s) s.db series refl old
          unkeyed sound returned
          (subst (λ (db : Session aenv). aenv.up db.sent ≡ true) same_db up) in
      (
        body,
        (
          on_answer_degraded (live aenv env) plan full_path failed leads t degraded
              ∙ on_degraded_archived failed t body cold
                  (ap (get_latest_payload aenv plan.datasource full_path plan.query_hash) same_db
                    ∙ found)
                  (λ empty. full (ap aenv.sha256 (sym empty) ∙ hashed)),
          hashed,
        ),
      )
