-- ===== src/Archive/Snapshots.antt =====
-- `write_snapshot` of app/archive.py.
use eve_api_cache.Base.{
  ℕ, ◌+◌, Bool, true, false, ◌&&◌, ◌==◌, not, Option, none, some, [], ◌∷◌, find, length,
  if◌then◌else◌, is_some, Text, Bytes, text,
}
use eve_api_cache.Base.Exec.{Exec, Result, ok, value_error, pure, throw, when, ◌>>=◌, ◌>>◌}
use eve_api_cache.Json.{Value, null}
use eve_api_cache.Allowlist.Endpoints.{ArchiveType, time_series, reference, event, not_archived}
use eve_api_cache.Postgres.{do_nothing, do_update, returned}
use eve_api_cache.Archive.Tables.{
  Tables, TimeSeriesSnapshot, ArchivePayloadBlob, ReferenceSnapshot, EventSnapshot, both_eq,
  same_idempotency, same_blob, same_reference, same_event,
}
use eve_api_cache.Archive.Sessions.{ArchiveEnv, Session, execute, commit}
use eve_api_cache.Archive.Keys.{
  timeseries_idempotency_key, market_orders_region_id, compress_payload,
}
use eve_api_cache.Archive.Orders.{answer, write_market_orders_parquet}

-- The arguments of `write_snapshot`.
pub record Snapshot : Type 0 where
  pub datasource : Text
  pub path : Text
  pub query_hash : Text
  pub content_hash : Text
  pub payload : Bytes
  pub http_status : ℕ
  pub etag : Option Text
  pub expires_at : Option ℕ
  pub archive_type : ArchiveType

abbrev pub is_none : ArchiveType → Bool
is_none not_archived = true
is_none _ = false

module _ (env : ArchiveEnv) where
  open env use {pg, json, sha256, lib, parquet, calendar}

  unfoldable pub blob_row : Text → Bytes → ℕ → ArchivePayloadBlob
  blob_row content_hash payload created_at = record {
    content_hash = content_hash;
    payload_codec = (compress_payload lib payload).0;
    payload_compressed = (compress_payload lib payload).1;
    raw_size = length payload;
    compressed_size = length (compress_payload lib payload).1;
    storage_format = text "raw_json";
    created_at = created_at;
  }

  abbrev pub put_blob : ArchivePayloadBlob → Tables pg → Result (Unit {0}) × Tables pg
  put_blob row t =
      let (r, blobs) = pg.insert same_blob do_nothing (row ∷ []) t.blobs in
      (r, record t { blobs = blobs })

  -- `_write_payload_blob`
  unfoldable pub write_payload_blob : Text → Bytes → ℕ → Exec (Session env) (Unit {0})
  write_payload_blob content_hash payload created_at =
      execute env (put_blob (blob_row content_hash payload created_at))

  abbrev pub snapshot_key : Snapshot → ℕ → Text
  snapshot_key p now =
      timeseries_idempotency_key calendar sha256 p.datasource p.path p.query_hash p.content_hash now

  unfoldable pub timeseries_row : Snapshot → ℕ → ℕ → TimeSeriesSnapshot
  timeseries_row p now id = record {
    id = id;
    datasource = p.datasource;
    path = p.path;
    query_hash = p.query_hash;
    content_hash = p.content_hash;
    idempotency_key = some (snapshot_key p now);
    payload = some null;
    payload_storage = some (text "compressed_json");
    parquet_manifest_id = none;
    fetched_at = now;
    esi_expires_at = p.expires_at;
    etag = p.etag;
    http_status = p.http_status;
  }

  abbrev pub put_timeseries : (ℕ → TimeSeriesSnapshot) → Tables pg → Result (Option ℕ) × Tables pg
  put_timeseries row t =
      let (r, timeseries) =
        pg.insert same_idempotency do_nothing (row t.next_timeseries ∷ []) t.timeseries in
      (
        answer r (
            returned same_idempotency (row t.next_timeseries) t.next_timeseries
              (pg.rows t.timeseries)),
        record t { timeseries = timeseries; next_timeseries = t.next_timeseries + 1 },
      )

  -- `_get_timeseries_id_by_idempotency_key`
  abbrev pub id_of_key : Text → Tables pg → Option ℕ
  id_of_key key t = elim (find (λ r. both_eq r.idempotency_key (some key)) (pg.rows t.timeseries)) [
    | none ↦ none
    | some r ↦ some r.id
  ]

  unfoldable pub get_timeseries_id_by_idempotency_key : Text → Exec (Session env) (Option ℕ)
  get_timeseries_id_by_idempotency_key key = execute env (λ t. (ok (id_of_key key t), t))

  abbrev pub relabel : ℕ → TimeSeriesSnapshot → TimeSeriesSnapshot
  relabel manifest_id r = record r {
    parquet_manifest_id = some manifest_id;
    payload_storage = some (text "market_parquet_delta");
  }

  unfoldable pub relabel_snapshot : ℕ → Option ℕ → Exec (Session env) (Unit {0})
  relabel_snapshot snapshot_id none = pure tt
  relabel_snapshot snapshot_id (some manifest_id) = execute env (λ t. (
    ok tt,
    record t {
      timeseries = pg.update (λ r. r.id == snapshot_id) (relabel manifest_id) t.timeseries;
    },
  ))

  abbrev pub wants_parquet : Snapshot → Bool
  wants_parquet p =
      is_some (market_orders_region_id p.path)
      && env.enable_market_order_parquet
      && parquet.available

  -- `if snapshot_id and ...`
  unfoldable pub write_parquet : Snapshot → ℕ → Option ℕ → Exec (Session env) (Unit {0})
  write_parquet p now none = pure tt
  write_parquet p now (some snapshot_id) = when (not (snapshot_id == 0) && wants_parquet p) (do
    manifest_id ←
        write_market_orders_parquet env snapshot_id p.datasource p.path p.query_hash p.content_hash
          p.payload now
    relabel_snapshot snapshot_id manifest_id)

  abbrev pub known_id : Text → Option ℕ → Exec (Session env) (Option ℕ)
  known_id key none = get_timeseries_id_by_idempotency_key key
  known_id key (some id) = pure (some id)

  unfoldable pub write_timeseries : Snapshot → ℕ → Exec (Session env) (Unit {0})
  write_timeseries p now = do
    write_payload_blob p.content_hash p.payload now
    inserted ← execute env (put_timeseries (timeseries_row p now))
    snapshot_id ← known_id (snapshot_key p now) inserted
    write_parquet p now snapshot_id

  unfoldable pub reference_row : Snapshot → ℕ → Value → ReferenceSnapshot
  reference_row p now payload = record {
    datasource = p.datasource;
    path = p.path;
    query_hash = p.query_hash;
    content_hash = p.content_hash;
    payload = payload;
    first_seen_at = now;
    last_updated_at = now;
    esi_expires_at = p.expires_at;
    etag = p.etag;
    http_status = p.http_status;
  }

  abbrev pub updated : ReferenceSnapshot → ReferenceSnapshot → ReferenceSnapshot
  updated old new = record old {
    content_hash = new.content_hash;
    payload = new.payload;
    last_updated_at = new.last_updated_at;
    esi_expires_at = new.esi_expires_at;
    etag = new.etag;
    http_status = new.http_status;
  }

  abbrev pub put_reference : ReferenceSnapshot → Tables pg → Result (Unit {0}) × Tables pg
  put_reference row t =
      let (r, references) = pg.insert same_reference (do_update updated) (row ∷ []) t.references in
      (r, record t { references = references })

  abbrev pub write_reference : Snapshot → ℕ → Option Value → Exec (Session env) (Unit {0})
  write_reference p now none = throw value_error
  write_reference p now (some payload) = execute env (put_reference (reference_row p now payload))

  unfoldable pub event_row : Snapshot → ℕ → Value → EventSnapshot
  event_row p now payload = record {
    datasource = p.datasource;
    path = p.path;
    query_hash = p.query_hash;
    content_hash = p.content_hash;
    payload = payload;
    fetched_at = now;
    etag = p.etag;
    http_status = p.http_status;
  }

  abbrev pub put_event : EventSnapshot → Tables pg → Result (Unit {0}) × Tables pg
  put_event row t =
      let (r, events) = pg.insert same_event do_nothing (row ∷ []) t.events in
      (r, record t { events = events })

  abbrev pub write_event : Snapshot → ℕ → Option Value → Exec (Session env) (Unit {0})
  write_event p now none = throw value_error
  write_event p now (some payload) = execute env (put_event (event_row p now payload))

  -- The statements of each strategy.
  unfoldable pub write_rows : Snapshot → ℕ → ArchiveType → Exec (Session env) (Unit {0})
  write_rows p now time_series = write_timeseries p now
  write_rows p now reference = write_reference p now (json.loads p.payload)
  write_rows p now event = write_event p now (json.loads p.payload)
  write_rows p now not_archived = pure tt

  -- `write_snapshot` at a time
  unfoldable pub write_snapshot : Snapshot → ℕ → Exec (Session env) (Unit {0})
  write_snapshot p now =
      if is_none p.archive_type then pure tt else (do write_rows p now p.archive_type; commit env)
