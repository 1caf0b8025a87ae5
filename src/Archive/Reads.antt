-- ===== src/Archive/Reads.antt =====
-- `get_latest_payload` of app/archive.py.
use eve_api_cache.Base.{
  ℕ, Bool, ◌&&◌, ◌==◌, Option, none, some, find, if◌then◌else◌, Text, Bytes, text_eq,
}
use eve_api_cache.Base.Exec.{Result, ok, raise, database_error, runtime_error}
use eve_api_cache.Json.{Value, null, list, of_elements}
use eve_api_cache.Archive.Tables.{
  Tables, TimeSeriesSnapshot, ArchivePayloadBlob, ReferenceSnapshot, EventSnapshot,
  ArchiveObjectFile,
}
use eve_api_cache.Archive.Sessions.{ArchiveEnv, Session}
use eve_api_cache.Archive.Keys.{decompress_payload}

-- A JSON `null` of a column comes back as `None`.
abbrev pub not_null : Value → Option Value
not_null null = none
not_null v = some v

abbrev pub bind_value : Option Value → Option Value
bind_value none = none
bind_value (some v) = not_null v

module _ (env : ArchiveEnv) where
  open env use {pg, json, lib, parquet}

  abbrev pub is_series : Text → Text → Text → TimeSeriesSnapshot → Bool
  is_series datasource path query_hash r =
      text_eq r.datasource datasource && text_eq r.path path && text_eq r.query_hash query_hash

  abbrev pub is_reference : Text → Text → Text → ReferenceSnapshot → Bool
  is_reference datasource path query_hash r =
      text_eq r.datasource datasource && text_eq r.path path && text_eq r.query_hash query_hash

  abbrev pub is_event : Text → Text → Text → EventSnapshot → Bool
  is_event datasource path query_hash r =
      text_eq r.datasource datasource && text_eq r.path path && text_eq r.query_hash query_hash

  -- `json.dumps(payload).encode()`
  abbrev pub dumped : Option Value → Option Bytes
  dumped none = none
  dumped (some v) = some (json.dumps v)

  abbrev pub payload_of_reference : Option ReferenceSnapshot → Option Value
  payload_of_reference none = none
  payload_of_reference (some r) = not_null r.payload

  abbrev pub payload_of_event : Option EventSnapshot → Option Value
  payload_of_event none = none
  payload_of_event (some r) = not_null r.payload

  abbrev pub or_payload : Option Value → Option Bytes → Option Bytes
  or_payload none otherwise = otherwise
  or_payload (some v) otherwise = some (json.dumps v)

  -- The reference row, or else the event row.
  unfoldable pub stored_payload : Text → Text → Text → Tables pg → Option Bytes
  stored_payload datasource path query_hash t =
      or_payload
        (payload_of_reference
          (find (is_reference datasource path query_hash) (pg.rows t.references)))
        (dumped (payload_of_event (find (is_event datasource path query_hash) (pg.rows t.events))))

  -- `_read_parquet_payload`
  unfoldable pub read_parquet_payload : Text → parquet.Disk → Result (Option Bytes)
  read_parquet_payload file_path disk =
      if parquet.available
      then elim (parquet.read_table file_path disk) [
        | ok rows ↦ ok (some (json.dumps (list (of_elements rows))))
        | raise e ↦ raise e
      ]
      else raise runtime_error

  abbrev pub of_manifest :
      Option ArchiveObjectFile → parquet.Disk → Result (Option Bytes) → Result (Option Bytes)
  of_manifest none disk otherwise = otherwise
  of_manifest (some f) disk otherwise = read_parquet_payload f.file_path disk

  abbrev pub of_parquet :
      Option ℕ → Tables pg → parquet.Disk → Result (Option Bytes) → Result (Option Bytes)
  of_parquet none t disk otherwise = otherwise
  of_parquet (some id) t disk otherwise =
      of_manifest (find (λ f. f.id == id) (pg.rows t.files)) disk otherwise

  abbrev pub some_result : Result Bytes → Result (Option Bytes)
  some_result (ok b) = ok (some b)
  some_result (raise e) = raise e

  -- The blob of a snapshot, or else its Parquet file.
  abbrev pub of_blob :
      Option ArchivePayloadBlob
      → TimeSeriesSnapshot
      → Tables pg
      → parquet.Disk
      → Result (Option Bytes)
      → Result (Option Bytes)
  of_blob (some b) r t disk otherwise =
      some_result (decompress_payload lib b.payload_codec b.payload_compressed)
  of_blob none r t disk otherwise = of_parquet r.parquet_manifest_id t disk otherwise

  abbrev pub of_inline :
      Option Value
      → TimeSeriesSnapshot
      → Tables pg
      → parquet.Disk
      → Result (Option Bytes)
      → Result (Option Bytes)
  of_inline (some v) r t disk otherwise = ok (some (json.dumps v))
  of_inline none r t disk otherwise =
      of_blob (find (λ b. text_eq b.content_hash r.content_hash) (pg.rows t.blobs)) r t disk
        otherwise

  abbrev pub of_series :
      Option TimeSeriesSnapshot
      → Tables pg
      → parquet.Disk
      → Result (Option Bytes)
      → Result (Option Bytes)
  of_series none t disk otherwise = otherwise
  of_series (some r) t disk otherwise = of_inline (bind_value r.payload) r t disk otherwise

  -- The reads of `get_latest_payload` on the tables and the directory.
  unfoldable pub latest_payload :
      Text → Text → Text → Tables pg → parquet.Disk → Result (Option Bytes)
  latest_payload datasource path query_hash t disk =
      of_series
        (pg.greatest (is_series datasource path query_hash) (λ r. r.fetched_at) t.timeseries) t disk
        (ok (stored_payload datasource path query_hash t))

  -- `get_latest_payload`; its statements reach the server all or not at all
  unfoldable pub get_latest_payload : Text → Text → Text → Session env → Result (Option Bytes)
  get_latest_payload datasource path query_hash s =
      if env.up s.sent
      then latest_payload datasource path query_hash s.working s.disk
      else raise database_error
