-- ===== src/Archive/Tables.antt =====
-- The tables of app/db.py: a row per record, and the columns of each conflict target. A time is a
-- number of clock ticks; an id of a row is a value of the sequence of its table.
use eve_api_cache.Base.{ℕ, Bool, ◌&&◌, ◌==◌, Option, none, some, false, Text, Bytes, text_eq}
use eve_api_cache.Base.Ints.{ℤ, pos, negsuc}
use eve_api_cache.Json.{Value}
use eve_api_cache.Postgres.{Postgres}

pub record TimeSeriesSnapshot : Type 0 where
  pub id : ℕ
  pub datasource : Text
  pub path : Text
  pub query_hash : Text
  pub content_hash : Text
  pub idempotency_key : Option Text
  pub payload : Option Value
  pub payload_storage : Option Text
  pub parquet_manifest_id : Option ℕ
  pub fetched_at : ℕ
  pub esi_expires_at : Option ℕ
  pub etag : Option Text
  pub http_status : ℕ

pub record ArchivePayloadBlob : Type 0 where
  pub content_hash : Text
  pub payload_codec : Text
  pub payload_compressed : Bytes
  pub raw_size : ℕ
  pub compressed_size : ℕ
  pub storage_format : Text
  pub created_at : ℕ

pub record ArchiveObjectFile : Type 0 where
  pub id : ℕ
  pub content_hash : Text
  pub datasource : Text
  pub path : Text
  pub query_hash : Text
  pub fetched_at : ℕ
  pub storage_format : Text
  pub codec : Option Text
  pub file_path : Text
  pub raw_size : ℕ
  pub stored_size : ℕ
  pub row_count : Option ℕ
  pub metadata_json : Option Value
  pub created_at : ℕ

pub record ReferenceSnapshot : Type 0 where
  pub datasource : Text
  pub path : Text
  pub query_hash : Text
  pub content_hash : Text
  pub payload : Value
  pub first_seen_at : ℕ
  pub last_updated_at : ℕ
  pub esi_expires_at : Option ℕ
  pub etag : Option Text
  pub http_status : ℕ

pub record EventSnapshot : Type 0 where
  pub datasource : Text
  pub path : Text
  pub query_hash : Text
  pub content_hash : Text
  pub payload : Value
  pub fetched_at : ℕ
  pub etag : Option Text
  pub http_status : ℕ

-- `entity_id` and the texts are what the response has there; the database refuses other types.
pub record IdNameCache : Type 0 where
  pub datasource : Text
  pub entity_id : ℤ
  pub entity_name : Text
  pub category : Option Text
  pub first_seen_at : ℕ
  pub last_updated_at : ℕ

pub record MarketOrderVersion : Type 0 where
  pub datasource : Text
  pub order_id : ℤ
  pub version_hash : Text
  pub payload : Value
  pub first_seen_at : ℕ
  pub last_seen_at : ℕ

pub record MarketOrderSnapshotEntry : Type 0 where
  pub snapshot_id : ℕ
  pub order_id : ℤ
  pub version_hash : Text
  pub region_id : ℕ

-- A unique column that is NULL conflicts with nothing.
abbrev pub both_eq : Option Text → Option Text → Bool
both_eq none b = false
both_eq (some a) none = false
both_eq (some a) (some b) = text_eq a b

abbrev pub same_idempotency : TimeSeriesSnapshot → TimeSeriesSnapshot → Bool
same_idempotency a b = both_eq a.idempotency_key b.idempotency_key

abbrev pub same_blob : ArchivePayloadBlob → ArchivePayloadBlob → Bool
same_blob a b = text_eq a.content_hash b.content_hash

abbrev pub same_file : ArchiveObjectFile → ArchiveObjectFile → Bool
same_file a b = text_eq a.content_hash b.content_hash

abbrev pub same_reference : ReferenceSnapshot → ReferenceSnapshot → Bool
same_reference a b =
    text_eq a.datasource b.datasource && text_eq a.path b.path && text_eq a.query_hash b.query_hash

abbrev pub same_event : EventSnapshot → EventSnapshot → Bool
same_event a b =
    text_eq a.datasource b.datasource && text_eq a.path b.path && text_eq a.query_hash b.query_hash

-- All tables, and the sequences of the two that number their rows. A rollback takes the sequences
-- back too, which shows in the numbers alone.
pub record Tables (pg : Postgres) : Type 0 where
  pub timeseries : pg.Table TimeSeriesSnapshot
  pub blobs : pg.Table ArchivePayloadBlob
  pub files : pg.Table ArchiveObjectFile
  pub references : pg.Table ReferenceSnapshot
  pub events : pg.Table EventSnapshot
  pub names : pg.Table IdNameCache
  pub versions : pg.Table MarketOrderVersion
  pub entries : pg.Table MarketOrderSnapshotEntry
  pub next_timeseries : ℕ
  pub next_file : ℕ

abbrev pub int_same : ℤ → ℤ → Bool
int_same (pos a) (pos b) = a == b
int_same (negsuc a) (negsuc b) = a == b
int_same _ _ = false

abbrev pub same_name : IdNameCache → IdNameCache → Bool
same_name a b = text_eq a.datasource b.datasource && int_same a.entity_id b.entity_id

abbrev pub same_version : MarketOrderVersion → MarketOrderVersion → Bool
same_version a b =
    text_eq a.datasource b.datasource
    && int_same a.order_id b.order_id
    && text_eq a.version_hash b.version_hash

abbrev pub same_entry : MarketOrderSnapshotEntry → MarketOrderSnapshotEntry → Bool
same_entry a b = a.snapshot_id == b.snapshot_id && int_same a.order_id b.order_id
