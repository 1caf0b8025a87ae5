-- ===== src/Migrations/Declared.antt =====
-- The tables that app/db.py declares, as the operations of `Base.metadata.create_all`. The `default`
-- of `EventSnapshot.query_hash` is the ORM's own and no part of the table.
use eve_api_cache.Base.{none, some, List, [], ◌∷◌, ◌++◌, text}
use eve_api_cache.Ddl.{
  Operation, create_table, create_index, big_integer, small_integer, text_type, json_b,
  timestamp_tz, large_binary, string, unique,
}
use eve_api_cache.Migrations.Columns.{nullable, required, key, numbered}

-- `TimeSeriesSnapshot`
abbrev pub time_series_snapshot_table : List Operation
time_series_snapshot_table =
    create_table (text "archive_timeseries")
      (numbered (key (text "id") big_integer)
        ∷ required (text "datasource") (string 20)
        ∷ required (text "path") text_type
        ∷ required (text "query_hash") (string 16)
        ∷ required (text "content_hash") (string 64)
        ∷ nullable (text "idempotency_key") (string 64)
        ∷ nullable (text "payload") json_b
        ∷ nullable (text "payload_storage") (string 30)
        ∷ nullable (text "parquet_manifest_id") big_integer
        ∷ required (text "fetched_at") timestamp_tz
        ∷ nullable (text "esi_expires_at") timestamp_tz
        ∷ nullable (text "etag") (string 255)
        ∷ required (text "http_status") small_integer
        ∷ [])
      (unique (text "uq_timeseries_snapshot") (
          text "datasource"
          ∷ text "path"
          ∷ text "query_hash"
          ∷ text "fetched_at"
          ∷ text "content_hash"
          ∷ [])
        ∷ unique (text "uq_timeseries_idempotency") (text "idempotency_key" ∷ [])
        ∷ [])
      (record {
        name = text "archive_timeseries_parquet_manifest_id_fkey";
        table = text "archive_timeseries";
        columns = text "parquet_manifest_id" ∷ [];
        target = text "archive_object_files";
        target_columns = text "id" ∷ [];
        ondelete = none;
      }
        ∷ [])
    ∷ create_index (text "ix_timeseries_lookup") (text "archive_timeseries")
        (text "datasource" ∷ text "path" ∷ text "query_hash" ∷ text "fetched_at" ∷ [])
    ∷ []

-- `ArchivePayloadBlob`
abbrev pub archive_payload_blob_table : List Operation
archive_payload_blob_table =
    create_table (text "archive_payload_blobs")
      (key (text "content_hash") (string 64)
        ∷ required (text "payload_codec") (string 20)
        ∷ required (text "payload_compressed") large_binary
        ∷ required (text "raw_size") big_integer
        ∷ required (text "compressed_size") big_integer
        ∷ required (text "storage_format") (string 30)
        ∷ required (text "created_at") timestamp_tz
        ∷ [])
      ([]) ([])
    ∷ []

-- `ArchiveObjectFile`
abbrev pub archive_object_file_table : List Operation
archive_object_file_table =
    create_table (text "archive_object_files")
      (numbered (key (text "id") big_integer)
        ∷ required (text "content_hash") (string 64)
        ∷ required (text "datasource") (string 20)
        ∷ required (text "path") text_type
        ∷ required (text "query_hash") (string 16)
        ∷ required (text "fetched_at") timestamp_tz
        ∷ required (text "storage_format") (string 30)
        ∷ nullable (text "codec") (string 20)
        ∷ required (text "file_path") text_type
        ∷ required (text "raw_size") big_integer
        ∷ required (text "stored_size") big_integer
        ∷ nullable (text "row_count") big_integer
        ∷ nullable (text "metadata") json_b
        ∷ required (text "created_at") timestamp_tz
        ∷ [])
      (unique (text "archive_object_files_content_hash_key") (text "content_hash" ∷ []) ∷ []) ([])
    ∷ create_index (text "ix_archive_object_files_lookup") (text "archive_object_files")
        (text "datasource" ∷ text "path" ∷ text "query_hash" ∷ text "fetched_at" ∷ [])
    ∷ []

-- `ReferenceSnapshot`
abbrev pub reference_snapshot_table : List Operation
reference_snapshot_table =
    create_table (text "archive_reference")
      (key (text "datasource") (string 20)
        ∷ key (text "path") text_type
        ∷ key (text "query_hash") (string 16)
        ∷ required (text "content_hash") (string 64)
        ∷ required (text "payload") json_b
        ∷ required (text "first_seen_at") timestamp_tz
        ∷ required (text "last_updated_at") timestamp_tz
        ∷ nullable (text "esi_expires_at") timestamp_tz
        ∷ nullable (text "etag") (string 255)
        ∷ required (text "http_status") small_integer
        ∷ [])
      ([]) ([])
    ∷ []

-- `EventSnapshot`
abbrev pub event_snapshot_table : List Operation
event_snapshot_table =
    create_table (text "archive_events")
      (key (text "datasource") (string 20)
        ∷ key (text "path") text_type
        ∷ key (text "query_hash") (string 16)
        ∷ required (text "content_hash") (string 64)
        ∷ required (text "payload") json_b
        ∷ required (text "fetched_at") timestamp_tz
        ∷ nullable (text "etag") (string 255)
        ∷ required (text "http_status") small_integer
        ∷ [])
      ([]) ([])
    ∷ []

-- `IdNameCache`
abbrev pub id_name_cache_table : List Operation
id_name_cache_table =
    create_table (text "id_name_cache")
      (key (text "datasource") (string 20)
        ∷ key (text "entity_id") big_integer
        ∷ required (text "entity_name") text_type
        ∷ nullable (text "category") (string 50)
        ∷ required (text "first_seen_at") timestamp_tz
        ∷ required (text "last_updated_at") timestamp_tz
        ∷ [])
      ([]) ([])
    ∷ []

-- `MarketOrderVersion`
abbrev pub market_order_version_table : List Operation
market_order_version_table =
    create_table (text "market_order_versions")
      (key (text "datasource") (string 20)
        ∷ key (text "order_id") big_integer
        ∷ key (text "version_hash") (string 64)
        ∷ required (text "payload") json_b
        ∷ required (text "first_seen_at") timestamp_tz
        ∷ required (text "last_seen_at") timestamp_tz
        ∷ [])
      ([]) ([])
    ∷ []

-- `MarketOrderSnapshotEntry`
abbrev pub market_order_snapshot_entry_table : List Operation
market_order_snapshot_entry_table =
    create_table (text "market_order_snapshot_entries")
      (key (text "snapshot_id") big_integer
        ∷ key (text "order_id") big_integer
        ∷ required (text "version_hash") (string 64)
        ∷ required (text "region_id") big_integer
        ∷ [])
      ([])
      (record {
        name = text "market_order_snapshot_entries_snapshot_id_fkey";
        table = text "market_order_snapshot_entries";
        columns = text "snapshot_id" ∷ [];
        target = text "archive_timeseries";
        target_columns = text "id" ∷ [];
        ondelete = some (text "CASCADE");
      }
        ∷ [])
    ∷ create_index (text "ix_market_order_snapshot_entries_order")
        (text "market_order_snapshot_entries") (text "order_id" ∷ text "version_hash" ∷ [])
    ∷ create_index (text "ix_market_order_snapshot_entries_region")
        (text "market_order_snapshot_entries") (text "region_id" ∷ [])
    ∷ []

-- A table stands behind those that its foreign keys name.
abbrev pub create_all : List Operation
create_all =
    archive_object_file_table
    ++ (archive_payload_blob_table
        ++ (reference_snapshot_table
            ++ (event_snapshot_table
                ++ (id_name_cache_table
                    ++ (market_order_version_table
                        ++ (time_series_snapshot_table ++ (market_order_snapshot_entry_table)))))))
