-- ===== src/Migrations/Storage.antt =====
-- alembic/versions/0003_compressed_archive_storage.py
use eve_api_cache.Base.{true, false, none, some, List, [], ◌∷◌, text}
use eve_api_cache.Ddl.{
  Operation, create_table, drop_table, create_index, drop_index, add_column, drop_column,
  create_foreign_key, drop_constraint, alter_nullable, big_integer, text_type, json_b, timestamp_tz,
  large_binary, string, primary_key, unique,
}
use eve_api_cache.Migrations.Columns.{nullable, required, numbered}

abbrev pub upgrade : List Operation
upgrade =
    create_table (text "archive_payload_blobs")
      (required (text "content_hash") (string 64)
        ∷ required (text "payload_codec") (string 20)
        ∷ required (text "payload_compressed") large_binary
        ∷ required (text "raw_size") big_integer
        ∷ required (text "compressed_size") big_integer
        ∷ required (text "storage_format") (string 30)
        ∷ required (text "created_at") timestamp_tz
        ∷ [])
      (primary_key (text "archive_payload_blobs_pkey") (text "content_hash" ∷ []) ∷ []) ([])
    ∷ create_table (text "archive_object_files")
        (numbered (required (text "id") big_integer)
          ∷ required (text "content_hash") (string 64)
          ∷ required (text "datasource") (string 20)
          ∷ required (text "path") text_type
          ∷ required (text "query_hash") (string 16)
          ∷ required (text "fetched_at") timestamp_tz
          ∷ required (text "storage_format") (string 30)
          ∷ nullable (text "codec") (string 20)
          ∷ required (text "file_path") text_type
          ∷ required (text "raw_size") big_integer
          ∷ required (text "stored_size") big_integer
          ∷ nullable (text "row_count") big_integer
          ∷ nullable (text "metadata") json_b
          ∷ required (text "created_at") timestamp_tz
          ∷ [])
        (primary_key (text "archive_object_files_pkey") (text "id" ∷ [])
          ∷ unique (text "archive_object_files_content_hash_key") (text "content_hash" ∷ [])
          ∷ [])
        ([])
    ∷ create_index (text "ix_archive_object_files_lookup") (text "archive_object_files")
        (text "datasource" ∷ text "path" ∷ text "query_hash" ∷ text "fetched_at" ∷ [])
    ∷ add_column (text "archive_timeseries") (nullable (text "payload_storage") (string 30))
    ∷ add_column (text "archive_timeseries") (nullable (text "parquet_manifest_id") big_integer)
    ∷ create_foreign_key (record {
      name = text "fk_timeseries_parquet_manifest";
      table = text "archive_timeseries";
      columns = text "parquet_manifest_id" ∷ [];
      target = text "archive_object_files";
      target_columns = text "id" ∷ [];
      ondelete = none;
    })
    ∷ alter_nullable (text "archive_timeseries") (text "payload") true
    ∷ create_table (text "market_order_versions")
        (required (text "datasource") (string 20)
          ∷ required (text "order_id") big_integer
          ∷ required (text "version_hash") (string 64)
          ∷ required (text "payload") json_b
          ∷ required (text "first_seen_at") timestamp_tz
          ∷ required (text "last_seen_at") timestamp_tz
          ∷ [])
        (primary_key (text "market_order_versions_pkey")
            (text "datasource" ∷ text "order_id" ∷ text "version_hash" ∷ [])
          ∷ [])
        ([])
    ∷ create_table (text "market_order_snapshot_entries")
        (required (text "snapshot_id") big_integer
          ∷ required (text "order_id") big_integer
          ∷ required (text "version_hash") (string 64)
          ∷ required (text "region_id") big_integer
          ∷ [])
        (primary_key (text "market_order_snapshot_entries_pkey")
            (text "snapshot_id" ∷ text "order_id" ∷ [])
          ∷ [])
        (record {
          name = text "market_order_snapshot_entries_snapshot_id_fkey";
          table = text "market_order_snapshot_entries";
          columns = text "snapshot_id" ∷ [];
          target = text "archive_timeseries";
          target_columns = text "id" ∷ [];
          ondelete = some (text "CASCADE");
        }
          ∷ [])
    ∷ create_index (text "ix_market_order_snapshot_entries_order")
        (text "market_order_snapshot_entries") (text "order_id" ∷ text "version_hash" ∷ [])
    ∷ create_index (text "ix_market_order_snapshot_entries_region")
        (text "market_order_snapshot_entries") (text "region_id" ∷ [])
    ∷ []

abbrev pub downgrade : List Operation
downgrade =
    drop_index (text "ix_market_order_snapshot_entries_region")
      (text "market_order_snapshot_entries")
    ∷ drop_index (text "ix_market_order_snapshot_entries_order")
        (text "market_order_snapshot_entries")
    ∷ drop_table (text "market_order_snapshot_entries")
    ∷ drop_table (text "market_order_versions")
    ∷ alter_nullable (text "archive_timeseries") (text "payload") false
    ∷ drop_constraint (text "fk_timeseries_parquet_manifest") (text "archive_timeseries")
    ∷ drop_column (text "archive_timeseries") (text "parquet_manifest_id")
    ∷ drop_column (text "archive_timeseries") (text "payload_storage")
    ∷ drop_index (text "ix_archive_object_files_lookup") (text "archive_object_files")
    ∷ drop_table (text "archive_object_files")
    ∷ drop_table (text "archive_payload_blobs")
    ∷ []
