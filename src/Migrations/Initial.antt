-- ===== src/Migrations/Initial.antt =====
-- alembic/versions/0001_initial_schema.py
use eve_api_cache.Base.{List, [], ◌∷◌, text}
use eve_api_cache.Ddl.{
  Operation, create_table, drop_table, create_index, drop_index, big_integer, small_integer,
  text_type, json_b, timestamp_tz, string, primary_key, unique,
}
use eve_api_cache.Migrations.Columns.{nullable, required, key, numbered}

abbrev pub upgrade : List Operation
upgrade =
    create_table (text "archive_timeseries")
      (numbered (key (text "id") big_integer)
        ∷ required (text "datasource") (string 20)
        ∷ required (text "path") text_type
        ∷ required (text "query_hash") (string 16)
        ∷ required (text "content_hash") (string 64)
        ∷ required (text "payload") json_b
        ∷ required (text "fetched_at") timestamp_tz
        ∷ nullable (text "esi_expires_at") timestamp_tz
        ∷ nullable (text "etag") (string 255)
        ∷ required (text "http_status") small_integer
        ∷ [])
      (unique (text "uq_timeseries_snapshot") (
          text "datasource"
          ∷ text "path"
          ∷ text "query_hash"
          ∷ text "fetched_at"
          ∷ text "content_hash"
          ∷ [])
        ∷ [])
      ([])
    ∷ create_index (text "ix_timeseries_lookup") (text "archive_timeseries")
        (text "datasource" ∷ text "path" ∷ text "query_hash" ∷ text "fetched_at" ∷ [])
    ∷ create_table (text "archive_reference")
        (key (text "datasource") (string 20)
          ∷ key (text "path") text_type
          ∷ key (text "query_hash") (string 16)
          ∷ required (text "content_hash") (string 64)
          ∷ required (text "payload") json_b
          ∷ required (text "first_seen_at") timestamp_tz
          ∷ required (text "last_updated_at") timestamp_tz
          ∷ nullable (text "esi_expires_at") timestamp_tz
          ∷ nullable (text "etag") (string 255)
          ∷ required (text "http_status") small_integer
          ∷ [])
        (primary_key (text "archive_reference_pkey")
            (text "datasource" ∷ text "path" ∷ text "query_hash" ∷ [])
          ∷ [])
        ([])
    ∷ create_table (text "archive_events")
        (key (text "datasource") (string 20)
          ∷ key (text "path") text_type
          ∷ required (text "content_hash") (string 64)
          ∷ required (text "payload") json_b
          ∷ required (text "fetched_at") timestamp_tz
          ∷ nullable (text "etag") (string 255)
          ∷ required (text "http_status") small_integer
          ∷ [])
        (primary_key (text "archive_events_pkey") (text "datasource" ∷ text "path" ∷ []) ∷ []) ([])
    ∷ create_table (text "id_name_cache")
        (key (text "datasource") (string 20)
          ∷ key (text "entity_id") big_integer
          ∷ required (text "entity_name") text_type
          ∷ nullable (text "category") (string 50)
          ∷ required (text "first_seen_at") timestamp_tz
          ∷ required (text "last_updated_at") timestamp_tz
          ∷ [])
        (primary_key (text "id_name_cache_pkey") (text "datasource" ∷ text "entity_id" ∷ []) ∷ [])
        ([])
    ∷ []

abbrev pub downgrade : List Operation
downgrade =
    drop_table (text "id_name_cache")
    ∷ drop_table (text "archive_events")
    ∷ drop_table (text "archive_reference")
    ∷ drop_index (text "ix_timeseries_lookup") (text "archive_timeseries")
    ∷ drop_table (text "archive_timeseries")
    ∷ []
