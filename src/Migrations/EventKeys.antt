-- ===== src/Migrations/EventKeys.antt =====
-- alembic/versions/0004_event_query_hash.py
use eve_api_cache.Base.{none, List, [], ◌∷◌, Text, text}
use eve_api_cache.Ddl.{
  Operation, add_column, drop_column, create_primary_key, drop_constraint, alter_server_default,
  string,
}
use eve_api_cache.Migrations.Columns.{required, defaulted}

-- `_EMPTY_PARAMS_HASH`
abbrev pub empty_params_hash : Text
empty_params_hash = text "44136fa355b3678a"

abbrev pub upgrade : List Operation
upgrade =
    add_column (text "archive_events")
      (defaulted empty_params_hash (required (text "query_hash") (string 16)))
    ∷ drop_constraint (text "archive_events_pkey") (text "archive_events")
    ∷ create_primary_key (text "archive_events_pkey") (text "archive_events")
        (text "datasource" ∷ text "path" ∷ text "query_hash" ∷ [])
    ∷ alter_server_default (text "archive_events") (text "query_hash") none
    ∷ []

abbrev pub downgrade : List Operation
downgrade =
    drop_constraint (text "archive_events_pkey") (text "archive_events")
    ∷ create_primary_key (text "archive_events_pkey") (text "archive_events")
        (text "datasource" ∷ text "path" ∷ [])
    ∷ drop_column (text "archive_events") (text "query_hash")
    ∷ []
