-- ===== src/Migrations/Idempotency.antt =====
-- alembic/versions/0002_timeseries_idempotency_key.py
use eve_api_cache.Base.{List, [], ◌∷◌, text}
use eve_api_cache.Ddl.{
  Operation, add_column, drop_column, create_unique_constraint, drop_constraint, string,
}
use eve_api_cache.Migrations.Columns.{nullable}

abbrev pub upgrade : List Operation
upgrade =
    add_column (text "archive_timeseries") (nullable (text "idempotency_key") (string 64))
    ∷ create_unique_constraint (text "uq_timeseries_idempotency") (text "archive_timeseries")
        (text "idempotency_key" ∷ [])
    ∷ []

abbrev pub downgrade : List Operation
downgrade =
    drop_constraint (text "uq_timeseries_idempotency") (text "archive_timeseries")
    ∷ drop_column (text "archive_timeseries") (text "idempotency_key")
    ∷ []
