-- ===== src/Examples/Snapshots.antt =====
-- Runs of `write_snapshot` and `get_latest_payload` on a database of lists.
use eve_api_cache.Base.{
  ℕ, ◌≡◌, refl, Bool, true, false, none, some, [], ◌∷◌, inl, Text, Bytes, text, ltb,
}
use eve_api_cache.Base.Exec.{ok, raise, database_error}
use eve_api_cache.Base.Ints.{pos}
use eve_api_cache.Json.{Value, Values, int, list, object, nil, cons, end, member, elements}
use eve_api_cache.Allowlist.Endpoints.{time_series}
use eve_api_cache.Allowlist.Pattern.{at_end, is_digit}
use eve_api_cache.Postgres.{Any, repeats}
use eve_api_cache.Archive.Mappings.{get_member}
use eve_api_cache.Archive.Tables.{MarketOrderVersion, MarketOrderSnapshotEntry, same_version}
use eve_api_cache.Archive.Batches.{chunks, chunks_from}
use eve_api_cache.Archive.Sessions.{ArchiveEnv, Session, execute, commit, rollback}
use eve_api_cache.Archive.Keys.{
  bucket, market_orders_region_id, behind_segment, behind_literal, digit_run,
}
use eve_api_cache.Archive.Orders.{
  write_market_orders_parquet, delta_rows, has_member, int_of_value, OrderRows,
}
use eve_api_cache.Archive.Snapshots.{
  Snapshot, write_snapshot, write_rows, write_timeseries, write_payload_blob, write_parquet,
}
use eve_api_cache.Archive.Reads.{get_latest_payload}
use eve_api_cache.Archive.Atomic.{rollback-write_snapshot}
use eve_api_cache.Archive.RoundTrip.{get_latest_payload-write_snapshot}
use eve_api_cache.Archive.Retry.{row_counts, write_snapshot_again}
use eve_api_cache.Archive.Repeats.{write_market_orders_parquet_repeated}
use eve_api_cache.Examples.Database.{archive_env, no_rows}

abbrev pub always : ℕ → Bool
always n = true

abbrev twice_only : ℕ → Bool
twice_only n = ltb n 2

abbrev pub fresh : (up : ℕ → Bool) → Session (archive_env up)
fresh up = record { committed = no_rows; working = no_rows; disk = λ path. none; sent = 0 }

abbrev snapshot : Text → Snapshot
snapshot path = record {
  datasource = text "tranquility";
  path = path;
  query_hash = text "{}";
  content_hash = text "[1]";
  payload = text "[1]";
  http_status = 200;
  etag = none;
  expires_at = none;
  archive_type = time_series;
}

abbrev pub incursions : Snapshot
incursions = snapshot (text "/v1/incursions/")

-- The server is lost before the commit.
lost :
    (write_snapshot (archive_env twice_only) incursions 90 (fresh twice_only)).0
    ≡ raise database_error
unfolding write_snapshot write_rows write_timeseries write_payload_blob execute commit write_parquet
    market_orders_region_id behind_segment behind_literal
lost = refl

rollback-write_snapshot_example :
    ((rollback
        (archive_env twice_only)
        (write_snapshot (archive_env twice_only) incursions 90 (fresh twice_only)).1).working
      ≡ no_rows)
    × ((rollback
          (archive_env twice_only)
          (write_snapshot (archive_env twice_only) incursions 90 (fresh twice_only)).1).committed
        ≡ no_rows)
rollback-write_snapshot_example =
    rollback-write_snapshot (archive_env twice_only) incursions 90 (fresh twice_only) database_error
      lost

pub written_once : (write_snapshot (archive_env always) incursions 90 (fresh always)).0 ≡ ok tt
unfolding write_snapshot write_rows write_timeseries write_payload_blob execute commit write_parquet
    market_orders_region_id behind_segment behind_literal
written_once = refl

get_latest_payload-write_snapshot_example :
    (body : Bytes) × ((get_latest_payload
          (archive_env always)
          (text "tranquility")
          (text "/v1/incursions/")
          (text "{}")
          (write_snapshot (archive_env always) incursions 90 (fresh always)).1
        ≡ ok (some body))
      × ((body ≡ text "[1]")
          × ((write_snapshot (archive_env always) incursions 90 (fresh always)).1.committed
              ≡ (write_snapshot (archive_env always) incursions 90 (fresh always)).1.working)))
get_latest_payload-write_snapshot_example =
    get_latest_payload-write_snapshot (archive_env always) incursions 90 (fresh always) refl refl tt
      tt tt written_once refl

same_minute : bucket (archive_env always).calendar 90 ≡ bucket (archive_env always).calendar 100
unfolding bucket
same_minute = refl

write_snapshot_again_example :
    row_counts
      (archive_env always)
      (write_snapshot
        (archive_env always)
        incursions
        100
        (write_snapshot (archive_env always) incursions 90 (fresh always)).1).1.working
    ≡ row_counts
        (archive_env always)
        (write_snapshot (archive_env always) incursions 90 (fresh always)).1.working
write_snapshot_again_example =
    write_snapshot_again (archive_env always) incursions 90 100 (fresh always)
      (write_snapshot (archive_env always) incursions 90 (fresh always)).1 refl same_minute
      written_once refl

abbrev orders_path : Text
orders_path = text "/v1/markets/10000002/orders/"

-- A payload that lists an order twice.
abbrev order : Value
order = object (member (text "order_id") (int false 7) end)

abbrev repeated_orders : Values
repeated_orders = cons order (cons order nil)

abbrev repeating : ArchiveEnv
repeating = record (archive_env always) {
  json = record {
    loads = λ b. some (list repeated_orders);
    dumps = λ v. text "[]";
    dumps_sorted = λ v. text "{}";
    dumps_compact = λ v. text "{}";
  };
}

abbrev rows_of_orders : OrderRows repeating
rows_of_orders = (version ∷ version ∷ [], entry ∷ entry ∷ [])
  where
    version : MarketOrderVersion
    version = record {
      datasource = text "tranquility";
      order_id = pos 7;
      version_hash = text "{}";
      payload = order;
      first_seen_at = 90;
      last_seen_at = 90;
    }

    entry : MarketOrderSnapshotEntry
    entry = record {
      snapshot_id = 1;
      order_id = pos 7;
      version_hash = text "{}";
      region_id = 10000002;
    }

region_read : market_orders_region_id orders_path ≡ some 10000002
unfolding market_orders_region_id behind_segment behind_literal digit_run is_digit at_end
region_read = refl

rows_built :
    delta_rows repeating 1 (text "tranquility") 10000002 90 (elements repeated_orders)
    ≡ ok rows_of_orders
unfolding elements delta_rows has_member int_of_value get_member
rows_built = refl

version_repeats : Any (λ b. repeats same_version b ≡ true) (chunks rows_of_orders.0 1000)
unfolding chunks chunks_from
version_repeats = inl refl

write_market_orders_parquet_repeated_example : ¬ (
    (write_market_orders_parquet repeating 1
      (text "tranquility")
      orders_path
      (text "{}")
      (text "h")
      (text "[]")
      90
      (record { committed = no_rows; working = no_rows; disk = λ path. none; sent = 0 })).0
    ≡ ok (some 1))
write_market_orders_parquet_repeated_example =
    write_market_orders_parquet_repeated repeating 1 (text "tranquility") 10000002 orders_path
      (text "{}") (text "h") (text "[]") 90 repeated_orders
      (record { committed = no_rows; working = no_rows; disk = λ path. none; sent = 0 })
      rows_of_orders (some 1) refl region_read refl rows_built version_repeats
