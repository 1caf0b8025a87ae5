-- ===== src/Archive/Orders.antt =====
-- The Parquet file of a market-order snapshot and the versions of its orders: `_write_market_orders_parquet`
-- and `_write_market_order_deltas` of app/archive.py.
use eve_api_cache.Base.{
  ℕ, ◌+◌, Bool, true, false, Option, none, some, List, [], ◌∷◌, ◌++◌, find, take, length,
  if◌then◌else◌, Text, Bytes, text, text_eq,
}
use eve_api_cache.Base.Exec.{
  Exec, Result, ok, raise, value_error, type_error, runtime_error, pure, throw, when, ◌>>=◌, ◌>>◌,
}
use eve_api_cache.Base.Ints.{ℤ, pos, negate, int_of, str_nat}
use eve_api_cache.Json.{Value, Members, bool, int, float, str, list, object, member, end, elements}
use eve_api_cache.Postgres.{do_nothing, do_update, returned}
use eve_api_cache.Archive.Batches.{chunks}
use eve_api_cache.Archive.Mappings.{get_member}
use eve_api_cache.Archive.Tables.{
  Tables, ArchiveObjectFile, MarketOrderVersion, MarketOrderSnapshotEntry, same_file, same_version,
  same_entry,
}
use eve_api_cache.Archive.Sessions.{ArchiveEnv, Session, execute}
use eve_api_cache.Archive.Keys.{market_orders_region_id}

-- A Boolean is a number to `int`.
abbrev pub bit : Bool → ℤ
bit true = pos 1
bit false = pos 0

abbrev pub or_value_error : Option ℤ → Result ℤ
or_value_error none = raise value_error
or_value_error (some n) = ok n

-- `"order_id" in order`
unfoldable pub has_member : Text → Members → Bool
has_member key end = false
has_member key (member k v ms) =
    let rest = has_member key ms in if text_eq k key then true else rest

-- What a statement returns, if it goes through.
abbrev pub answer : {A B : Type 0} → Result A → B → Result B
answer (ok a) b = ok b
answer (raise e) b = raise e

-- `f"{...}"` of the path, joined by slashes
abbrev pub join_path : List Text → Text
join_path [] = []
join_path (t ∷ []) = t
join_path (t ∷ u ∷ ts) = t ++ b'/' ∷ join_path (u ∷ ts)

module _ (env : ArchiveEnv) where
  open env use {pg, json, sha256, parquet, calendar}

  -- `int(value)`
  unfoldable pub int_of_value : Value → Result ℤ
  int_of_value (int negative n) = if negative then ok (negate n) else ok (pos n)
  int_of_value (str t) = or_value_error (int_of t)
  int_of_value (bool b) = ok (bit b)
  int_of_value (float t) = env.int_of_float t
  int_of_value _ = raise type_error

  -- `_get_object_file_id_by_content_hash`
  abbrev pub file_id : Text → Tables pg → Option ℕ
  file_id content_hash t =
      elim (find (λ f. text_eq f.content_hash content_hash) (pg.rows t.files)) [
        | none ↦ none
        | some f ↦ some f.id
      ]

  unfoldable pub get_object_file_id_by_content_hash : Text → Exec (Session env) (Option ℕ)
  get_object_file_id_by_content_hash content_hash =
      execute env (λ t. (ok (file_id content_hash t), t))

  -- `relative_path`
  unfoldable pub relative_path : Text → ℕ → Text → ℕ → Text
  relative_path datasource region_id content_hash fetched_at = join_path (
      text "markets"
      ∷ text "orders"
      ∷ (text "datasource=" ++ datasource)
      ∷ (text "region_id=" ++ str_nat region_id)
      ∷ (text "date=" ++ calendar.strftime (text "%Y-%m-%d") fetched_at)
      ∷ (text "snapshot_"
          ++ (calendar.strftime (text "%Y%m%dT%H%M%SZ") fetched_at
              ++ (b'_' ∷ take 12 content_hash ++ text ".parquet")))
      ∷ [])

  -- `pq.write_table`, below the directory of the archive
  unfoldable pub write_table_at : Text → List Value → Exec (Session env) ℕ
  write_table_at path orders s =
      let (r, disk) = parquet.write_table path orders s.disk in (r, record s { disk = disk })

  unfoldable pub write_file_at : Text → List Value → Exec (Session env) (Text × ℕ)
  write_file_at path orders = do size ← write_table_at path orders; pure (path, size)

  -- `_write_market_orders_parquet_file`
  unfoldable pub write_market_orders_parquet_file :
      Text → ℕ → Text → ℕ → List Value → Exec (Session env) (Text × ℕ)
  write_market_orders_parquet_file datasource region_id content_hash fetched_at orders =
      if parquet.available
      then write_file_at (relative_path datasource region_id content_hash fetched_at) orders
      else throw runtime_error

  -- `pg_insert(ArchiveObjectFile)...returning(ArchiveObjectFile.id)`
  unfoldable pub insert_file : (ℕ → ArchiveObjectFile) → Exec (Session env) (Option ℕ)
  insert_file row = execute env (λ t.
      let (r, files) = pg.insert same_file do_nothing (row t.next_file ∷ []) t.files in
      (
        answer r (returned same_file (row t.next_file) t.next_file (pg.rows t.files)),
        record t { files = files; next_file = t.next_file + 1 },
      ))

  abbrev pub file_row :
      Text → Text → Text → Text → ℕ → Text → ℕ → ℕ → ℕ → Value → ℕ → ArchiveObjectFile
  file_row content_hash datasource path query_hash fetched_at file_path raw_size stored_size
        row_count metadata id =
      record {
        id = id;
        content_hash = content_hash;
        datasource = datasource;
        path = path;
        query_hash = query_hash;
        fetched_at = fetched_at;
        storage_format = text "parquet";
        codec = some (text "zstd");
        file_path = file_path;
        raw_size = raw_size;
        stored_size = stored_size;
        row_count = some row_count;
        metadata_json = some metadata;
        created_at = fetched_at;
      }

  -- The manifest of a content hash that has none yet; one that a concurrent writer inserted first
  -- is used.
  unfoldable pub new_manifest :
      ℕ → Text → ℕ → Text → Text → Text → Bytes → List Value → ℕ → Exec (Session env) (Option ℕ)
  new_manifest snapshot_id datasource region_id path query_hash content_hash payload orders
        fetched_at =
      do
        written ←
            write_market_orders_parquet_file datasource region_id content_hash fetched_at orders
        inserted ← insert_file (
            file_row content_hash datasource path query_hash fetched_at written.0 (length payload)
              written.1 (length orders)
              (object (
                member (text "region_id") (int false region_id)
                  (member (text "snapshot_id") (int false snapshot_id) end))))
        elim inserted [
          | some id ↦ pure (some id)
          | none ↦ get_object_file_id_by_content_hash content_hash
        ]

  unfoldable pub find_manifest :
      ℕ → Text → ℕ → Text → Text → Text → Bytes → List Value → ℕ → Exec (Session env) (Option ℕ)
  find_manifest snapshot_id datasource region_id path query_hash content_hash payload orders
        fetched_at =
      do
        existing ← get_object_file_id_by_content_hash content_hash
        elim existing [
          | some id ↦ pure (some id)
          | none ↦
              new_manifest snapshot_id datasource region_id path query_hash content_hash payload
                orders fetched_at
        ]

  -- The two rows of each order with an id.
  abbrev pub OrderRows : Type 0
  OrderRows = List MarketOrderVersion × List MarketOrderSnapshotEntry

  abbrev pub order_rows : ℕ → Text → ℕ → ℕ → Value → Result ℤ → Result OrderRows → Result OrderRows
  order_rows snapshot_id datasource region_id fetched_at order (raise e) rest = raise e
  order_rows snapshot_id datasource region_id fetched_at order (ok order_id) (raise e) = raise e
  order_rows snapshot_id datasource region_id fetched_at order (ok order_id)
        (ok (versions, entries)) =
      ok (
        record {
          datasource = datasource;
          order_id = order_id;
          version_hash = sha256 (json.dumps_compact order);
          payload = order;
          first_seen_at = fetched_at;
          last_seen_at = fetched_at;
        }
            ∷ versions,
        record {
          snapshot_id = snapshot_id;
          order_id = order_id;
          version_hash = sha256 (json.dumps_compact order);
          region_id = region_id;
        }
            ∷ entries,
      )

  -- The loop over the orders; the others are skipped.
  unfoldable pub delta_rows : ℕ → Text → ℕ → ℕ → List Value → Result OrderRows
  delta_rows snapshot_id datasource region_id fetched_at [] = ok ([], [])
  delta_rows snapshot_id datasource region_id fetched_at (object order ∷ orders) =
      let rest = delta_rows snapshot_id datasource region_id fetched_at orders in
      if has_member (text "order_id") order
      then order_rows snapshot_id datasource region_id fetched_at (object order)
          (int_of_value (get_member (text "order_id") order)) rest
      else rest
  delta_rows snapshot_id datasource region_id fetched_at (_ ∷ orders) =
      delta_rows snapshot_id datasource region_id fetched_at orders

  abbrev pub seen_at : ℕ → MarketOrderVersion → MarketOrderVersion → MarketOrderVersion
  seen_at fetched_at old new = record old { last_seen_at = fetched_at }

  unfoldable pub insert_versions :
      ℕ → List (List MarketOrderVersion) → Exec (Session env) (Unit {0})
  insert_versions fetched_at [] = pure tt
  insert_versions fetched_at (batch ∷ batches) = do
    execute env (λ t.
        let (r, versions) =
          pg.insert same_version (do_update (seen_at fetched_at)) batch t.versions in
        (r, record t { versions = versions }))
    insert_versions fetched_at batches

  unfoldable pub insert_entries :
      List (List MarketOrderSnapshotEntry) → Exec (Session env) (Unit {0})
  insert_entries [] = pure tt
  insert_entries (batch ∷ batches) = do
    execute env (λ t.
        let (r, entries) = pg.insert same_entry do_nothing batch t.entries in
        (r, record t { entries = entries }))
    insert_entries batches

  abbrev pub insert_deltas : ℕ → Result OrderRows → Exec (Session env) (Unit {0})
  insert_deltas fetched_at (raise e) = throw e
  insert_deltas fetched_at (ok (versions, entries)) = do
    insert_versions fetched_at (chunks versions 1000)
    insert_entries (chunks entries 1000)

  -- `_write_market_order_deltas`
  unfoldable pub write_market_order_deltas :
      ℕ → Text → ℕ → List Value → ℕ → Exec (Session env) (Unit {0})
  write_market_order_deltas snapshot_id datasource region_id orders fetched_at =
      insert_deltas fetched_at (delta_rows snapshot_id datasource region_id fetched_at orders)

  -- The list that a payload loads as.
  abbrev pub order_list : Option Value → Result (List Value)
  order_list none = raise value_error
  order_list (some (list orders)) = ok (elements orders)
  order_list (some _) = raise value_error

  -- From the orders on.
  unfoldable pub write_orders :
      ℕ
      → Text
      → ℕ
      → Text
      → Text
      → Text
      → Bytes
      → ℕ
      → Result (List Value)
      → Exec (Session env) (Option ℕ)
  write_orders snapshot_id datasource region_id path query_hash content_hash payload fetched_at
        (raise e) =
      throw e
  write_orders snapshot_id datasource region_id path query_hash content_hash payload fetched_at
        (ok orders) =
      do
        manifest_id ←
            find_manifest snapshot_id datasource region_id path query_hash content_hash payload
              orders fetched_at
        when env.enable_market_order_deltas
            (write_market_order_deltas snapshot_id datasource region_id orders fetched_at)
        pure manifest_id

  -- `_write_market_orders_parquet`
  unfoldable pub write_market_orders_parquet :
      ℕ → Text → Text → Text → Text → Bytes → ℕ → Exec (Session env) (Option ℕ)
  write_market_orders_parquet snapshot_id datasource path query_hash content_hash payload
        fetched_at =
      elim (market_orders_region_id path) [
        | none ↦ throw value_error
        | some region_id ↦
            write_orders snapshot_id datasource region_id path query_hash content_hash payload
              fetched_at (order_list (json.loads payload))
      ]
