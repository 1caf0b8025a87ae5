-- ===== src/Archive/Untouched.antt =====
-- The statements of app/archive.py and what they leave alone.
use eve_api_cache.Base.{ℕ, Option, none, some, List, [], ◌∷◌, Text, Bytes, Bool-cases, inl, inr}
use eve_api_cache.Base.Exec.{Exec, Result, ok, raise, value_error, runtime_error, pure, throw}
use eve_api_cache.Base.Keeps.{
  Keeps, pure-Keeps, throw-Keeps, bind-Keeps, then-Keeps, when-Keeps, if-Keeps,
}
use eve_api_cache.Json.{Value}
use eve_api_cache.Archive.Tables.{
  Tables, MarketOrderVersion, MarketOrderSnapshotEntry, ArchiveObjectFile,
}
use eve_api_cache.Archive.Sessions.{ArchiveEnv, Session, execute}
use eve_api_cache.Archive.Keys.{market_orders_region_id}
use eve_api_cache.Archive.Orders.{
  OrderRows, get_object_file_id_by_content_hash, write_market_orders_parquet_file, write_table_at,
  write_file_at, insert_file, new_manifest, find_manifest, insert_versions, insert_entries,
  insert_deltas, write_market_order_deltas, order_list, write_orders, write_market_orders_parquet,
}

module _ (env : ArchiveEnv) where
  open env use {pg, json}

  -- A property of the tables and of what is committed.
  abbrev pub Both : (Tables pg → Type 0) → (Tables pg → Type 0) → Session env → Type 0
  Both P C s = P s.working × C s.committed

  module _ (P C : Tables pg → Type 0) where
    pub execute-Keeps :
        {A : Type 0} (f : Tables pg → Result A × Tables pg)
        → ((t : Tables pg) → P t → P (f t).1)
        → Keeps (Both P C) (execute env f)
    unfolding execute
    execute-Keeps f h = record {
      at = λ s p. elim (Bool-cases (env.up s.sent)) [
        | inl up ↦ rw up (h s.working p.0, p.1)
        | inr down ↦ rw down p
      ];
    }

  -- A property that the tables of the market orders have no part in.
  pub record IsApart (P : Tables pg → Type 0) : Type 0 where
    pub files :
        (t : Tables pg) (x : pg.Table ArchiveObjectFile) (n : ℕ)
        → P t
        → P (record t { files = x; next_file = n })
    pub versions :
        (t : Tables pg) (x : pg.Table MarketOrderVersion) → P t → P (record t { versions = x })
    pub entries :
        (t : Tables pg) (x : pg.Table MarketOrderSnapshotEntry) → P t → P (record t { entries = x })

  module _ (P C : Tables pg → Type 0) (apart : IsApart P) where
    get_file-Keeps : (h : Text) → Keeps (Both P C) (get_object_file_id_by_content_hash env h)
    unfolding get_object_file_id_by_content_hash
    get_file-Keeps h = execute-Keeps P C _ (λ t p. p)

    write_table_at-Keeps :
        (path : Text) (orders : List Value) → Keeps (Both P C) (write_table_at env path orders)
    unfolding write_table_at
    write_table_at-Keeps path orders = record { at = λ s p. p }

    write_file_at-Keeps :
        (path : Text) (orders : List Value) → Keeps (Both P C) (write_file_at env path orders)
    unfolding write_file_at
    write_file_at-Keeps path orders =
        bind-Keeps (write_table_at-Keeps path orders) (λ size. pure-Keeps (path, size))

    write_file-Keeps :
        (datasource : Text) (region_id : ℕ) (content_hash : Text) (fetched_at : ℕ)
        (orders : List Value)
        → Keeps (Both P C) (
            write_market_orders_parquet_file env datasource region_id content_hash fetched_at
              orders)
    unfolding write_market_orders_parquet_file
    write_file-Keeps datasource region_id content_hash fetched_at orders =
        if-Keeps env.parquet.available (write_file_at-Keeps _ orders) (throw-Keeps runtime_error)

    insert_file-Keeps : (row : ℕ → ArchiveObjectFile) → Keeps (Both P C) (insert_file env row)
    unfolding insert_file
    insert_file-Keeps row = execute-Keeps P C _ (λ t p. apart.files t _ _ p)

    insert_versions-Keeps :
        (now : ℕ) (batches : List (List MarketOrderVersion))
        → Keeps (Both P C) (insert_versions env now batches)
    unfolding insert_versions
    insert_versions-Keeps now [] = pure-Keeps tt
    insert_versions-Keeps now (b ∷ batches) =
        then-Keeps (execute-Keeps P C _ (λ t p. apart.versions t _ p))
          (insert_versions-Keeps now batches)

    insert_entries-Keeps :
        (batches : List (List MarketOrderSnapshotEntry))
        → Keeps (Both P C) (insert_entries env batches)
    unfolding insert_entries
    insert_entries-Keeps [] = pure-Keeps tt
    insert_entries-Keeps (b ∷ batches) =
        then-Keeps (execute-Keeps P C _ (λ t p. apart.entries t _ p)) (insert_entries-Keeps batches)

    insert_deltas-Keeps :
        (now : ℕ) (rows : Result (OrderRows env)) → Keeps (Both P C) (insert_deltas env now rows)
    insert_deltas-Keeps now (raise e) = throw-Keeps e
    insert_deltas-Keeps now (ok (versions, entries)) =
        then-Keeps (insert_versions-Keeps now _) (insert_entries-Keeps _)

    known-Keeps :
        {A : Type 0} (o : Option A) (m : Exec (Session env) (Option A))
        → Keeps (Both P C) m
        → Keeps (Both P C) (elim o [ some a ↦ pure (some a) | none ↦ m ])
    known-Keeps none m h = h
    known-Keeps (some a) m h = pure-Keeps (some a)

    new_manifest-Keeps :
        (id : ℕ) (ds : Text) (region : ℕ) (path qh ch : Text) (payload : Bytes)
        (orders : List Value) (now : ℕ)
        → Keeps (Both P C) (new_manifest env id ds region path qh ch payload orders now)
    unfolding new_manifest
    new_manifest-Keeps id ds region path qh ch payload orders now =
        bind-Keeps (write_file-Keeps ds region ch now orders) (λ written.
          bind-Keeps (insert_file-Keeps _) (λ inserted. known-Keeps inserted _ (get_file-Keeps ch)))

    find_manifest-Keeps :
        (id : ℕ) (ds : Text) (region : ℕ) (path qh ch : Text) (payload : Bytes)
        (orders : List Value) (now : ℕ)
        → Keeps (Both P C) (find_manifest env id ds region path qh ch payload orders now)
    unfolding find_manifest
    find_manifest-Keeps id ds region path qh ch payload orders now =
        bind-Keeps (get_file-Keeps ch) (λ existing.
          known-Keeps existing _ (new_manifest-Keeps id ds region path qh ch payload orders now))

    write_orders-Keeps :
        (id : ℕ) (ds : Text) (region : ℕ) (path qh ch : Text) (payload : Bytes) (now : ℕ)
        (orders : Result (List Value))
        → Keeps (Both P C) (write_orders env id ds region path qh ch payload now orders)
    unfolding write_orders write_market_order_deltas
    write_orders-Keeps id ds region path qh ch payload now (raise e) = throw-Keeps e
    write_orders-Keeps id ds region path qh ch payload now (ok orders) =
        bind-Keeps (find_manifest-Keeps id ds region path qh ch payload orders now) (λ manifest.
          then-Keeps (when-Keeps env.enable_market_order_deltas (insert_deltas-Keeps now _))
            (pure-Keeps manifest))

    -- Writing the Parquet file and the versions of the orders keeps every property that their tables
    -- have no part in.
    pub write_market_orders_parquet-Keeps :
        (id : ℕ) (ds path qh ch : Text) (payload : Bytes) (now : ℕ)
        → Keeps (Both P C) (write_market_orders_parquet env id ds path qh ch payload now)
    unfolding write_market_orders_parquet
    write_market_orders_parquet-Keeps id ds path qh ch payload now =
        region_Keeps (market_orders_region_id path)
      where
        region_Keeps :
            (region : Option ℕ)
            → Keeps {A = Option ℕ} (Both P C) (elim region [
              | none ↦ throw value_error
              | some region_id ↦
                  write_orders env id ds region_id path qh ch payload now
                    (order_list env (json.loads payload))
            ])
        region_Keeps none = throw-Keeps value_error
        region_Keeps (some region) = write_orders-Keeps id ds region path qh ch payload now _
