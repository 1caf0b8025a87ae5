-- ===== src/Archive/Repeats.antt =====
-- `_write_market_order_deltas` of app/archive.py on a list that names an order twice.
use eve_api_cache.Base.{
  ℕ, ◌≡◌, refl, ap, sym, ◌∙◌, subst, true, Option, none, some, List, [], ◌∷◌, inl, inr, Text, Bytes,
  arith,
}
use eve_api_cache.Base.Exec.{
  Exec, Result, ok, raise, database_error, value_error, pure, throw, when, ◌>>◌,
}
use eve_api_cache.Json.{Value, Values, list, elements}
use eve_api_cache.Postgres.{Any, do_update, repeats}
use eve_api_cache.Archive.Batches.{chunks}
use eve_api_cache.Archive.Tables.{Tables, MarketOrderVersion, same_version}
use eve_api_cache.Archive.Sessions.{ArchiveEnv, Session, execute}
use eve_api_cache.Archive.Keys.{market_orders_region_id}
use eve_api_cache.Archive.Orders.{
  OrderRows, delta_rows, seen_at, insert_versions, insert_entries, insert_deltas,
  write_market_order_deltas, order_list, find_manifest, write_orders, write_market_orders_parquet,
}
use eve_api_cache.Archive.Rows.{bind_ok, execute_ok}

module _ (env : ArchiveEnv) where
  open env use {pg, json}

  abbrev IsRepeating : List MarketOrderVersion → Type 0
  IsRepeating b = repeats same_version b ≡ true

  -- What one statement of `insert_versions` does.
  abbrev put_versions : ℕ → List MarketOrderVersion → Tables pg → Result (Unit {0}) × Tables pg
  put_versions now batch t =
      let (r, versions) = pg.insert same_version (do_update (seen_at env now)) batch t.versions in
      (r, record t { versions = versions })

  put_versions_refused :
      (now : ℕ) (batch : List MarketOrderVersion) (t : Tables pg)
      → IsRepeating batch
      → (put_versions now batch t).0 ≡ raise database_error
  put_versions_refused now batch t twice =
      rw (pg.insert_result same_version (do_update (seen_at env now)) batch t.versions, twice) refl

  insert_versions_repeated :
      (now : ℕ) (batches : List (List MarketOrderVersion)) (s : Session env)
      → Any IsRepeating batches
      → ¬ ((insert_versions env now batches s).0 ≡ ok tt)
  unfolding insert_versions
  insert_versions_repeated now [] s twice h = twice
  insert_versions_repeated now (b ∷ batches) s twice h =
      let m : Exec (Session env) (Unit {0}) = execute env (put_versions now b) in
      let (done, (first, rest)) = bind_ok m (λ _. insert_versions env now batches) s tt h in
      elim twice [
        | inl here ↦ refuse (
            sym (put_versions_refused now b s.working here)
            ∙ (execute_ok env (put_versions now b) s done first).1)
        | inr later ↦
            insert_versions_repeated now batches (m s).1 later
              (sym (ap (λ (e : Result (Unit {0}) × Session env). e.0) rest) ∙ h)
      ]
    where
      refuse : {a : Unit {0}} → raise database_error ≡ ok a → ⊥
      refuse h = absurd (ground arith)

  deltas_repeated :
      (id : ℕ) (ds : Text) (region : ℕ) (orders : List Value) (now : ℕ) (s : Session env)
      (rows : OrderRows env)
      → delta_rows env id ds region now orders ≡ ok rows
      → Any IsRepeating (chunks rows.0 1000)
      → ¬ ((write_market_order_deltas env id ds region orders now s).0 ≡ ok tt)
  unfolding write_market_order_deltas
  deltas_repeated id ds region orders now s rows built twice h =
      let (done, (first, rest)) =
        bind_ok (insert_versions env now (chunks rows.0 1000))
          (λ _. insert_entries env (chunks rows.1 1000)) s tt
          (sym (ap (λ r. (insert_deltas env now r s).0) built) ∙ h) in
      insert_versions_repeated now (chunks rows.0 1000) s twice first

  orders_repeated :
      (id : ℕ) (ds : Text) (region : ℕ) (path qh ch : Text) (payload : Bytes) (now : ℕ)
      (orders : List Value) (s : Session env) (rows : OrderRows env) (m : Option ℕ)
      → env.enable_market_order_deltas ≡ true
      → delta_rows env id ds region now orders ≡ ok rows
      → Any IsRepeating (chunks rows.0 1000)
      → ¬ ((write_orders env id ds region path qh ch payload now (ok orders) s).0 ≡ ok m)
  unfolding write_orders
  orders_repeated id ds region path qh ch payload now orders s rows m enabled built twice h =
      let find : Exec (Session env) (Option ℕ) =
        find_manifest env id ds region path qh ch payload orders now in
      let deltas : Exec (Session env) (Unit {0}) =
        when env.enable_market_order_deltas
          (write_market_order_deltas env id ds region orders now) in
      let (manifest, (found, rest)) = bind_ok find (λ i. deltas >> pure i) s m h in
      let (done, (wrote, last)) =
        bind_ok deltas (λ _. pure manifest) (find s).1 m
          (sym (ap (λ (e : Result (Option ℕ) × Session env). e.0) rest) ∙ h) in
      deltas_repeated id ds region orders now (find s).1 rows built twice (
        subst
          (λ b.
            (when b (write_market_order_deltas env id ds region orders now) (find s).1).0 ≡ ok tt)
          enabled wrote)

  market_orders :
      (id : ℕ) (ds : Text) (region : ℕ) (path qh ch : Text) (payload : Bytes) (now : ℕ)
      (s : Session env)
      → market_orders_region_id path ≡ some region
      → write_market_orders_parquet env id ds path qh ch payload now s
        ≡ write_orders env id ds region path qh ch payload now
            (order_list env (json.loads payload))
            s
  unfolding write_market_orders_parquet
  market_orders id ds region path qh ch payload now s market =
      ap {A = Option ℕ} {B = Result (Option ℕ) × Session env}
        (λ found.
          (elim found as (λ _. Exec (Session env) (Option ℕ)) [
            | none ↦ throw value_error
            | some region_id ↦
                write_orders env id ds region_id path qh ch payload now
                  (order_list env (json.loads payload))
          ])
            s)
        market

  -- The deltas are enabled and the payload is a list of orders that makes the rows `rows`, one of
  -- whose batches of 1000 versions names a version of an order twice. Then
  -- `_write_market_orders_parquet` does not return, since PostgreSQL refuses the batch.
  pub write_market_orders_parquet_repeated :
      (id : ℕ) (ds : Text) (region : ℕ) (path qh ch : Text) (payload : Bytes) (now : ℕ)
      (orders : Values) (s : Session env) (rows : OrderRows env) (m : Option ℕ)
      → env.enable_market_order_deltas ≡ true
      → market_orders_region_id path ≡ some region
      → json.loads payload ≡ some (list orders)
      → delta_rows env id ds region now (elements orders) ≡ ok rows
      → Any (λ b. repeats same_version b ≡ true) (chunks rows.0 1000)
      → ¬ ((write_market_orders_parquet env id ds path qh ch payload now s).0 ≡ ok m)
  write_market_orders_parquet_repeated id ds region path qh ch payload now orders s rows m enabled
        market loads built twice h =
      orders_repeated id ds region path qh ch payload now (elements orders) s rows m enabled built
        twice
        (sym (
            ap (λ (e : Result (Option ℕ) × Session env). e.0)
              (market_orders id ds region path qh ch payload now s market
                ∙ ap
                    (λ o. write_orders env id ds region path qh ch payload now (order_list env o) s)
                    loads))
          ∙ h)
