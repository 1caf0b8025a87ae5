-- ===== src/Migrations/History.antt =====
-- What alembic/versions/0004_event_query_hash.py does to the rows that are there.
use eve_api_cache.Base.{
  Bytes, take, ◌++◌, ◌≡◌, refl, Bool, true, false, not, ◌&&◌, ◌||◌, Option, none, some, List, [],
  ◌∷◌, map, any, All, ap, ◌∙◌, sym, Text, text, text_eq, Bool-cases, inl, inr, arith,
}
use eve_api_cache.Base.Exec.{ok}
use eve_api_cache.Json.{Codec, Value, object, end}
use eve_api_cache.Allowlist.Params.{normalize_params, sorted}
use eve_api_cache.Allowlist.Keys.{compute_query_hash, hashed_body, members}
use eve_api_cache.Ddl.{
  string, without_column, Catalog, Column, TableState, Row, characters, primary_key, put,
  with_column, settled, drop_cell, any_null, agree, distinct, fits, names_foreign_key, run, outcome,
  done, Server,
}
use eve_api_cache.Ddl.Steps.{
  Steps, stop, step, run-Steps, put-put, put_self, add_column_ok, drop_column_ok,
  drop_constraint_ok, create_primary_key_ok,
}
use eve_api_cache.Migrations.Upgrades.{upgrade_all}
use eve_api_cache.Migrations.EventKeys.{upgrade, downgrade, empty_params_hash}
use eve_api_cache.Migrations.Initial
use eve_api_cache.Migrations.Columns.{required, defaulted}

abbrev pub events : Text
events = text "archive_events"

abbrev pub events_pkey : Text
events_pkey = text "archive_events_pkey"

abbrev pub query_hash : Text
query_hash = text "query_hash"

abbrev pub old_key : List Text
old_key = text "datasource" ∷ text "path" ∷ []

abbrev pub new_key : List Text
new_key = text "datasource" ∷ text "path" ∷ query_hash ∷ []

abbrev empty : Catalog
empty = record { tables = λ n. none; foreign_keys = [] }

abbrev pub with_rows : List Row → Option TableState → Option TableState
with_rows rows none = none
with_rows rows (some t) = some (record t { rows = rows })

-- `archive_events` with these rows, as the first migration left the table.
abbrev pub old_events : (Value → Value → Bool) → List Row → Option TableState
old_events value_eq rows =
    with_rows rows ((outcome empty (run value_eq Initial.upgrade empty)).tables events)

-- `archive_events` with these rows, as all migrations leave the table.
abbrev pub new_events : (Value → Value → Bool) → List Row → Option TableState
new_events value_eq rows =
    with_rows rows ((outcome empty (run value_eq upgrade_all empty)).tables events)

-- A row with its hash.
abbrev pub keyed : Text → Row → Row
keyed hash r = (query_hash, characters hash) ∷ r

-- A row with the hash of an event without parameters.
abbrev backfilled : Row → Row
backfilled r = keyed empty_params_hash r

-- No cell of the row is named so.
abbrev pub lacks : Text → Row → Bool
lacks column [] = true
lacks column ((name, c) ∷ row) = not (text_eq name column) && lacks column row

drop_cell-lacks : (column : Text) (r : Row) → lacks column r ≡ true → drop_cell column r ≡ r
drop_cell-lacks column [] h = refl
drop_cell-lacks column ((name, c) ∷ r) h = elim (Bool-cases (text_eq name column)) [
  | inl same ↦ absurd (ground (arith, same, h))
  | inr other ↦
      rw other (ap (λ r. (name, c) ∷ r) (drop_cell-lacks column r (ground (arith, other, h))))
]

-- What the downgrade makes of the rows of the upgrade.
restored :
    (rows : List Row)
    → All (λ r. lacks query_hash r ≡ true) rows
    → map (drop_cell query_hash) (map backfilled rows) ≡ rows
restored [] h = refl
restored (r ∷ rows) h = λ i. drop_cell-lacks query_hash r h.0 i ∷ restored rows h.1 i

fits_backfilled :
    (c : Column) (rows : List Row)
    → c.nullable ≡ false
    → c.server_default ≡ some empty_params_hash
    → fits c rows ≡ true
fits_backfilled c [] required default = refl
fits_backfilled c (r ∷ rows) required default = rw (required, default) refl

any_null-backfilled :
    (rows : List Row) → any (any_null new_key) (map backfilled rows) ≡ any (any_null old_key) rows
any_null-backfilled [] = refl
any_null-backfilled (r ∷ rows) = ap (λ b. any_null old_key r || b) (any_null-backfilled rows)

-- The table that is there.
abbrev table_of : Option TableState → TableState
table_of none = record { columns = []; constraints = []; indexes = []; rows = [] }
table_of (some t) = t

any_null_old :
    (rows : List Row) → any (any_null old_key) (map backfilled rows) ≡ any (any_null old_key) rows
any_null_old [] = refl
any_null_old (r ∷ rows) = ap (λ b. any_null old_key r || b) (any_null_old rows)

module _ (value_eq : Value → Value → Bool) where
  any-agree :
      (r : Row) (rows : List Row)
      → any (agree value_eq new_key (backfilled r)) (map backfilled rows)
        ≡ any (agree value_eq old_key r) rows
  any-agree r [] = refl
  any-agree r (r' ∷ rows) = ap (λ b. agree value_eq old_key r r' || b) (any-agree r rows)

  distinct-backfilled :
      (rows : List Row)
      → distinct value_eq new_key (map backfilled rows) ≡ distinct value_eq old_key rows
  distinct-backfilled [] = refl
  distinct-backfilled (r ∷ rows) = rw (any-agree r rows, distinct-backfilled rows) refl

  any-agree_old :
      (r : Row) (rows : List Row)
      → any (agree value_eq old_key (backfilled r)) (map backfilled rows)
        ≡ any (agree value_eq old_key r) rows
  any-agree_old r [] = refl
  any-agree_old r (r' ∷ rows) = ap (λ b. agree value_eq old_key r r' || b) (any-agree_old r rows)

  distinct_old :
      (rows : List Row)
      → distinct value_eq old_key (map backfilled rows) ≡ distinct value_eq old_key rows
  distinct_old [] = refl
  distinct_old (r ∷ rows) = rw (any-agree_old r rows, distinct_old rows) refl

  module _ (c : Catalog) (rows : List Row) where
    abbrev before : Catalog
    before = put events (old_events value_eq rows) c

    abbrev after : Catalog
    after = put events (new_events value_eq (map backfilled rows)) c

    abbrev column : Column
    column = defaulted empty_params_hash (required query_hash (string 16))

    abbrev old_table : TableState
    old_table = table_of (old_events value_eq rows)

    abbrev with_hash : TableState
    with_hash = with_column column old_table

    abbrev without_key : TableState
    without_key = record with_hash { constraints = [] }

    abbrev with_key : TableState
    with_key = record without_key {
      constraints = primary_key events_pkey new_key ∷ [];
      columns = map (settled new_key) without_key.columns;
    }

    abbrev new_table : TableState
    new_table = table_of (new_events value_eq (map backfilled rows))

    abbrev at : TableState → Catalog → Catalog
    at t = put events (some t)

    up :
        any (names_foreign_key events_pkey events) c.foreign_keys ≡ false
        → distinct value_eq old_key rows ≡ true
        → any (any_null old_key) rows ≡ false
        → Steps value_eq upgrade before
            (at new_table (at with_key (at without_key (at with_hash before))))
    up linked apart filled =
        step
          (add_column_ok value_eq before events old_table column refl refl
            (fits_backfilled column rows refl refl))
          (step
            (drop_constraint_ok value_eq (at with_hash before) events with_hash events_pkey refl
              linked refl)
            (step
              (create_primary_key_ok value_eq (at without_key (at with_hash before)) events
                without_key events_pkey new_key refl (distinct-backfilled rows ∙ apart)
                (any_null-backfilled rows ∙ filled) refl)
              (step refl stop)))

    upgrade_ok :
        any (names_foreign_key events_pkey events) c.foreign_keys ≡ false
        → distinct value_eq old_key rows ≡ true
        → any (any_null old_key) rows ≡ false
        → run value_eq upgrade before ≡ ok after
    upgrade_ok linked apart filled =
        run-Steps value_eq upgrade before _ (up linked apart filled)
        ∙ ap (λ c. ok c)
            (put-put events _ _ _
              ∙ (put-put events _ _ _ ∙ (put-put events _ _ _ ∙ put-put events _ _ _)))

    abbrev unkeyed : TableState
    unkeyed = record new_table { constraints = [] }

    abbrev rekeyed : TableState
    rekeyed = record unkeyed {
      constraints = primary_key events_pkey old_key ∷ [];
      columns = map (settled old_key) unkeyed.columns;
    }

    down :
        any (names_foreign_key events_pkey events) c.foreign_keys ≡ false
        → distinct value_eq old_key rows ≡ true
        → any (any_null old_key) rows ≡ false
        → Steps value_eq downgrade after
            (at (without_column query_hash rekeyed) (at rekeyed (at unkeyed after)))
    down linked apart filled =
        step (drop_constraint_ok value_eq after events new_table events_pkey refl linked refl) (
          step
            (create_primary_key_ok value_eq (at unkeyed after) events unkeyed events_pkey old_key
              refl (distinct_old rows ∙ apart) (any_null_old rows ∙ filled) refl)
            (step
              (drop_column_ok value_eq (at rekeyed (at unkeyed after)) events rekeyed query_hash
                refl refl)
              stop))

    downgrade_ok :
        any (names_foreign_key events_pkey events) c.foreign_keys ≡ false
        → distinct value_eq old_key rows ≡ true
        → any (any_null old_key) rows ≡ false
        → All (λ r. lacks query_hash r ≡ true) rows
        → run value_eq downgrade after ≡ ok before
    downgrade_ok linked apart filled old =
        run-Steps value_eq downgrade after _ (down linked apart filled)
        ∙ ap (λ c. ok c)
            (put-put events _ _ _
              ∙ (put-put events _ _ _
                  ∙ (put-put events _ _ _
                      ∙ ap (λ rows. put events (old_events value_eq rows) c) (restored rows old))))

-- SHA-256 of `{}`.
abbrev pub empty_digest : Text
empty_digest = text "44136fa355b3678a1146ad16f7e8649e94fb4fc21fe77e8310c060f61caaff8a"

compute_query_hash-empty :
    (json : Codec) (sha256 : Bytes → Text)
    → json.dumps_sorted (object end) ≡ text "{}"
    → sha256 (text "{}") ≡ empty_digest
    → compute_query_hash json sha256 [] none ≡ empty_params_hash
unfolding compute_query_hash normalize_params sorted hashed_body members
compute_query_hash-empty json sha256 dumps digest =
    ap (λ t. take 16 (sha256 (t ++ []))) dumps ∙ ap (take 16) digest

-- A database has `archive_events` as the first migration left the table, and in it any rows: they
-- have no `query_hash`, no datasource or path of them is NULL, and no two of them have the same
-- datasource and path. No foreign key of the table has the name of its primary key. `json.dumps`
-- writes the empty dict as `{}`, and SHA-256 of that text is `empty_digest`. Then the upgrade of the
-- fourth migration goes through. It leaves `archive_events` as all migrations leave a table of that
-- name, each row as it was and with the hash that `compute_query_hash` gives a request without
-- parameters and body, and changes nothing else. The downgrade from there goes through too and
-- restores the catalog.
pub downgrade-upgrade :
    (server : Server) (db : server.Db) (rows : List Row) (json : Codec) (sha256 : Bytes → Text)
    → json.dumps_sorted (object end) ≡ text "{}"
    → sha256 (text "{}") ≡ empty_digest
    → (server.catalog db).tables events ≡ old_events server.value_eq rows
    → All (λ r. lacks query_hash r ≡ true) rows
    → any (any_null old_key) rows ≡ false
    → distinct server.value_eq old_key rows ≡ true
    → any (names_foreign_key events_pkey events) (server.catalog db).foreign_keys ≡ false
    → ((server.migrate upgrade db).0 ≡ ok tt)
      × ((server.catalog (server.migrate upgrade db).1
            ≡ put events
                (new_events server.value_eq
                  (map (keyed (compute_query_hash json sha256 [] none)) rows))
                (server.catalog db))
          × (((server.migrate downgrade (server.migrate upgrade db).1).0 ≡ ok tt)
              × (server.catalog (server.migrate downgrade (server.migrate upgrade db).1).1
                  ≡ server.catalog db)))
downgrade-upgrade server db rows json sha256 dumps digest held old filled apart linked =
    let v = server.value_eq in
    let c = server.catalog db in
    let there : put events (old_events v rows) c ≡ c =
      ap (λ t. put events t c) (sym held) ∙ put_self events c in
    let upped : run v upgrade c ≡ ok (after v c rows) =
      ap (λ c. run v upgrade c) (sym there) ∙ upgrade_ok v c rows linked apart filled in
    let downed : run v downgrade (after v c rows) ≡ ok c =
      downgrade_ok v c rows linked apart filled old ∙ ap (λ c. ok c) there in
    let left : server.catalog (server.migrate upgrade db).1 ≡ after v c rows =
      server.catalog-migrate upgrade db ∙ ap (outcome c) upped in
    (
      server.migrate_result upgrade db ∙ ap done upped,
      (
        left
            ∙ ap (λ hash. put events (new_events v (map (keyed hash) rows)) c)
                (sym (compute_query_hash-empty json sha256 dumps digest)),
        (
          server.migrate_result downgrade (server.migrate upgrade db).1
              ∙ (ap (λ c. done (run v downgrade c)) left ∙ ap done downed),
          server.catalog-migrate downgrade (server.migrate upgrade db).1
              ∙ (ap (λ c. outcome c (run v downgrade c)) left
                  ∙ ap (outcome (after v c rows)) downed),
        ),
      ),
    )
