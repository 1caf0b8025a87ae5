-- ===== src/Migrations/Reversal.antt =====
-- The downgrades of alembic/versions behind the upgrades.
use eve_api_cache.Base.{◌≡◌, refl, Bool, Option, [], ap, ◌∙◌, sym, Text, text}
use mathlib.Core.Path.{fun_ext}
use eve_api_cache.Base.Exec.{ok}
use eve_api_cache.Json.{Value}
use eve_api_cache.Ddl.{Catalog, TableState, run, outcome, done, Server}
use eve_api_cache.Ddl.Steps.{catalog-eq}
use eve_api_cache.Migrations.Upgrades.{
  upgrade_all, downgrade_all, IsFresh, others, overlaid-eq, by_name, apart,
}

module _ (value_eq : Value → Value → Bool) (f : Text → Option TableState) where
  abbrev c : Catalog
  c = record { tables = others f; foreign_keys = [] }

  abbrev upgraded : Catalog
  upgraded = outcome c (run value_eq upgrade_all c)

  abbrev restored : Catalog
  restored = outcome upgraded (run value_eq downgrade_all upgraded)

  restored_ok : run value_eq downgrade_all upgraded ≡ ok restored
  restored_ok = refl

  restored-tables : (n : Text) → restored.tables n ≡ others f n
  restored-tables =
      by_name (λ n. restored.tables n ≡ others f n)
        (refl, (refl, (refl, (refl, (refl, (refl, (refl, (refl, tt))))))))
        (λ n theirs.
          rw
            (
              theirs,
              apart n (text "archive_timeseries") theirs refl,
              apart n (text "archive_reference") theirs refl,
              apart n (text "archive_events") theirs refl,
              apart n (text "id_name_cache") theirs refl,
              apart n (text "archive_payload_blobs") theirs refl,
              apart n (text "archive_object_files") theirs refl,
              apart n (text "market_order_versions") theirs refl,
              apart n (text "market_order_snapshot_entries") theirs refl,
            )
            refl)

  restored-eq : restored ≡ c
  restored-eq = catalog-eq restored c (fun_ext restored-tables) refl

-- On a database without a table of the program and without foreign keys all upgrades go through, then
-- all downgrades do, and they leave the catalog as it was.
pub downgrade_all-upgrade_all :
    (server : Server) (db : server.Db)
    → IsFresh (server.catalog db)
    → ((server.migrate upgrade_all db).0 ≡ ok tt)
      × (((server.migrate downgrade_all (server.migrate upgrade_all db).1).0 ≡ ok tt)
          × (server.catalog (server.migrate downgrade_all (server.migrate upgrade_all db).1).1
              ≡ server.catalog db))
downgrade_all-upgrade_all server db fresh =
    let catalog = server.catalog db in
    let e = overlaid-eq catalog fresh in
    let up : server.catalog (server.migrate upgrade_all db).1
        ≡ upgraded server.value_eq catalog.tables =
      server.catalog-migrate upgrade_all db
      ∙ ap (λ c. outcome c (run server.value_eq upgrade_all c)) e in
    (
      server.migrate_result upgrade_all db ∙ ap (λ c. done (run server.value_eq upgrade_all c)) e,
      (
        server.migrate_result downgrade_all (server.migrate upgrade_all db).1
            ∙ ap (λ c. done (run server.value_eq downgrade_all c)) up,
        server.catalog-migrate downgrade_all (server.migrate upgrade_all db).1
            ∙ (ap (λ c. outcome c (run server.value_eq downgrade_all c)) up
                ∙ (restored-eq server.value_eq catalog.tables ∙ sym e)),
      ),
    )
