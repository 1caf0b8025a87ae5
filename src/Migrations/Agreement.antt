-- ===== src/Migrations/Agreement.antt =====
-- The tables that the migrations of alembic/versions build, and those that app/db.py declares.
use eve_api_cache.Base.{
  ◌≡◌, refl, Bool, Option, none, some, List, [], ◌∷◌, ◌++◌, map, take, drop, ap, ◌∙◌, sym, subst,
  Text, text,
}
use mathlib.Core.List.{Perm, perm_middle}
use mathlib.Core.List.Perm
use eve_api_cache.Base.Exec.{ok}
use eve_api_cache.Json.{Value}
use eve_api_cache.Ddl.{Catalog, Column, TableState, ForeignKey, run, outcome, done, Server}
use eve_api_cache.Migrations.Upgrades.{upgrade_all, IsFresh, others, overlaid-eq, by_name, apart}
use eve_api_cache.Migrations.Declared.{create_all}

-- Two tables with the same columns, in whatever order, and the same constraints, indexes and rows.
abbrev pub SameTable : Option TableState → Option TableState → Type 0
SameTable none none = Unit
SameTable (some t) (some u) =
    Perm t.columns u.columns
    × ((t.constraints ≡ u.constraints) × ((t.indexes ≡ u.indexes) × (t.rows ≡ u.rows)))
SameTable none (some u) = ⊥
SameTable (some t) none = ⊥

SameTable-refl : (o : Option TableState) → SameTable o o
SameTable-refl none = tt
SameTable-refl (some t) = (Perm.refl t.columns, (refl, (refl, refl)))

-- A foreign key but for its name.
abbrev pub reference_of : ForeignKey → Text × (List Text × (Text × (List Text × Option Text)))
reference_of fk = (fk.table, (fk.columns, (fk.target, (fk.target_columns, fk.ondelete))))

-- An element stands further behind in the one list.
ahead :
    {A : Type 0} (a : A) (front back rest : List A)
    → Perm (front ++ back) rest
    → Perm (front ++ a ∷ back) (a ∷ rest)
ahead a front back rest h = Perm.trans (perm_middle front back) (Perm.cons a h)

module _ (value_eq : Value → Value → Bool) (f : Text → Option TableState) where
  abbrev c : Catalog
  c = record { tables = others f; foreign_keys = [] }

  abbrev upgraded : Catalog
  upgraded = outcome c (run value_eq upgrade_all c)

  abbrev created : Catalog
  created = outcome c (run value_eq create_all c)

  abbrev columns_of : Option TableState → List Column
  columns_of none = []
  columns_of (some t) = t.columns

  abbrev columns : List Column
  columns = columns_of (upgraded.tables (text "archive_timeseries"))

  timeseries_columns : Perm columns (columns_of (created.tables (text "archive_timeseries")))
  timeseries_columns = Perm.append_left (take 5 columns) (
      ahead _ (take 5 (drop 5 columns)) _ _ (
        Perm.cons _ (
          ahead _ (take 4 (drop 6 columns)) _ _
            (ahead _ (take 4 (drop 6 columns)) _ _ (Perm.refl _)))))

  abbrev event_columns : List Column
  event_columns = columns_of (upgraded.tables (text "archive_events"))

  events_columns :
      Perm
        (columns_of (upgraded.tables (text "archive_events")))
        (columns_of (created.tables (text "archive_events")))
  events_columns =
      Perm.append_left (take 2 event_columns)
        (ahead _ (take 5 (drop 2 event_columns)) _ _ (Perm.refl _))

  same_tables : (n : Text) → SameTable (upgraded.tables n) (created.tables n)
  same_tables =
      by_name (λ n. SameTable (upgraded.tables n) (created.tables n))
        (
          (timeseries_columns, (refl, (refl, refl))),
          (
            SameTable-refl (created.tables (text "archive_reference")),
            (
              (events_columns, (refl, (refl, refl))),
              (
                SameTable-refl (created.tables (text "id_name_cache")),
                (
                  SameTable-refl (created.tables (text "archive_payload_blobs")),
                  (
                    SameTable-refl (created.tables (text "archive_object_files")),
                    (
                      SameTable-refl (created.tables (text "market_order_versions")),
                      (SameTable-refl (created.tables (text "market_order_snapshot_entries")), tt),
                    ),
                  ),
                ),
              ),
            ),
          ),
        )
        (λ n theirs.
          rw
            (
              theirs,
              apart n (text "archive_timeseries") theirs refl,
              apart n (text "archive_reference") theirs refl,
              apart n (text "archive_events") theirs refl,
              apart n (text "id_name_cache") theirs refl,
              apart n (text "archive_payload_blobs") theirs refl,
              apart n (text "archive_object_files") theirs refl,
              apart n (text "market_order_versions") theirs refl,
              apart n (text "market_order_snapshot_entries") theirs refl,
            )
            (SameTable-refl (f n)))

  -- What the two runs leave of a fresh catalog.
  agreement :
      (run value_eq upgrade_all c ≡ ok upgraded)
      × ((run value_eq create_all c ≡ ok created)
          × (((n : Text) → SameTable (upgraded.tables n) (created.tables n))
              × (map reference_of upgraded.foreign_keys ≡ map reference_of created.foreign_keys)))
  agreement = (refl, (refl, (same_tables, refl)))

-- On two databases with the same catalog, which has no table of the program and no foreign key, all
-- upgrades in one transaction and the creation of the declared tables both go through. Then every
-- table of the one, be it of the program or not, has the same columns, in whatever order, the same
-- constraints, indexes and rows as in the other, and the foreign keys are the same but for their
-- names.
pub upgrade_all-create_all :
    (server : Server) (db db' : server.Db)
    → IsFresh (server.catalog db)
    → server.catalog db' ≡ server.catalog db
    → ((server.migrate upgrade_all db).0 ≡ ok tt)
      × (((server.migrate create_all db').0 ≡ ok tt)
          × (((n : Text)
                → SameTable
                    ((server.catalog (server.migrate upgrade_all db).1).tables n)
                    ((server.catalog (server.migrate create_all db').1).tables n))
              × (map reference_of (server.catalog (server.migrate upgrade_all db).1).foreign_keys
                  ≡ map reference_of
                      (server.catalog (server.migrate create_all db').1).foreign_keys)))
upgrade_all-create_all server db db' fresh same =
    let catalog = server.catalog db in
    let e = overlaid-eq catalog fresh in
    let (up_ok, (create_ok, (tables, keys))) = agreement server.value_eq catalog.tables in
    let left : server.catalog (server.migrate upgrade_all db).1
        ≡ upgraded server.value_eq catalog.tables =
      server.catalog-migrate upgrade_all db
      ∙ ap (λ c. outcome c (run server.value_eq upgrade_all c)) e in
    let right : server.catalog (server.migrate create_all db').1
        ≡ created server.value_eq catalog.tables =
      server.catalog-migrate create_all db'
      ∙ ap (λ c. outcome c (run server.value_eq create_all c)) (same ∙ e) in
    (
      server.migrate_result upgrade_all db ∙ ap (λ c. done (run server.value_eq upgrade_all c)) e,
      (
        server.migrate_result create_all db'
            ∙ ap (λ c. done (run server.value_eq create_all c)) (same ∙ e),
        (
          λ n.
              subst
                (λ c.
                  SameTable (c.tables n)
                    ((server.catalog (server.migrate create_all db').1).tables n))
                (sym left)
                (subst
                  (λ c. SameTable ((upgraded server.value_eq catalog.tables).tables n) (c.tables n))
                  (sym right) (tables n)),
          ap (λ (c : Catalog). map reference_of c.foreign_keys) left
              ∙ (keys ∙ sym (ap (λ (c : Catalog). map reference_of c.foreign_keys) right)),
        ),
      ),
    )
