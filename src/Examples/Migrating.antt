-- ===== src/Examples/Migrating.antt =====
-- Runs of the migrations of alembic/versions on a server whose database is its catalog.
use eve_api_cache.Base.{
  ◌≡◌, refl, Bool, false, none, some, List, [], ◌∷◌, map, Text, text, if◌then◌else◌, text_eq,
}
use eve_api_cache.Json.{Codec, Value}
use eve_api_cache.Examples.{json}
use eve_api_cache.Ddl.{Server, Catalog, TableState, Row, characters, run, outcome, done}
use eve_api_cache.Migrations.EventKeys.{upgrade, downgrade}
use eve_api_cache.Migrations.Declared.{create_all}
use eve_api_cache.Migrations.Upgrades.{upgrade_all, downgrade_all, table_names, All-elem, IsFresh}
use eve_api_cache.Migrations.Agreement.{reference_of, upgrade_all-create_all}
use eve_api_cache.Migrations.Reversal.{downgrade_all-upgrade_all}
use eve_api_cache.Migrations.History.{events, old_events, empty_digest, downgrade-upgrade}

abbrev never : Value → Value → Bool
never v w = false

abbrev server : Server
server = record {
  Db = Catalog;
  catalog = λ c. c;
  value_eq = never;
  migrate = λ ops c. (done (run never ops c), outcome c (run never ops c));
  catalog-migrate = λ ops c. refl;
  migrate_result = λ ops c. refl;
}

-- A database with a table of another program.
abbrev other_table : TableState
other_table = record { columns = []; constraints = []; indexes = []; rows = [] }

abbrev start : Catalog
start = record {
  tables = λ n. if text_eq n (text "spatial_ref_sys") then some other_table else none;
  foreign_keys = [];
}

start-IsFresh : IsFresh start
start-IsFresh = record {
  absent = λ n.
      All-elem (λ n. start.tables n ≡ none) table_names n
        (refl, (refl, (refl, (refl, (refl, (refl, (refl, (refl, tt))))))));
  unlinked = refl;
}

upgrade_all-create_all_example :
    map reference_of (outcome start (run never upgrade_all start)).foreign_keys
    ≡ map reference_of (outcome start (run never create_all start)).foreign_keys
upgrade_all-create_all_example =
    (upgrade_all-create_all server start start start-IsFresh refl).1.1.1

downgrade_all-upgrade_all_example :
    outcome
      (outcome start (run never upgrade_all start))
      (run never downgrade_all (outcome start (run never upgrade_all start)))
    ≡ start
downgrade_all-upgrade_all_example = (downgrade_all-upgrade_all server start start-IsFresh).1.1

-- Two events, as they were kept before there was a query hash.
abbrev event_row : Text → Row
event_row path =
    (text "datasource", characters (text "tranquility")) ∷ (text "path", characters path) ∷ []

abbrev event_rows : List Row
event_rows = event_row (text "/v1/sovereignty/map/") ∷ event_row (text "/v1/status/") ∷ []

abbrev holding : List Row → Catalog
holding rows = record {
  tables = λ n. if text_eq n events then old_events never rows else none;
  foreign_keys = [];
}

abbrev empty_codec : Codec
empty_codec = record json { dumps_sorted = λ v. text "{}" }

downgrade-upgrade_example :
    outcome
      (outcome (holding event_rows) (run never upgrade (holding event_rows)))
      (run never downgrade (outcome (holding event_rows) (run never upgrade (holding event_rows))))
    ≡ holding event_rows
downgrade-upgrade_example =
    (downgrade-upgrade server (holding event_rows) event_rows empty_codec (λ b. empty_digest) refl
      refl refl (refl, (refl, tt)) refl refl refl).1.1.1
