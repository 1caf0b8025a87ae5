-- ===== src/Examples/Histories.antt =====
-- A run of the discovery of type ids on a database of lists.
use eve_api_cache.Base.{true, none, [], ◌∷◌, text}
use eve_api_cache.Base.Ints.{pos}
use eve_api_cache.Json.{object, str, member, end}
use eve_api_cache.Archive.Tables.{MarketOrderVersion, MarketOrderSnapshotEntry}
use eve_api_cache.Archive.Sessions.{ArchiveEnv, Session}
use eve_api_cache.Examples.Database.{archive_env, no_rows}

abbrev aenv : ArchiveEnv
aenv = archive_env (λ n. true)

abbrev version : MarketOrderVersion
version = record {
  datasource = text "tranquility";
  order_id = pos 7;
  version_hash = text "{}";
  payload = object (member (text "type_id") (str (text "34")) end);
  first_seen_at = 90;
  last_seen_at = 90;
}

abbrev entry : MarketOrderSnapshotEntry
entry = record { snapshot_id = 1; order_id = pos 7; version_hash = text "{}"; region_id = 10000002 }

abbrev session : Session aenv
session = record {
  committed = no_rows;
  working = record no_rows { versions = version ∷ []; entries = entry ∷ [] };
  disk = λ path. none;
  sent = 0;
}
