-- ===== src/Examples/Upserting.antt =====
-- Runs of `write_snapshot` and `get_latest_payload` for a reference and an event.
use eve_api_cache.Base.{◌≡◌, refl, some, text}
use eve_api_cache.Base.Exec.{ok}
use eve_api_cache.Json.{list, nil}
use eve_api_cache.Allowlist.Endpoints.{reference, event}
use eve_api_cache.Archive.Sessions.{execute, commit}
use eve_api_cache.Archive.Snapshots.{Snapshot, write_snapshot, write_rows}
use eve_api_cache.Archive.Reads.{get_latest_payload}
use eve_api_cache.Archive.Upserts.{get_latest_payload-reference, get_latest_payload-event}
use eve_api_cache.Examples.Database.{archive_env}
use eve_api_cache.Examples.Snapshots.{always, fresh, incursions}

abbrev alliances : Snapshot
alliances = record incursions { archive_type = reference }

abbrev killmail : Snapshot
killmail = record incursions { archive_type = event }

alliances_written : (write_snapshot (archive_env always) alliances 90 (fresh always)).0 ≡ ok tt
unfolding write_snapshot write_rows execute commit
alliances_written = refl

killmail_written : (write_snapshot (archive_env always) killmail 90 (fresh always)).0 ≡ ok tt
unfolding write_snapshot write_rows execute commit
killmail_written = refl

get_latest_payload-reference_example :
    get_latest_payload
      (archive_env always)
      (text "tranquility")
      (text "/v1/incursions/")
      (text "{}")
      (write_snapshot (archive_env always) alliances 90 (fresh always)).1
    ≡ ok (some (text "[]"))
get_latest_payload-reference_example =
    get_latest_payload-reference (archive_env always) alliances 90 (fresh always) (list nil) refl
      refl refl tt alliances_written refl

get_latest_payload-event_example :
    get_latest_payload
      (archive_env always)
      (text "tranquility")
      (text "/v1/incursions/")
      (text "{}")
      (write_snapshot (archive_env always) killmail 90 (fresh always)).1
    ≡ ok (some (text "[]"))
get_latest_payload-event_example =
    get_latest_payload-event (archive_env always) killmail 90 (fresh always) (list nil) refl refl tt
      refl killmail_written refl
