-- ===== src/Archive/Success.antt =====
-- When `write_snapshot` of app/archive.py returns.
use eve_api_cache.Base.{ℕ, ◌≡◌, false, List, All, Text}
use eve_api_cache.Base.Exec.{Exec, ok}
use eve_api_cache.Base.Returns.{Returns}
use eve_api_cache.Json.{Value}
use eve_api_cache.Postgres.{repeats}
use eve_api_cache.Archive.Tables.{Tables, same_version}
use eve_api_cache.Archive.Sessions.{ArchiveEnv}
use eve_api_cache.Archive.Orders.{OrderRows, delta_rows}
use eve_api_cache.Archive.Batches.{chunks}

module _ (env : ArchiveEnv) where
  -- No batch of the versions of the orders names a version twice.
  abbrev pub HasDeltas : ℕ → Text → ℕ → List Value → ℕ → Type 0
  HasDeltas id ds region orders now =
      (rows : OrderRows env) × ((delta_rows env id ds region now orders ≡ ok rows)
        × All (λ b. repeats same_version b ≡ false) (chunks rows.0 1000))
