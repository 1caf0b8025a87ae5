-- ===== src/Archive/Sessions.antt =====
-- The surroundings of app/archive.py, and an `AsyncSession`: the tables as they are committed and as
-- the open transaction sees them, the directory of the Parquet files, which no transaction covers,
-- and the number of statements sent so far.
use eve_api_cache.Base.{ℕ, ◌+◌, Bool, List, Text, Bytes, if◌then◌else◌}
use eve_api_cache.Base.Exec.{Exec, Result, ok, raise, database_error}
use eve_api_cache.Base.Ints.{ℤ}
use eve_api_cache.Json.{Codec, Value}
use eve_api_cache.Cache.Values.{Compressor}
use eve_api_cache.Postgres.{Postgres}
use eve_api_cache.Archive.Tables.{Tables}

-- pyarrow and the directory that it writes to.
pub record Parquet : Type 1 where
  pub Disk : Type 0
  pub available : Bool
  -- `pq.write_table` at a path, and the size of the file
  pub write_table : Text → List Value → Disk → Result ℕ × Disk
  -- `pq.read_table(...).to_pylist()`
  pub read_table : Text → Disk → Result (List Value)

-- `datetime`: texts of a time, and the number of ticks in a second.
pub record Calendar : Type 0 where
  pub isoformat : ℕ → Text
  pub strftime : Text → ℕ → Text
  pub second : ℕ

pub record ArchiveEnv : Type 1 where
  pub pg : Postgres
  pub json : Codec
  pub sha256 : Bytes → Text
  pub lib : Compressor
  pub parquet : Parquet
  pub calendar : Calendar
  -- `int` of a number with a fraction or an exponent
  pub int_of_float : Text → Result ℤ
  pub enable_market_order_parquet : Bool
  pub enable_market_order_deltas : Bool
  -- Whether the statement of a number is carried out, up to the keys of its table: it reaches the
  -- server, and each value is one that its column takes (the length of a text, the range of a number, no
  -- NUL or NaN within JSON).
  pub up : ℕ → Bool

pub record Session (env : ArchiveEnv) : Type 0 where
  pub committed : Tables env.pg
  pub working : Tables env.pg
  pub disk : env.parquet.Disk
  pub sent : ℕ

module _ (env : ArchiveEnv) where
  -- `session.execute` of a statement that maps the tables
  unfoldable pub execute :
      {A : Type 0} → (Tables env.pg → Result A × Tables env.pg) → Exec (Session env) A
  execute statement s =
      if env.up s.sent
      then (
        (statement s.working).0,
        record s { working = (statement s.working).1; sent = s.sent + 1 },
      )
      else (raise database_error, record s { sent = s.sent + 1 })

  unfoldable pub commit : Exec (Session env) (Unit {0})
  commit s =
      if env.up s.sent
      then (ok tt, record s { committed = s.working; sent = s.sent + 1 })
      else (raise database_error, record s { sent = s.sent + 1 })

  -- `session.rollback()`
  unfoldable pub rollback : Session env → Session env
  rollback s = record s { working = s.committed; sent = s.sent + 1 }
