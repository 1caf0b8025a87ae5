-- ===== src/Proxy/Defs.antt =====
-- The surroundings and the state of app/proxy.py.
use eve_api_cache.Base.{ℕ, ◌≤◌, ◌≡◌, false, Option, none, List, Text, Bytes, text, starts_with}
use eve_api_cache.Base.Exec.{Exec, Result}
use eve_api_cache.Base.Ints.{ℤ}
use eve_api_cache.Json.{Codec}
use eve_api_cache.Redis.{Redis}
use eve_api_cache.Events.{Event}
use eve_api_cache.Cache.Values.{Compressor}
use eve_api_cache.Allowlist.Endpoints.{ArchiveType}
use eve_api_cache.EsiClient.Headers.{Dates}
use eve_api_cache.EsiClient.State.{Network, Client, Settings as ClientSettings}

-- What the proxy uses of app/archive.py: the operations on a database `Db`, and on the Redis
-- store for the names.
pub record Archive (redis : Redis) : Type 1 where
  pub Db : Type 0
  -- datasource, path, query hash
  pub get_latest_payload : Text → Text → Text → Db → Result (Option Bytes)
  -- datasource, path, query hash, content hash, payload, status, ETag, expiry, archive type
  pub write_snapshot :
      Text
      → Text
      → Text
      → Text
      → Bytes
      → ℕ
      → Option Text
      → Option ℕ
      → ArchiveType
      → ℕ
      → Exec Db (Unit {0})
  -- datasource, payload, the time, and the time of the Redis server
  pub write_names : Text → Bytes → ℕ → ℕ → Exec (Db × redis.Store) (Unit {0})
  pub rollback : Exec Db (Unit {0})
  -- Names are written to the keys under `esi:name:` alone.
  pub write_names-get :
      (datasource : Text) (payload : Bytes) (now clock t : ℕ) (db : Db) (store : redis.Store)
      (k : Text)
      → clock ≤ t
      → starts_with (text "esi:name:") k ≡ false
      → redis.get (write_names datasource payload now clock (db, store)).1.1 t k
        ≡ redis.get store t k

-- The fields of `Settings` that the proxy reads.
pub record Settings : Type 0 where
  pub default_datasource : Text
  pub max_post_batch_items : ℕ
  pub stale_cache_seconds : ℕ
  pub stale_cache_max_body_bytes : ℕ
  pub negative_cache_ttl_seconds : ℕ
  pub cache_compress_min_bytes : ℕ

-- All that the proxy is given: the libraries and services, the settings, and the time of the Redis
-- server in seconds as a function of the world.
pub record Env : Type 1 where
  pub redis : Redis
  pub lib : Compressor
  pub json : Codec
  pub sha256 : Bytes → Text
  pub dates : Dates
  pub net : Network
  pub esi : ClientSettings
  pub archive : Archive redis
  pub cfg : Settings
  pub clock : net.World → ℕ

pub record State (env : Env) : Type 0 where
  pub store : env.redis.Store
  pub db : env.archive.Db
  pub client : Client env.net.World
  pub events : List Event

pub data CacheStatus : Type 0 where
  hit miss stale archive_fallback error : CacheStatus

pub record ProxyResult : Type 0 where
  pub status : ℤ
  pub body : Bytes
  pub cache_status : CacheStatus
  pub content_type : Text
  pub location : Option Text

-- A result with the defaults of the class.
abbrev pub result : ℤ → Bytes → CacheStatus → ProxyResult
result status body cache_status = record {
  status = status;
  body = body;
  cache_status = cache_status;
  content_type = text "application/json";
  location = none;
}

-- The `value` of an archive type.
abbrev pub archive_label : ArchiveType → Text
archive_label ArchiveType.time_series = text "time_series"
archive_label ArchiveType.reference = text "reference"
archive_label ArchiveType.event = text "event"
archive_label ArchiveType.not_archived = text "none"
