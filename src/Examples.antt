-- ===== src/Examples.antt =====
-- Surroundings to run the modelled code in: a Redis as a function of time and key, libraries that
-- change nothing, and a network that always gives the same response.
mod Small
mod Database
mod Snapshots
mod Fallbacks
mod Histories
mod Naming
mod Proxying
mod Scheduling
mod Flying
mod Migrating
mod Metering
mod Upserting
use eve_api_cache.Base.{
  ℕ, ◌+◌, ◌≤◌, ◌≡◌, refl, Bool, true, false, Option, none, some, List, [], ◌∷◌, if◌then◌else◌, Text,
  Bytes, text, text_eq, arith,
}
use eve_api_cache.Base.Dict.{lookup}
use eve_api_cache.Base.Exec.{Exec, Result, ok, raise, redis_error}
use eve_api_cache.Base.Ints.{ℤ, pos}
use eve_api_cache.Json.{Codec, Value, null, list, nil}
use eve_api_cache.Redis.{Redis, value_after, accepted}
use eve_api_cache.Allowlist.Endpoints.{EndpointSpec, time_series}
use eve_api_cache.Allowlist.Pattern.{Atom, lit}
use eve_api_cache.Cache.Values.{Compressor}
use eve_api_cache.EsiClient.Headers.{HttpResponse, Dates}
use eve_api_cache.EsiClient.State.{Network, Client, Request, Settings as ClientSettings}
use eve_api_cache.EsiClient.Fetch.{EsiResponse}
use eve_api_cache.Proxy.Defs.{Archive, Env, State, Settings}
use eve_api_cache.Proxy.Admission.{Plan}

abbrev pub redis : Redis
redis = record {
  Store = ℕ → Text → Option Bytes;
  get = λ s t k. s t k;
  execute = λ commands now s. (
    if accepted commands then ok tt else raise redis_error,
    λ t k. value_after now t k commands (s t k),
  );
  get-execute = λ s commands now t j le. refl;
  execute_result = λ s commands now. refl;
}

abbrev pub lib : Compressor
lib = record {
  has_zstd = true;
  zstd_compress = λ b. b;
  zstd_decompress = λ b. b;
  zlib_compress = λ b. b;
  zlib_decompress = λ b. b;
  zstd_round_trip = λ b. refl;
  zlib_round_trip = λ b. refl;
}

abbrev pub json : Codec
json = record {
  loads = λ b. some (list nil);
  dumps = λ v. text "[]";
  dumps_sorted = λ v. text "{}";
  dumps_compact = λ v. text "[]";
}

abbrev pub dates : Dates
dates = record { parse_date = λ t. none; has_zone = λ t. false; second = 1; last = 1000000 }

abbrev pub response : ℕ → HttpResponse
response status = record {
  status_code = status;
  header = λ name. lookup name ((text "retry-after", text "7") ∷ []);
  content = text "[]";
}

-- A network whose world is its clock, and whose every response has the same status.
abbrev pub network : ℕ → Network
network status = record {
  World = ℕ;
  send = λ q w. (some (response status), w + 1);
  monotonic = λ w. w;
  wall_clock = λ w. w;
  sleep = λ n w. w + n;
  send_later = λ q w. omega arith;
  sleep_later = λ n w. omega arith;
}

abbrev pub client_settings : ClientSettings
client_settings = record {
  esi_max_retries = 2;
  esi_retry_base_delay = 1;
  esi_retry_max_delay = 10;
  esi_error_budget_threshold = pos 10;
  esi_error_budget_block_seconds = 60;
  esi_max_requests_per_second = 20;
}

abbrev pub request : Request
request = record {
  method = text "GET";
  path = text "/v1/status/";
  params = [];
  content = none;
  headers = [];
}

abbrev pub client : {World : Type 0} → ℕ → World → Client World
client blocked_until w = record {
  budget = record {
    error_limit_remain = none;
    error_limit_reset = none;
    blocked_until = blocked_until;
  };
  bucket = record { tokens = 20; updated = 0 };
  world = w;
  events = [];
}

abbrev pub archive : Archive redis
archive = record {
  Db = ℕ;
  get_latest_payload = λ ds path hash db. ok none;
  write_snapshot = λ ds path hash content payload status etag expires kind now db. (ok tt, db + 1);
  write_names = λ ds payload now clock state. (ok tt, state);
  rollback = λ db. (ok tt, db);
  write_names-get = λ ds payload now clock t db store k later h. refl;
}

abbrev pub env : Env
env = record {
  redis = redis;
  lib = lib;
  json = json;
  sha256 = λ b. b;
  dates = dates;
  net = network 200;
  esi = client_settings;
  archive = archive;
  cfg = record {
    default_datasource = text "tranquility";
    max_post_batch_items = 1000;
    stale_cache_seconds = 3600;
    stale_cache_max_body_bytes = 5000000;
    negative_cache_ttl_seconds = 60;
    cache_compress_min_bytes = 65536;
  };
  clock = λ w. w;
}

abbrev pub empty_state : ℕ → State env
empty_state now = record { store = λ t k. none; db = 0; client = client 0 now; events = [] }

abbrev pub plan : Plan
plan = record {
  spec = record {
    pattern = lit (text "/incursions") ∷ [];
    methods = text "GET" ∷ [];
    archive_type = time_series;
    extract_names = false;
    allowed_params = [];
    required_params = [];
  };
  datasource = text "tranquility";
  body = none;
  query_hash = text "{}";
  cache_key = text "esi:k";
  esi_params = [];
}

abbrev pub path : Text
path = text "/v1/incursions/"

abbrev pub answer_with : ℕ → Bool → EsiResponse
answer_with status marked = record {
  status = status;
  body = text "[1]";
  etag = some (text "e");
  max_age = some 30;
  expires_at = none;
  not_modified = marked;
  error_limit_remain = none;
  error_limit_reset = none;
  page_count = pos 1;
  page_metadata = [];
  location = none;
  content_type = text "application/json";
}
