-- ===== src/Routes.antt =====
-- app/routes.py: what stands between an HTTP request and `proxy_request`: the rate-limit key, the
-- gate of the operations endpoints, the capped body, and the response with its headers. Header names
-- are in lower case where they are looked up.
pub mod Bodies
pub mod Handler
pub mod Operations
use eve_api_cache.Base.{
  ℕ, ◌+◌, Bool, true, false, ◌&&◌, ◌||◌, Option, none, some, List, [], ◌∷◌, ◌++◌, ltb,
  if◌then◌else◌, length, Text, Bytes, text, text_eq, elem, ◌==◌, get_or,
}
use eve_api_cache.Base.Dict.{Dict, lookup}
use eve_api_cache.Base.Ints.{ℤ, pos, strip}
use eve_api_cache.Proxy.Defs.{CacheStatus, hit, miss, stale, archive_fallback, error, ProxyResult}

-- What the routes read of a `Request`; the stream gives the body in chunks.
pub record HttpRequest : Type 0 where
  pub client_host : Option Text
  pub headers : Dict Text
  pub method : Text
  pub version : Text
  pub path : Text
  pub query_params : Dict Text
  pub stream : List Bytes

pub record HttpAnswer : Type 0 where
  pub content : Bytes
  pub status_code : ℤ
  pub media_type : Text
  pub headers : Dict Text

abbrev pub json_type : Text
json_type = text "application/json"

abbrev pub warning_stale : Text
warning_stale = text "110 - \"Response is Stale\""

-- `_CACHE_STATUS_HEADERS`
unfoldable pub cache_status_headers : CacheStatus → Dict Text
cache_status_headers hit = (text "X-Cache", text "HIT") ∷ []
cache_status_headers miss = (text "X-Cache", text "MISS") ∷ []
cache_status_headers stale = (text "X-Cache", text "STALE") ∷ (text "Warning", warning_stale) ∷ []
cache_status_headers archive_fallback =
    (text "X-Cache", text "STALE")
    ∷ (text "X-Archive-Fallback", text "true")
    ∷ (text "Warning", warning_stale)
    ∷ []
cache_status_headers error = (text "X-Cache", text "ERROR") ∷ []

-- `_error_response`
unfoldable pub error_response : Bytes → ℕ → HttpAnswer
error_response body status = record {
  content = body;
  status_code = pos status;
  media_type = json_type;
  headers = (text "X-Cache", text "ERROR") ∷ [];
}

-- `forwarded.split(",")[0]`
unfoldable pub before_comma : Text → Text
before_comma [] = []
before_comma (c ∷ cs) = let rest = before_comma cs in if c == b',' then [] else c ∷ rest

-- `_client_key`
unfoldable pub client_key : HttpRequest → List Text → Text
client_key request trusted_proxies =
    let peer = get_or request.client_host (text "unknown") in
    if elem peer trusted_proxies
    then elim (lookup (text "x-forwarded-for") request.headers) [
      | none ↦ peer
      | some [] ↦ peer
      | some (c ∷ cs) ↦ strip (before_comma (c ∷ cs))
    ]
    else peer

-- `_require_ops_token`: whether the request is let through
unfoldable pub require_ops_token : Option Text → HttpRequest → Bool
require_ops_token none request = true
require_ops_token (some token) request = elim (lookup (text "x-ops-token") request.headers) [
  | none ↦ false
  | some given ↦ text_eq given token
]

-- The loop of `_read_body_capped` from a total and the chunks so far.
unfoldable pub read_chunks : ℕ → ℕ → Bytes → List Bytes → Option Bytes
read_chunks limit total chunks [] = some chunks
read_chunks limit total chunks (chunk ∷ stream) =
    let rest = read_chunks limit (total + length chunk) (chunks ++ chunk) stream in
    if ltb limit (total + length chunk) then none else rest

-- `_read_body_capped`
unfoldable pub read_body_capped : ℕ → List Bytes → Option Bytes
read_body_capped limit stream = read_chunks limit 0 [] stream
