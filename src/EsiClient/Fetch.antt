-- ===== src/EsiClient/Fetch.antt =====
-- `ESIClient.fetch` of app/esi_client.py.
use eve_api_cache.Base.{
  ℕ, Bool, true, false, not, ◌||◌, Option, none, some, List, [], ◌∷◌, ◌++◌, ◌==◌, ltb,
  if◌then◌else◌, Text, Bytes, text, text_eq, upper, get_or,
}
use eve_api_cache.Base.Dict.{Dict}
use eve_api_cache.Base.Exec.{Exec, Result, ok, raise, request_error, ◌>>◌, pure}
use eve_api_cache.Base.Ints.{ℤ, pos, negsuc}
use eve_api_cache.Json.{Codec}
use eve_api_cache.Events.{inc_counter}
use eve_api_cache.EsiClient.Headers.{
  Dates, HttpResponse, PageMetadata, page_metadata, int_header, parse_max_age, parse_expires,
}
use eve_api_cache.EsiClient.State.{Settings, Network, Request, Client, Budget, emit}
use eve_api_cache.EsiClient.Breaker.{budget_blocked, or_int}
use eve_api_cache.EsiClient.Retry.{request_with_retries}
use eve_api_cache.EsiClient.Pages.{fetch_all_pages, int_eq}

-- `ESIResponse`
pub record EsiResponse : Type 0 where
  pub status : ℕ
  pub body : Bytes
  pub etag : Option Text
  pub max_age : Option ℕ
  pub expires_at : Option ℕ
  pub not_modified : Bool
  pub error_limit_remain : Option ℤ
  pub error_limit_reset : Option ℤ
  pub page_count : ℤ
  pub page_metadata : List PageMetadata
  pub location : Option Text
  pub content_type : Text

abbrev pub json_type : Text
json_type = text "application/json"

-- An `ESIResponse` of the client's own, with the defaults of the class.
abbrev pub synthetic : ℕ → Bytes → Option ℤ → Option ℤ → EsiResponse
synthetic status body remain reset = record {
  status = status;
  body = body;
  etag = none;
  max_age = none;
  expires_at = none;
  not_modified = false;
  error_limit_remain = remain;
  error_limit_reset = reset;
  page_count = pos 1;
  page_metadata = [];
  location = none;
  content_type = json_type;
}

unfoldable pub blocked_response : Budget → EsiResponse
blocked_response b =
    synthetic 503 (text "{\"error\":\"esi error budget exhausted\"}") b.error_limit_remain
      b.error_limit_reset

unfoldable pub failed_response : EsiResponse
failed_response = synthetic 503 (text "{\"error\":\"upstream request failed\"}") none none

-- `if etag`, `if body`
abbrev etag_header : Option Text → Dict Text
etag_header none = []
etag_header (some []) = []
etag_header (some (c ∷ cs)) = (text "If-None-Match", c ∷ cs) ∷ []

abbrev type_header : Option Bytes → Dict Text
type_header none = []
type_header (some []) = []
type_header (some (b ∷ bs)) = (text "Content-Type", json_type) ∷ []

unfoldable pub first_request : Text → Text → Dict Text → Option Bytes → Option Text → Request
first_request path method params body etag = record {
  method = method;
  path = path;
  params = params;
  content = body;
  headers = etag_header etag ++ type_header body;
}

-- `pos n` with `n > 1`
abbrev pub page_total : ℤ → ℕ
page_total (pos n) = n
page_total (negsuc n) = 0

-- `_int_header(resp.headers, "x-pages") or 1`
abbrev pub x_pages_of : HttpResponse → ℤ
x_pages_of resp = or_int (int_header resp (text "x-pages")) (pos 1)

module _ (json : Codec) (dates : Dates) (cfg : Settings) (net : Network) where
  open dates use {second}
  open net use {World, monotonic, wall_clock}

  -- The fields that every answer of the upstream gives.
  unfoldable pub response_of : HttpResponse → ℕ → Option ℕ → EsiResponse
  response_of resp now expires_at = record {
    status = resp.status_code;
    body = resp.content;
    etag = resp.header (text "etag");
    max_age = parse_max_age dates resp now;
    expires_at = expires_at;
    not_modified = false;
    error_limit_remain = int_header resp (text "x-esi-error-limit-remain");
    error_limit_reset = int_header resp (text "x-esi-error-limit-reset");
    page_count = pos 1;
    page_metadata = page_metadata 1 resp ∷ [];
    location = resp.header (text "location");
    content_type = get_or (resp.header (text "content-type")) json_type;
  }

  unfoldable pub not_modified_response : HttpResponse → Option Text → ℕ → Option ℕ → EsiResponse
  unfolding response_of
  not_modified_response resp etag now expires_at = record (response_of resp now expires_at) {
    status = 304;
    body = [];
    etag = etag;
    not_modified = true;
    location = none;
    content_type = json_type;
  }

  -- The answer to a 200 of a GET, whose pages are merged in `body`.
  unfoldable pub merged_response :
      HttpResponse → ℕ → Option ℕ → ℤ → Bytes → List PageMetadata → EsiResponse
  unfolding response_of
  merged_response resp now expires_at x_pages body metadata =
      record (response_of resp now expires_at) {
        status = 200;
        body = body;
        etag = if int_eq x_pages (pos 1) then resp.header (text "etag") else none;
        page_count = x_pages;
        page_metadata = page_metadata 1 resp ∷ metadata;
        location = none;
      }

  unfoldable pub pagination_failed : HttpResponse → ℤ → EsiResponse
  pagination_failed resp x_pages =
      record (synthetic 500 (text "{\"error\": \"pagination fetch failed\"}")
        (int_header resp (text "x-esi-error-limit-remain"))
        (int_header resp (text "x-esi-error-limit-reset"))) {
          page_count = x_pages;
          page_metadata = page_metadata 1 resp ∷ [];
        }

  -- The `try` round the pagination: every exception is an answer 500.
  unfoldable pub merge_or_fail :
      HttpResponse
      → ℕ
      → Option ℕ
      → ℤ
      → Result (Bytes × List PageMetadata) × Client World
      → Result EsiResponse × Client World
  unfolding merged_response pagination_failed
  merge_or_fail resp now expires_at x_pages (ok (body, metadata), c) =
      (ok (merged_response resp now expires_at x_pages body metadata), c)
  merge_or_fail resp now expires_at x_pages (raise e, c) =
      (do
        emit (inc_counter (text "esi_pagination_failures_total") [])
        pure (pagination_failed resp x_pages))
        c

  -- The branches behind the headers of the first response.
  unfoldable pub answer_dated :
      Text
      → Text
      → Dict Text
      → Option Text
      → HttpResponse
      → ℕ
      → Option ℕ
      → Exec (Client World) EsiResponse
  unfolding not_modified_response merged_response merge_or_fail
  answer_dated path method params etag resp now expires_at c =
      let x_pages = x_pages_of resp in
      if resp.status_code == 304
      then (ok (not_modified_response resp etag now expires_at), c)
      else if not (resp.status_code == 200) || not (text_eq (upper method) (text "GET"))
      then (ok (response_of resp now expires_at), c)
      else if ltb 1 (page_total x_pages)
      then merge_or_fail resp now expires_at x_pages
          (fetch_all_pages json cfg second net path params resp.content (page_total x_pages) c)
      else (ok (merged_response resp now expires_at x_pages resp.content []), c)

  -- `_parse_expires` stands in no `try`.
  abbrev pub if_dated :
      (Option ℕ → Exec (Client World) EsiResponse)
      → Result (Option ℕ)
      → Exec (Client World) EsiResponse
  if_dated answer (ok expires_at) c = answer expires_at c
  if_dated answer (raise e) c = (raise e, c)

  -- What stands behind the first response.
  unfoldable pub answer_for :
      Text → Text → Dict Text → Option Text → HttpResponse → Exec (Client World) EsiResponse
  unfolding answer_dated
  answer_for path method params etag resp c =
      let now = wall_clock c.world in
      if_dated (answer_dated path method params etag resp now) (parse_expires dates resp now) c

  -- The `try` round the first request: only a `RequestError` is caught.
  unfoldable pub answer_or_fail :
      (HttpResponse → Exec (Client World) EsiResponse)
      → Result HttpResponse × Client World
      → Result EsiResponse × Client World
  answer_or_fail answer (ok resp, c) = answer resp c
  answer_or_fail answer (raise request_error, c) =
      (do
        emit (inc_counter (text "esi_requests_total") ((text "status", text "error") ∷ []))
        pure failed_response)
        c
  answer_or_fail answer (raise e, c) = (raise e, c)

  unfoldable pub fetch :
      Text → Text → Dict Text → Option Bytes → Option Text → Exec (Client World) EsiResponse
  unfolding answer_or_fail blocked_response answer_for
  fetch path method params body etag c =
      if budget_blocked (monotonic c.world) c.budget
      then (do
        emit (inc_counter (text "esi_requests_total") ((text "status", text "blocked") ∷ []))
        pure (blocked_response c.budget))
          c
      else answer_or_fail (answer_for path method params etag)
          (request_with_retries cfg second net (first_request path method params body etag) c)
