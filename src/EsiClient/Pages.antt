-- ===== src/EsiClient/Pages.antt =====
-- `_fetch_all_pages` of app/esi_client.py. The source gathers the pages side by side and merges
-- them in the order of their numbers; the model fetches them in that order.
use eve_api_cache.Base.{
  ℕ, zero, suc, ◌+◌, ◌-◌, Bool, false, not, ◌&&◌, Option, none, some, List, [], ◌∷◌, ◌++◌, ◌==◌,
  leb, ltb, if◌then◌else◌, Text, Bytes, text, text_eq, filter,
}
use eve_api_cache.Base.Dict.{Dict, insert}
use eve_api_cache.Base.Exec.{Exec, Result, ok, raise, value_error, http_error, ◌>>=◌, pure}
use eve_api_cache.Base.Ints.{ℤ, pos, negsuc, str_nat}
use eve_api_cache.Json.{Codec, Value, list, elements, of_elements}
use eve_api_cache.EsiClient.Headers.{HttpResponse, PageMetadata, page_metadata, int_header}
use eve_api_cache.EsiClient.State.{Settings, Network, Request, Client}
use eve_api_cache.EsiClient.Retry.{request_with_retries}

abbrev pub int_eq : ℤ → ℤ → Bool
int_eq (pos a) (pos b) = a == b
int_eq (negsuc a) (negsuc b) = a == b
int_eq (pos a) (negsuc b) = false
int_eq (negsuc a) (pos b) = false

-- `advertised_pages is not None and advertised_pages != total_pages`
abbrev inconsistent : ℕ → Option ℤ → Bool
inconsistent total none = false
inconsistent total (some advertised) = not (int_eq advertised (pos total))

-- `r.raise_for_status()` lets through what is 2xx.
abbrev is_success : ℕ → Bool
is_success status = leb 200 status && ltb status 300

abbrev pub loaded_list : Option Value → Result (List Value)
loaded_list (some (list vs)) = ok (elements vs)
loaded_list other = raise value_error

-- `{k: v for k, v in (params or {}).items() if k != "page"}`
unfoldable pub base_params : Dict Text → Dict Text
base_params params = filter (λ e. not (text_eq e.0 (text "page"))) params

unfoldable pub page_request : Text → Dict Text → ℕ → Request
unfolding base_params
page_request path params page = record {
  method = text "GET";
  path = path;
  params = insert (text "page") (str_nat page) (base_params params);
  content = none;
  headers = [];
}

module _ (json : Codec) where
  open json use {loads, dumps}

  -- What `fetch_page` makes of a response.
  unfoldable pub page_items : ℕ → HttpResponse → Result (List Value)
  page_items total r =
      if is_success r.status_code
      then (if inconsistent total (int_header r (text "x-pages"))
          then raise value_error
          else loaded_list (loads r.content))
      else raise http_error

  -- Pages fetched so far, in the order of their numbers.
  abbrev pub Page : Type 0
  Page = List Value × PageMetadata

  module _ (cfg : Settings) (second : ℕ) (net : Network) where
    open net use {World}

    unfoldable pub fetch_page : Text → Dict Text → ℕ → ℕ → Exec (Client World) Page
    unfolding page_items
    fetch_page path params total page = do
      r ← request_with_retries cfg second net (page_request path params page)
      items ← (λ c. (page_items total r, c))
      pure (items, page_metadata page r)

    -- `count` pages from `page` on
    unfoldable pub fetch_pages : Text → Dict Text → ℕ → ℕ → ℕ → Exec (Client World) (List Page)
    unfolding fetch_page
    fetch_pages path params total page zero = pure []
    fetch_pages path params total page (suc count) = do
      first ← fetch_page path params total page
      rest ← fetch_pages path params total (page + 1) count
      pure (first ∷ rest)

    -- `merged.extend(page_data)` for each page
    unfoldable pub merged : List Value → List Page → List Value
    merged items [] = items
    merged items ((page_data, metadata) ∷ pages) = merged (items ++ page_data) pages

    unfoldable pub metadata_of : List Page → List PageMetadata
    metadata_of [] = []
    metadata_of ((page_data, metadata) ∷ pages) = metadata ∷ metadata_of pages

    unfoldable pub fetch_all_pages :
        Text → Dict Text → Bytes → ℕ → Exec (Client World) (Bytes × List PageMetadata)
    unfolding fetch_pages merged metadata_of
    fetch_all_pages path params page1_body total_pages = do
      pages ← fetch_pages path params total_pages 2 (total_pages - 1)
      first ← (λ c. (loaded_list (loads page1_body), c))
      pure (dumps (list (of_elements (merged first pages))), metadata_of pages)
