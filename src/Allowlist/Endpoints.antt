-- ===== src/Allowlist/Endpoints.antt =====
-- The endpoint table of app/allowlist.py, its lookup, and the check of the query parameters.
use eve_api_cache.Base.{
  Bool, true, false, ◌&&◌, Option, List, [], ◌∷◌, Text, text, elem, upper, find,
}
use eve_api_cache.Allowlist.Pattern.{Atom, lit, digits, hex40, matches}

pub data ArchiveType : Type 0 where
  time_series reference event not_archived : ArchiveType

-- `pattern` without its `^` and `/?$`.
pub record EndpointSpec : Type 0 where
  pub pattern : List Atom
  pub methods : List Text
  pub archive_type : ArchiveType
  pub extract_names : Bool
  pub allowed_params : List Text
  pub required_params : List Text

-- `_LANGUAGE`
abbrev language : List Text
language = text "language" ∷ []

abbrev spec : List Atom → Text → ArchiveType → Bool → List Text → List Text → EndpointSpec
spec pattern method archive_type extract_names allowed required = record {
  pattern = pattern;
  methods = method ∷ [];
  archive_type = archive_type;
  extract_names = extract_names;
  allowed_params = allowed;
  required_params = required;
}

-- `_ENDPOINTS`
unfoldable pub endpoints : List EndpointSpec
endpoints =
    spec (lit (text "/markets/") ∷ digits ∷ lit (text "/orders") ∷ []) (text "GET") time_series
      false (text "order_type" ∷ text "type_id" ∷ []) []
    ∷ spec (lit (text "/markets/") ∷ digits ∷ lit (text "/history") ∷ []) (text "GET") time_series
        false (text "type_id" ∷ []) (text "type_id" ∷ [])
    ∷ spec (lit (text "/markets/prices") ∷ []) (text "GET") time_series false [] []
    ∷ spec (lit (text "/universe/types/") ∷ digits ∷ []) (text "GET") reference false language []
    ∷ spec (lit (text "/universe/systems") ∷ []) (text "GET") reference false [] []
    ∷ spec (lit (text "/universe/systems/") ∷ digits ∷ []) (text "GET") reference false language []
    ∷ spec (lit (text "/universe/regions") ∷ []) (text "GET") reference false [] []
    ∷ spec (lit (text "/universe/regions/") ∷ digits ∷ []) (text "GET") reference false language []
    ∷ spec (lit (text "/universe/constellations/") ∷ digits ∷ []) (text "GET") reference false
        language []
    ∷ spec (lit (text "/universe/stations/") ∷ digits ∷ []) (text "GET") reference false [] []
    ∷ spec (lit (text "/universe/planets/") ∷ digits ∷ []) (text "GET") reference false [] []
    ∷ spec (lit (text "/universe/stars/") ∷ digits ∷ []) (text "GET") reference false [] []
    ∷ spec (lit (text "/universe/factions") ∷ []) (text "GET") reference false language []
    ∷ spec (lit (text "/universe/groups/") ∷ digits ∷ []) (text "GET") reference false language []
    ∷ spec (lit (text "/universe/system_jumps") ∷ []) (text "GET") time_series false [] []
    ∷ spec (lit (text "/universe/system_kills") ∷ []) (text "GET") time_series false [] []
    ∷ spec (lit (text "/universe/names") ∷ []) (text "POST") reference true [] []
    ∷ spec (lit (text "/universe/ids") ∷ []) (text "POST") reference true [] []
    ∷ spec (lit (text "/characters/") ∷ digits ∷ []) (text "GET") reference false [] []
    ∷ spec (lit (text "/characters/") ∷ digits ∷ lit (text "/portrait") ∷ []) (text "GET") reference
        false [] []
    ∷ spec (lit (text "/characters/") ∷ digits ∷ lit (text "/corporationhistory") ∷ []) (text "GET")
        time_series false [] []
    ∷ spec (lit (text "/characters/affiliation") ∷ []) (text "POST") time_series false [] []
    ∷ spec (lit (text "/corporations/") ∷ digits ∷ []) (text "GET") reference false [] []
    ∷ spec (lit (text "/corporations/") ∷ digits ∷ lit (text "/icons") ∷ []) (text "GET") reference
        false [] []
    ∷ spec (lit (text "/alliances") ∷ []) (text "GET") reference false [] []
    ∷ spec (lit (text "/alliances/") ∷ digits ∷ []) (text "GET") reference false [] []
    ∷ spec (lit (text "/alliances/") ∷ digits ∷ lit (text "/icons") ∷ []) (text "GET") reference
        false [] []
    ∷ spec (lit (text "/alliances/") ∷ digits ∷ lit (text "/corporations") ∷ []) (text "GET")
        reference false [] []
    ∷ spec (lit (text "/contracts/public/") ∷ digits ∷ []) (text "GET") time_series false [] []
    ∷ spec (lit (text "/contracts/public/items/") ∷ digits ∷ []) (text "GET") event false [] []
    ∷ spec (lit (text "/contracts/public/bids/") ∷ digits ∷ []) (text "GET") time_series false [] []
    ∷ spec (lit (text "/killmails/") ∷ digits ∷ lit (text "/") ∷ hex40 ∷ []) (text "GET") event
        false [] []
    ∷ spec (lit (text "/sovereignty/map") ∷ []) (text "GET") time_series false [] []
    ∷ spec (lit (text "/sovereignty/structures") ∷ []) (text "GET") time_series false [] []
    ∷ spec (lit (text "/incursions") ∷ []) (text "GET") time_series false [] []
    ∷ spec (lit (text "/industry/facilities") ∷ []) (text "GET") time_series false [] []
    ∷ spec (lit (text "/status") ∷ []) (text "GET") not_archived false [] []
    ∷ []

unfoldable pub match_endpoint : Text → Text → Option EndpointSpec
unfolding endpoints
match_endpoint unversioned_path method =
    find (λ s. matches s.pattern unversioned_path && elem (upper method) s.methods) endpoints
