-- ===== src/Proxy/Admission.antt =====
-- The checks at the head of `_dispatch`, and what it computes from an admitted request.
use eve_api_cache.Base.{
  ℕ, Bool, true, false, Option, none, some, [], ◌∷◌, ltb, if◌then◌else◌, all, length, Text, Bytes,
  text, text_eq, upper, get_or,
}
use eve_api_cache.Base.Dict.{Dict, lookup, insert}
use eve_api_cache.Base.Ints.{pos}
use eve_api_cache.Json.{Codec, Value, int, str, list, object, end, member, elements}
use eve_api_cache.Allowlist.Endpoints.{EndpointSpec, match_endpoint}
use eve_api_cache.Allowlist.Path.{validate_path, validate_datasource}
use eve_api_cache.Allowlist.Params.{check_params, normalize_params}
use eve_api_cache.Allowlist.Keys.{normalize_body, compute_query_hash, build_cache_key}
use eve_api_cache.Allowlist.Labels.{endpoint_label}
use eve_api_cache.Proxy.Defs.{ProxyResult, result, error, Settings}

-- `isinstance(item, (int, str)) and not isinstance(item, bool)`
abbrev pub is_batch_item : Value → Bool
is_batch_item (int s n) = true
is_batch_item (str t) = true
is_batch_item _ = false

abbrev required_message : Bytes
required_message = text "{\"error\":\"POST body required\"}"

-- The checks of `_validate_post_body` on what the body loads as.
unfoldable pub validate_loaded : ℕ → Option Value → Option Bytes
validate_loaded max_items none = some (text "{\"error\":\"invalid JSON body\"}")
validate_loaded max_items (some (list items)) =
    if ltb max_items (length (elements items))
    then some (text "{\"error\":\"POST batch too large\"}")
    else if all is_batch_item (elements items)
    then none
    else some (text "{\"error\":\"POST batch items must be strings or integers\"}")
validate_loaded max_items (some _) = some (text "{\"error\":\"POST body must be a JSON list\"}")

-- What a request is once it is admitted.
pub record Plan : Type 0 where
  pub spec : EndpointSpec
  pub datasource : Text
  pub body : Option Bytes
  pub query_hash : Text
  pub cache_key : Text
  pub esi_params : Dict Text

pub data Admission : Type 0 where
  rejected : ProxyResult → Admission
  admitted : Plan → Admission

module _ (json : Codec) (sha256 : Bytes → Text) (cfg : Settings) where
  open json use {loads, dumps}

  unfoldable pub validate_post_body : Option Bytes → ℕ → Option Bytes
  unfolding validate_loaded
  validate_post_body none max_items = some required_message
  validate_post_body (some []) max_items = some required_message
  validate_post_body (some (b ∷ bs)) max_items = validate_loaded max_items (loads (b ∷ bs))

  -- `esi_params`
  unfoldable pub params_for_esi : Text → Dict Text → Dict Text
  params_for_esi datasource params =
      if text_eq datasource (text "tranquility")
      then normalize_params params
      else insert (text "datasource") datasource (normalize_params params)

  -- From `clean_params` on; `body` is normalised already.
  unfoldable pub plan_for : EndpointSpec → Text → Text → Text → Dict Text → Option Bytes → Plan
  unfolding params_for_esi
  plan_for spec datasource method full_path params body = record {
    spec = spec;
    datasource = datasource;
    body = body;
    query_hash = compute_query_hash json sha256 (normalize_params params) body;
    cache_key = build_cache_key json sha256 datasource method full_path params body;
    esi_params = params_for_esi datasource params;
  }

  abbrev bad_request : Bytes → Admission
  bad_request body = rejected (result (pos 400) body error)

  unfoldable pub admit_body :
      EndpointSpec → Text → Text → Text → Dict Text → Option Bytes → Admission
  admit_body spec datasource method full_path params body =
      if text_eq (upper method) (text "POST")
      then elim (validate_post_body body cfg.max_post_batch_items) [
        | some message ↦ bad_request message
        | none ↦
            admitted
              (plan_for spec datasource method full_path params (normalize_body json sha256 body))
      ]
      else admitted (plan_for spec datasource method full_path params body)

  unfoldable pub admit_params :
      EndpointSpec → Text → Text → Text → Dict Text → Option Bytes → Admission
  admit_params spec datasource method full_path params body = elim (check_params spec params) [
    | some message ↦ bad_request (dumps (object (member (text "error") (str message) end)))
    | none ↦ admit_body spec datasource method full_path params body
  ]

  unfoldable pub admit_spec :
      Text → Text → Dict Text → Option Bytes → Option EndpointSpec → Admission
  admit_spec full_path method params body none =
      rejected (result (pos 404) (text "{\"error\":\"endpoint not in allowlist\"}") error)
  admit_spec full_path method params body (some spec) =
      let datasource = get_or (lookup (text "datasource") params) cfg.default_datasource in
      if validate_datasource datasource
      then admit_params spec datasource method full_path params body
      else bad_request (text "{\"error\":\"invalid datasource\"}")

  -- Steps 1 and 2 of `_dispatch`.
  unfoldable pub admit : Text → Text → Dict Text → Option Bytes → Admission
  admit full_path method params body = elim (validate_path full_path) [
    | none ↦ bad_request (text "{\"error\":\"invalid path\"}")
    | some (version, rest_path) ↦
        admit_spec full_path method params body (match_endpoint rest_path method)
  ]

-- `_endpoint_label_for`
unfoldable pub endpoint_label_for : Text → Text → Text
endpoint_label_for full_path method = elim (validate_path full_path) [
  | none ↦ text "invalid"
  | some (version, rest_path) ↦ elim (match_endpoint rest_path method) [
    | none ↦ text "unmatched"
    | some spec ↦ endpoint_label spec
  ]
]
