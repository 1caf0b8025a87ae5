-- ===== src/Proxy/Rejections.antt =====
-- What `_dispatch` of app/proxy.py refuses, and what an admitted request satisfies.
use eve_api_cache.Base.{
  ◌≡◌, ◌⊎◌, inl, inr, refl, true, false, Option, none, some, Text, Bytes, text, text_eq, upper,
  Bool-cases, Option-cases, get_or,
}
use eve_api_cache.Base.Dict.{Dict, lookup}
use eve_api_cache.Base.Ints.{pos}
use eve_api_cache.Json.{Codec}
use eve_api_cache.Allowlist.Endpoints.{match_endpoint, EndpointSpec}
use eve_api_cache.Allowlist.Path.{validate_path, validate_datasource}
use eve_api_cache.Allowlist.Params.{check_params}
use eve_api_cache.Proxy.Defs.{Settings, error}
use eve_api_cache.Proxy.Admission.{
  Admission, rejected, admitted, validate_post_body, plan_for, admit_body, admit_params, admit_spec,
  admit,
}

module _ (json : Codec) (sha256 : Bytes → Text) (cfg : Settings) where
  -- A refusal is an error with status 400 or 404; an admitted request has passed every check.
  abbrev pub Checked :
      Text → Text → Dict Text → Option Bytes → Option EndpointSpec → Admission → Type 0
  Checked full_path method params body found (rejected answer) =
      (answer.cache_status ≡ error) × ((answer.status ≡ pos 400) ⊎ (answer.status ≡ pos 404))
  Checked full_path method params body found (admitted plan) =
      (found ≡ some plan.spec)
      × (validate_datasource plan.datasource ≡ true)
      × (check_params plan.spec params ≡ none)
      × ((text_eq (upper method) (text "POST") ≡ false)
          ⊎ (validate_post_body json sha256 cfg body cfg.max_post_batch_items ≡ none))

  admit_body-Checked :
      (full_path method datasource : Text) (params : Dict Text) (body : Option Bytes)
      (spec : EndpointSpec)
      → validate_datasource datasource ≡ true
      → check_params spec params ≡ none
      → Checked full_path method params body
          (some spec)
          (admit_body json sha256 cfg spec datasource method full_path params body)
  unfolding admit_body plan_for
  admit_body-Checked full_path method datasource params body spec ds checks =
      elim (Bool-cases (text_eq (upper method) (text "POST"))) [
        | inl post ↦
            elim (Option-cases (validate_post_body json sha256 cfg body cfg.max_post_batch_items)) [
              | inl valid ↦ rw (post, valid) (refl, ds, checks, inr valid)
              | inr (message, e) ↦ rw (post, e) (refl, inl refl)
            ]
        | inr other ↦ rw other (refl, ds, checks, inl other)
      ]

  admit_params-Checked :
      (full_path method datasource : Text) (params : Dict Text) (body : Option Bytes)
      (spec : EndpointSpec)
      → validate_datasource datasource ≡ true
      → Checked full_path method params body
          (some spec)
          (admit_params json sha256 cfg spec datasource method full_path params body)
  unfolding admit_params
  admit_params-Checked full_path method datasource params body spec ds =
      elim (Option-cases (check_params spec params)) [
        | inl fine ↦
            rw (fine, admit_params)
              (admit_body-Checked full_path method datasource params body spec ds fine)
        | inr (message, e) ↦ rw (e, admit_params) (refl, inl refl)
      ]

  admit_spec-Checked :
      (full_path method : Text) (params : Dict Text) (body : Option Bytes)
      (found : Option EndpointSpec)
      → Checked full_path method params body found
          (admit_spec json sha256 cfg full_path method params body found)
  unfolding admit_spec
  admit_spec-Checked full_path method params body none = (refl, inr refl)
  admit_spec-Checked full_path method params body (some spec) =
      elim (Bool-cases
        (validate_datasource (get_or (lookup (text "datasource") params) cfg.default_datasource))) [
          | inl ds ↦ rw ds (admit_params-Checked full_path method _ params body spec ds)
          | inr bad ↦ rw bad (refl, inl refl)
        ]

  -- The endpoint that a path and method lead to.
  abbrev pub endpoint_of : Text → Option (Text × Text) → Option EndpointSpec
  endpoint_of method none = none
  endpoint_of method (some (version, rest_path)) = match_endpoint rest_path method

  -- A request is refused with an error of status 400 or 404, or it has a valid path, an endpoint of
  -- the table for its method, a known datasource, parameters that the endpoint takes, and, if it is
  -- a POST, a valid batch of items for a body.
  pub admit-Checked :
      (full_path method : Text) (params : Dict Text) (body : Option Bytes)
      → Checked full_path method params body
          (endpoint_of method (validate_path full_path))
          (admit json sha256 cfg full_path method params body)
  unfolding admit
  admit-Checked full_path method params body = elim (Option-cases (validate_path full_path)) [
    | inl bad ↦ rw (bad, admit) (refl, inl refl)
    | inr (parts, e) ↦
        rw (e, admit)
          (admit_spec-Checked full_path method params body (match_endpoint parts.1 method))
  ]
