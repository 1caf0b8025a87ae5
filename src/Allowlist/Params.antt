-- ===== src/Allowlist/Params.antt =====
-- The query parameters in app/allowlist.py: their check against an endpoint, and their normal form.
-- A `dict` of parameters is an association list; the order of its entries is the caller's.
use eve_api_cache.Base.{
  Bool, true, false, ◌&&◌, ◌||◌, not, Option, none, some, List, [], ◌∷◌, ◌++◌, map, ltb, ◌==◌,
  if◌then◌else◌, Text, text, elem, filter, String,
}
use eve_api_cache.Base.Dict.{Dict}
use eve_api_cache.Allowlist.Endpoints.{EndpointSpec}

-- `_PROXY_PARAMS`
abbrev pub proxy_params : List Text
proxy_params = text "page" ∷ text "datasource" ∷ []

-- The order of `str`: by code points.
unfoldable pub text_lt : Text → Text → Bool
text_lt [] [] = false
text_lt [] (y ∷ ys) = true
text_lt (x ∷ xs) [] = false
text_lt (x ∷ xs) (y ∷ ys) = ltb x y || (x == y && text_lt xs ys)

-- `sorted` by a text key, which keeps the order of equal keys: an insertion sort.
module _ {ℓ} {A : Type ℓ} (key : A → Text) where
  unfoldable pub insert_sorted : A → List A → List A
  insert_sorted a [] = a ∷ []
  insert_sorted a (b ∷ bs) =
      let rest = insert_sorted a bs in if text_lt (key b) (key a) then b ∷ rest else a ∷ b ∷ bs

  unfoldable pub sorted : List A → List A
  sorted [] = []
  sorted (a ∷ as') = insert_sorted a (sorted as')

-- `", ".join(names)`
unfoldable pub join : List Text → Text
join [] = []
join (n ∷ []) = n
join (n ∷ m ∷ ns) = n ++ (text ", " ++ join (m ∷ ns))

abbrev pub keys {ℓ} : {V : Type ℓ} → Dict V → List Text
keys = map (λ e. e.0)

-- `set(params) - _PROXY_PARAMS - spec.allowed_params`
unfoldable pub unknown_params : EndpointSpec → Dict Text → List Text
unknown_params spec params =
    filter (λ k. not (elem k proxy_params) && not (elem k spec.allowed_params)) (keys params)

-- `spec.required_params - set(params)`
unfoldable pub missing_params : EndpointSpec → Dict Text → List Text
missing_params spec params = filter (λ k. not (elem k (keys params))) spec.required_params

abbrev pub complain : String → List Text → Option Text → Option Text
complain message [] otherwise = otherwise
complain message (n ∷ ns) otherwise = some (text message ++ join (sorted (λ k. k) (n ∷ ns)))

unfoldable pub check_params : EndpointSpec → Dict Text → Option Text
unfolding unknown_params missing_params
check_params spec params =
    complain "unsupported query parameter(s): " (unknown_params spec params)
      (complain "missing required query parameter(s): " (missing_params spec params) none)

unfoldable pub normalize_params : Dict Text → Dict Text
unfolding sorted
normalize_params params = filter (λ e. not (elem e.0 proxy_params)) (sorted (λ e. e.0) params)
