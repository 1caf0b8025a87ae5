-- ===== src/Allowlist/Keys.antt =====
-- The normal form of a POST body, the query hash and the cache key of app/allowlist.py. `sha256`
-- is the hexadecimal digest of `hashlib`, and `json` the codec of the `json` module.
use eve_api_cache.Base.{
  true, false, Option, none, some, List, [], ◌∷◌, ◌++◌, if◌then◌else◌, take, Text, Bytes, text,
  text_eq, elem, upper,
}
use eve_api_cache.Base.Dict.{Dict}
use eve_api_cache.Json.{
  Codec, Value, Members, str, list, object, end, member, elements, of_elements,
}
use eve_api_cache.Allowlist.Params.{sorted, normalize_params}

-- A `dict` of texts as a JSON value.
unfoldable pub members : Dict Text → Members
members [] = end
members ((k, v) ∷ d) = member k (str v) (members d)

module _ (json : Codec) (sha256 : Bytes → Text) where
  open json use {loads, dumps_sorted, dumps_compact}

  -- The loop of `normalize_body`: an item is kept where its marker is new.
  unfoldable pub dedupe : List Text → List Value → List Value
  dedupe seen [] = []
  dedupe seen (item ∷ items) =
      let marker = dumps_compact item in
      elim (elem marker seen) [
        | true ↦ dedupe seen items
        | false ↦ item ∷ dedupe (marker ∷ seen) items
      ]

  -- The items of a batch, sorted by their text and without repetitions.
  unfoldable pub normal_items : List Value → List Value
  unfolding dedupe sorted
  normal_items items = dedupe [] (sorted dumps_sorted items)

  unfoldable pub normalize_loaded : Bytes → Option Value → Bytes
  normalize_loaded body (some (list items)) =
      dumps_compact (list (of_elements (normal_items (elements items))))
  normalize_loaded body other = body

  unfoldable pub normalize_body : Option Bytes → Option Bytes
  unfolding normalize_loaded
  normalize_body none = none
  normalize_body (some []) = some []
  normalize_body (some (b ∷ bs)) = some (normalize_loaded (b ∷ bs) (loads (b ∷ bs)))

  -- What the hash is updated with for a body.
  unfoldable pub hashed_body : Option Bytes → Bytes
  unfolding normalize_loaded
  hashed_body none = []
  hashed_body (some []) = []
  hashed_body (some (b ∷ bs)) =
      let normal = normalize_loaded (b ∷ bs) (loads (b ∷ bs)) in
      if text_eq normal [] then b ∷ bs else normal

  unfoldable pub compute_query_hash : Dict Text → Option Bytes → Text
  unfolding hashed_body
  compute_query_hash params body =
      take 16
        (sha256 (dumps_sorted (object (members (normalize_params params))) ++ hashed_body body))

  unfoldable pub build_cache_key : Text → Text → Text → Dict Text → Option Bytes → Text
  build_cache_key datasource method full_path params body =
      text "esi:"
      ++ (datasource
          ++ (text ":"
              ++ (upper method
                  ++ (text ":" ++ (full_path ++ (text ":" ++ compute_query_hash params body))))))
