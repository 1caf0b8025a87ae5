-- ===== src/Archive/Mappings.antt =====
-- `_extract_name_mappings` of app/archive.py, on what the payload loads as.
use eve_api_cache.Base.{
  Bool, true, false, not, ◌&&◌, ◌||◌, List, [], ◌∷◌, ◌++◌, ◌==◌, if◌then◌else◌, Text, text, text_eq,
}
use eve_api_cache.Json.{
  Value, Values, Members, null, bool, int, float, str, list, object, nil, cons, end, member,
}

-- `bool(value)`
unfoldable pub truthy : Value → Bool
truthy null = false
truthy (bool b) = b
truthy (int negative n) = not (n == 0)
truthy (float t) = not (text_eq t (text "0.0") || text_eq t (text "-0.0"))
truthy (str t) = not (text_eq t [])
truthy (list nil) = false
truthy (list (cons v vs)) = true
truthy (object end) = false
truthy (object (member k v ms)) = true

-- `item.get(key)`
unfoldable pub get_member : Text → Members → Value
get_member key end = null
get_member key (member k v ms) = let rest = get_member key ms in if text_eq k key then v else rest

abbrev pub Mapping : Type 0
Mapping = Value × (Value × Value)

-- The mapping of an object with an id and a name, in a category.
unfoldable pub mapping : Members → Value → List Mapping
mapping item category =
    if truthy (get_member (text "id") item) && truthy (get_member (text "name") item)
    then (get_member (text "id") item, (get_member (text "name") item, category)) ∷ []
    else []

-- The items of a list, with their own categories.
unfoldable pub of_list : Values → List Mapping
of_list nil = []
of_list (cons (object item) items) =
    mapping item (get_member (text "category") item) ++ of_list items
of_list (cons _ items) = of_list items

-- The items of a list, in one category.
unfoldable pub in_category : Value → Values → List Mapping
in_category category nil = []
in_category category (cons (object item) items) =
    mapping item category ++ in_category category items
in_category category (cons _ items) = in_category category items

-- `category[:-1] if category.endswith("s") else category`
unfoldable pub singular : Text → Text
singular [] = []
singular (c ∷ []) = if c == b's' then [] else c ∷ []
singular (c ∷ d ∷ cs) = c ∷ singular (d ∷ cs)

unfoldable pub of_categories : Members → List Mapping
of_categories end = []
of_categories (member category (list values) rest) =
    in_category (str (singular category)) values ++ of_categories rest
of_categories (member category _ rest) = of_categories rest

-- `_extract_name_mappings`
unfoldable pub extract_name_mappings : Value → List Mapping
extract_name_mappings (list items) = of_list items
extract_name_mappings (object categories) = of_categories categories
extract_name_mappings _ = []
