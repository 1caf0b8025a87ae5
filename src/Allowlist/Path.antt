-- ===== src/Allowlist/Path.antt =====
-- `validate_path` and `validate_datasource` of app/allowlist.py.
use eve_api_cache.Base.{
  Bool, false, ◌||◌, Option, none, some, List, [], ◌∷◌, ◌==◌, leb, if◌then◌else◌, Text, text, elem,
  starts_with,
}

-- `VALID_VERSIONS`
abbrev pub valid_versions : List Text
valid_versions =
    text "v1"
    ∷ text "v2"
    ∷ text "v3"
    ∷ text "v4"
    ∷ text "v5"
    ∷ text "v6"
    ∷ text "latest"
    ∷ text "legacy"
    ∷ text "dev"
    ∷ []

-- `VALID_DATASOURCES`
abbrev pub valid_datasources : List Text
valid_datasources = text "tranquility" ∷ text "singularity" ∷ []

-- `_DANGEROUS` at the head of a text: `..`, `%2e` and `%2f` in either case, a backslash, a
-- control character, `//`
unfoldable pub danger_at : Text → Bool
danger_at [] = false
danger_at (c ∷ cs) =
    starts_with (text "..") (c ∷ cs)
    || starts_with (text "%2e") (c ∷ cs)
    || starts_with (text "%2E") (c ∷ cs)
    || starts_with (text "%2f") (c ∷ cs)
    || starts_with (text "%2F") (c ∷ cs)
    || c == 92
    || leb c 31
    || starts_with (text "//") (c ∷ cs)

-- `_DANGEROUS.search(full_path)`
unfoldable pub is_dangerous : Text → Bool
unfolding danger_at
is_dangerous [] = false
is_dangerous (c ∷ cs) = danger_at (c ∷ cs) || is_dangerous cs

-- `lstrip("/")`
unfoldable pub lstrip_slash : Text → Text
lstrip_slash [] = []
lstrip_slash (c ∷ cs) = let rest = lstrip_slash cs in if c == b'/' then rest else c ∷ cs

-- `split("/", 1)`: the part before the first slash, and the part behind it if there is one
unfoldable pub split_slash : Text → Text × Option Text
split_slash [] = ([], none)
split_slash (c ∷ cs) =
    let (head, rest) = split_slash cs in if c == b'/' then ([], some cs) else (c ∷ head, rest)

unfoldable pub versioned : Text × Option Text → Option (Text × Text)
versioned (version, none) = none
versioned (version, some rest) =
    if elem version valid_versions then some (version, b'/' ∷ rest) else none

unfoldable pub validate_path : Text → Option (Text × Text)
unfolding versioned
validate_path full_path =
    if is_dangerous full_path then none else versioned (split_slash (lstrip_slash full_path))

unfoldable pub validate_datasource : Text → Bool
validate_datasource datasource = elem datasource valid_datasources
