-- ===== src/Cache/Names.antt =====
-- The names of entities in app/cache.py: `get_name`, `set_name` and `set_names`.
use eve_api_cache.Base.{ℕ, Option, none, some, List, [], ◌∷◌, map, Text, Bytes, text}
use eve_api_cache.Base.Exec.{Exec, ok}
use eve_api_cache.Base.Ints.{ℤ}
use eve_api_cache.Json.{Codec, Value, null, str, object, member, end}
use eve_api_cache.Redis.{Redis, Command, set}
use eve_api_cache.Cache.Client.{name_key}

-- `{"name": name, "category": category}`
abbrev pub or_null : Option Text → Value
or_null none = null
or_null (some t) = str t

abbrev pub name_value : Text → Option Text → Value
name_value name category =
    object (member (text "name") (str name) (member (text "category") (or_null category) end))

module _ (r : Redis) (json : Codec) where
  open r use {Store, get as redis_get, execute, get-execute}
  open json use {loads, dumps}

  abbrev pub loaded : Option Bytes → Option Value
  loaded none = none
  loaded (some raw) = loads raw

  -- `get_name`; where the stored bytes are no JSON, which this code never writes, the source raises
  unfoldable pub get_name : Text → ℤ → ℕ → Store → Option Value
  get_name datasource entity_id now s = loaded (redis_get s now (name_key datasource entity_id))

  abbrev pub name_command : Text → ℕ → ℤ × (Text × Option Text) → Command
  name_command datasource ttl (entity_id, (name, category)) =
      set (name_key datasource entity_id) (dumps (name_value name category)) ttl

  -- `set_name`
  unfoldable pub set_name : Text → ℤ → Text → Option Text → ℕ → ℕ → Exec Store (Unit {0})
  set_name datasource entity_id name category ttl now =
      execute (name_command datasource ttl (entity_id, (name, category)) ∷ []) now

  -- `set_names`
  unfoldable pub set_names : Text → List (ℤ × (Text × Option Text)) → ℕ → ℕ → Exec Store (Unit {0})
  set_names datasource [] ttl now = λ s. (ok tt, s)
  set_names datasource (item ∷ items) ttl now =
      execute (map (name_command datasource ttl) (item ∷ items)) now
