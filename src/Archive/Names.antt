-- ===== src/Archive/Names.antt =====
-- `write_names` of app/archive.py, on a session and a Redis store.
use eve_api_cache.Base.{
  ℕ, Option, none, some, List, [], ◌∷◌, ◌++◌, map, if◌then◌else◌, Text, Bytes, text,
}
use eve_api_cache.Base.Exec.{Exec, Result, ok, raise, database_error, pure, ◌>>=◌, ◌>>◌}
use eve_api_cache.Base.Ints.{ℤ, pos, negate}
use eve_api_cache.Json.{Value, null, int, str}
use eve_api_cache.Redis.{Redis}
use eve_api_cache.Postgres.{do_update}
use eve_api_cache.Cache.Names.{set_names}
use eve_api_cache.Archive.Batches.{chunks}
use eve_api_cache.Archive.Mappings.{Mapping, extract_name_mappings}
use eve_api_cache.Archive.Tables.{Tables, IdNameCache, same_name}
use eve_api_cache.Archive.Sessions.{ArchiveEnv, Session, execute, commit}
use eve_api_cache.Archive.Orders.{answer}

-- What the driver sends for a category, if it sends it.
abbrev pub category_of : Value → Result (Option Text)
category_of null = ok none
category_of (str t) = ok (some t)
category_of _ = raise database_error

abbrev pub name_entry : Text → ℕ → ℤ → Text → Result (Option Text) → Result IdNameCache
name_entry datasource now entity_id name (raise e) = raise e
name_entry datasource now entity_id name (ok category) = ok (record {
  datasource = datasource;
  entity_id = entity_id;
  entity_name = name;
  category = category;
  first_seen_at = now;
  last_updated_at = now;
})

-- The row of a mapping; the driver refuses an id that is no integer, and a name or a category that
-- is no text.
unfoldable pub name_row : Text → ℕ → Mapping → Result IdNameCache
name_row datasource now (int negative n, (str name, category)) =
    name_entry datasource now (if negative then negate n else pos n) name (category_of category)
name_row datasource now _ = raise database_error

abbrev pub and_rows : Result IdNameCache → Result (List IdNameCache) → Result (List IdNameCache)
and_rows (raise e) rest = raise e
and_rows (ok row) (raise e) = raise e
and_rows (ok row) (ok rows) = ok (row ∷ rows)

unfoldable pub name_rows : Text → ℕ → List Mapping → Result (List IdNameCache)
name_rows datasource now [] = ok []
name_rows datasource now (m ∷ ms) =
    and_rows (name_row datasource now m) (name_rows datasource now ms)

abbrev pub renamed : IdNameCache → IdNameCache → IdNameCache
renamed old new = record old {
  entity_name = new.entity_name;
  category = new.category;
  last_updated_at = new.last_updated_at;
}

-- `category or "unknown"`
abbrev pub or_unknown : Option Text → Text
or_unknown none = text "unknown"
or_unknown (some []) = text "unknown"
or_unknown (some (c ∷ cs)) = c ∷ cs

abbrev pub name_item : IdNameCache → ℤ × (Text × Option Text)
name_item row = (row.entity_id, (row.entity_name, some (or_unknown row.category)))

-- `ttl` of `set_names`
abbrev pub name_ttl : ℕ
name_ttl = 86400

module _ (env : ArchiveEnv) where
  open env use {pg, json}

  -- One INSERT, of a batch that the driver could send or not.
  abbrev pub put_names :
      Result (List IdNameCache) → Tables pg → Result (List IdNameCache) × Tables pg
  put_names (raise e) t = (raise e, t)
  put_names (ok rows) t =
      let (r, names) = pg.insert same_name (do_update renamed) rows t.names in
      (answer r rows, record t { names = names })

  -- The loop over the batches, and the rows that it wrote.
  unfoldable pub insert_names :
      Text → ℕ → List (List Mapping) → Exec (Session env) (List IdNameCache)
  insert_names datasource now [] = pure []
  insert_names datasource now (batch ∷ batches) = do
    rows ← execute env (put_names (name_rows datasource now batch))
    rest ← insert_names datasource now batches
    pure (rows ++ rest)

  module _ (redis : Redis) where
    abbrev pub on_session : {A : Type 0} → Exec (Session env) A → Exec (Session env × redis.Store) A
    on_session m (s, store) = let (r, s') = m s in (r, (s', store))

    abbrev pub on_store : {A : Type 0} → Exec redis.Store A → Exec (Session env × redis.Store) A
    on_store m (s, store) = let (r, store') = m store in (r, (s, store'))

    -- From `if not mappings` on; `clock` is the time of the Redis server.
    unfoldable pub write_mappings :
        Text → List Mapping → ℕ → ℕ → Exec (Session env × redis.Store) (Unit {0})
    write_mappings datasource [] now clock = pure tt
    write_mappings datasource (m ∷ ms) now clock = do
      rows ← on_session (insert_names datasource now (chunks (m ∷ ms) 1000))
      on_store (set_names redis json datasource (map name_item rows) name_ttl clock)
      on_session (commit env)

    abbrev pub of_data : Option Value → List Mapping
    of_data none = []
    of_data (some loaded) = extract_name_mappings loaded

    -- `write_names`
    unfoldable pub write_names : Text → Bytes → ℕ → ℕ → Exec (Session env × redis.Store) (Unit {0})
    write_names datasource payload now clock =
        write_mappings datasource (of_data (json.loads payload)) now clock
