-- ===== src/Cache/Client.antt =====
-- `CacheClient` of app/cache.py, over a Redis server. A method takes the time of its one round
-- trip; the state is the store, and a refused command raises.
use eve_api_cache.Base.{
  ℕ, ◌+◌, Option, none, some, List, [], ◌∷◌, ◌++◌, ltb, if◌then◌else◌, Text, Bytes, text,
}
use eve_api_cache.Base.Exec.{Exec}
use eve_api_cache.Base.Ints.{ℤ, str_nat, str_int, int_of}
use eve_api_cache.Redis.{Redis, Command, set, delete}
use eve_api_cache.Cache.Values.{Compressor, decode_value, stored_value}

abbrev pub body_key : Text → Text
body_key key = text "esi:body:" ++ key

abbrev pub stale_key : Text → Text
stale_key key = text "esi:stale:" ++ key

abbrev pub etag_key : Text → Text
etag_key key = text "esi:etag:" ++ key

abbrev pub ttl_key : Text → Text
ttl_key key = text "esi:ttl:" ++ key

abbrev pub neg_body_key : Text → Text
neg_body_key key = text "esi:neg:body:" ++ key

abbrev pub neg_status_key : Text → Text
neg_status_key key = text "esi:neg:status:" ++ key

abbrev pub name_key : Text → ℤ → Text
name_key datasource entity_id = text "esi:name:" ++ (datasource ++ (text ":" ++ str_int entity_id))

-- `x if x else None`: an empty text counts as absent.
abbrev pub non_empty : Option Bytes → Option Bytes
non_empty none = none
non_empty (some []) = none
non_empty (some (c ∷ cs)) = some (c ∷ cs)

-- `stale_ttl > 0`
unfoldable pub stale_commands : Text → Bytes → ℕ → ℕ → List Command
stale_commands key stored ttl stale_ttl =
    if ltb 0 stale_ttl
    then set (stale_key key) stored (ttl + stale_ttl) ∷ []
    else delete (stale_key key) ∷ []

-- `if etag`
unfoldable pub etag_commands : Text → ℕ → Option Bytes → List Command
etag_commands key ttl none = delete (etag_key key) ∷ delete (ttl_key key) ∷ []
etag_commands key ttl (some etag) =
    set (etag_key key) etag (ttl + 60) ∷ set (ttl_key key) (str_nat ttl) (ttl + 60) ∷ []

-- The pipeline of `set`, for the value to store and an ETag that is not empty.
unfoldable pub set_commands : Text → Bytes → ℕ → Option Bytes → ℕ → List Command
unfolding stale_commands etag_commands
set_commands key stored ttl etag stale_ttl =
    set (body_key key) stored ttl
    ∷ (stale_commands key stored ttl stale_ttl
        ++ (etag_commands key ttl etag
            ++ delete (neg_body_key key) ∷ delete (neg_status_key key) ∷ []))

-- The pipeline of `set_negative`.
abbrev pub negative_commands : Text → Bytes → ℕ → ℕ → List Command
negative_commands key body status ttl =
    set (neg_body_key key) body ttl ∷ set (neg_status_key key) (str_nat status) ttl ∷ []

-- `int(raw)` of a stored number
abbrev pub parsed : Option Bytes → Option ℤ
parsed none = none
parsed (some raw) = int_of raw

abbrev pub both : Option Bytes → Option ℤ → Option (Bytes × ℤ)
both none status = none
both (some body) none = none
both (some body) (some status) = some (body, status)

module _ (r : Redis) (lib : Compressor) (compress_min_bytes : ℕ) where
  open r use {Store, get as redis_get, execute}

  -- The pipeline of `get` reads the body and the ETag.
  abbrev fresh_of : Option Bytes → Option Bytes → Option (Bytes × Option Bytes)
  fresh_of none etag = none
  fresh_of (some body) etag = some (decode_value lib body, non_empty etag)

  unfoldable pub get : Text → ℕ → Store → Option (Bytes × Option Bytes)
  get key now s = fresh_of (redis_get s now (body_key key)) (redis_get s now (etag_key key))

  unfoldable pub set_body : Text → Bytes → ℕ → Option Bytes → ℕ → ℕ → Exec Store (Unit {0})
  set_body key body ttl etag stale_ttl now =
      execute
        (set_commands key (stored_value lib compress_min_bytes body) ttl (non_empty etag) stale_ttl)
        now

  unfoldable pub get_ttl : Text → ℕ → Store → Option ℤ
  get_ttl key now s = parsed (redis_get s now (ttl_key key))

  unfoldable pub set_negative : Text → Bytes → ℕ → ℕ → ℕ → Exec Store (Unit {0})
  set_negative key body status ttl now = execute (negative_commands key body status ttl) now

  unfoldable pub get_negative : Text → ℕ → Store → Option (Bytes × ℤ)
  get_negative key now s =
      both (redis_get s now (neg_body_key key)) (parsed (redis_get s now (neg_status_key key)))

  abbrev decoded : Option Bytes → Option Bytes
  decoded none = none
  decoded (some raw) = some (decode_value lib raw)

  unfoldable pub get_stale : Text → ℕ → Store → Option Bytes
  get_stale key now s = decoded (redis_get s now (stale_key key))

  -- `cache._r.get(f"esi:etag:{cache_key}")`, as the proxy reads it
  unfoldable pub get_etag : Text → ℕ → Store → Option Bytes
  get_etag key now s = non_empty (redis_get s now (etag_key key))
