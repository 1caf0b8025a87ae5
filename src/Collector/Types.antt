-- ===== src/Collector/Types.antt =====
-- `_discover_type_ids` and `_accumulated_type_ids` of app/collector.py over the archive of
-- app/archive.py. A Python set is a list without repetitions, in the order of its insertions.
use eve_api_cache.Base.{
  All, ℕ, ◌+◌, ◌≡◌, Bool, ◌&&◌, ◌==◌, any, Option, none, some, List, [], ◌∷◌, ◌++◌, if◌then◌else◌,
  Text, Bytes, text, text_eq,
}
use eve_api_cache.Base.Exec.{Result, ok, raise, type_error, value_error}
use eve_api_cache.Base.Ints.{ℤ, pos, negate, str_int, str_nat, int_of}
use eve_api_cache.Json.{Value, null, int, float, str, list, object, elements}
use eve_api_cache.Postgres.{Any}
use eve_api_cache.Allowlist.Keys.{compute_query_hash}
use eve_api_cache.Archive.Mappings.{get_member}
use eve_api_cache.Archive.Tables.{MarketOrderVersion, MarketOrderSnapshotEntry, int_same}
use eve_api_cache.Archive.Sessions.{ArchiveEnv, Session}
use eve_api_cache.Archive.Orders.{has_member, int_of_value}
use eve_api_cache.Archive.Reads.{get_latest_payload}

-- A set of integers from a list.
abbrev pub distinct : List ℤ → List ℤ
distinct [] = []
distinct (n ∷ ns) = let rest = distinct ns in if any (int_same n) rest then rest else n ∷ rest

abbrev pub cons_ok : ℤ → Result (List ℤ) → Result (List ℤ)
cons_ok n (ok rest) = ok (n ∷ rest)
cons_ok n (raise e) = raise e

-- The generator, up to the order whose id `int` refuses with a TypeError or a ValueError. Another
-- exception, an OverflowError, is not caught.
abbrev pub until_refused : Result ℤ → Result (List ℤ) → Result (List ℤ)
until_refused (ok n) rest = cons_ok n rest
until_refused (raise type_error) rest = ok []
until_refused (raise value_error) rest = ok []
until_refused (raise e) rest = raise e

-- The condition of the join.
abbrev pub joins : Text → MarketOrderSnapshotEntry → MarketOrderVersion → Bool
joins datasource e v =
    text_eq v.datasource datasource
    && int_same v.order_id e.order_id
    && text_eq v.version_hash e.version_hash

-- `raw is None`, and the exceptions of `int`, are passed over
abbrev pub id_of_text : Option Text → Option ℤ
id_of_text none = none
id_of_text (some raw) = int_of raw

abbrev pub add_id : Option ℤ → List ℤ → List ℤ
add_id none rest = rest
add_id (some n) rest = n ∷ rest

-- `{"order_type": "all"}`
abbrev pub all_orders : List (Text × Text)
all_orders = (text "order_type", text "all") ∷ []

abbrev pub orders_path : ℕ → Text
orders_path region_id = text "/v1/markets/" ++ (str_nat region_id ++ text "/orders/")

module _ (env : ArchiveEnv) where
  open env use {pg, json, sha256}

  unfoldable pub types_of : List Value → Result (List ℤ)
  types_of [] = ok []
  types_of (object order ∷ orders) =
      let rest = types_of orders in
      if has_member (text "type_id") order
      then until_refused (int_of_value env (get_member (text "type_id") order)) rest
      else rest
  types_of (_ ∷ orders) = types_of orders

  abbrev pub of_loaded : Option Value → Result (List ℤ)
  of_loaded (some (list orders)) = types_of (elements orders)
  of_loaded _ = ok []

  -- The types of the newest snapshot.
  unfoldable pub of_snapshot : Option Bytes → Result (List ℤ)
  of_snapshot none = ok []
  of_snapshot (some raw) = of_loaded (json.loads raw)

  -- `payload ->> 'type_id'`
  abbrev pub as_text : Value → Option Text
  as_text null = none
  as_text (str t) = some t
  as_text (int negative n) = some (str_int (if negative then negate n else pos n))
  as_text (float t) = some t
  as_text v = some (json.dumps v)

  unfoldable pub type_text : Value → Option Text
  type_text (object order) = as_text (get_member (text "type_id") order)
  type_text _ = none

  -- The rows of the join for one entry, as ids.
  unfoldable pub of_entry : Text → MarketOrderSnapshotEntry → List MarketOrderVersion → List ℤ
  of_entry datasource e [] = []
  of_entry datasource e (v ∷ versions) =
      let rest = of_entry datasource e versions in
      if joins datasource e v then add_id (id_of_text (type_text v.payload)) rest else rest

  unfoldable pub of_entries :
      Text → ℕ → List MarketOrderSnapshotEntry → List MarketOrderVersion → List ℤ
  of_entries datasource region_id [] versions = []
  of_entries datasource region_id (e ∷ entries) versions =
      let rest = of_entries datasource region_id entries versions in
      if e.region_id == region_id then of_entry datasource e versions ++ rest else rest

  -- `_accumulated_type_ids`: the empty set where the statement fails
  unfoldable pub accumulated_type_ids : Text → ℕ → Session env → List ℤ
  accumulated_type_ids datasource region_id s =
      if env.up (s.sent + 1)
      then of_entries datasource region_id (pg.rows s.working.entries) (pg.rows s.working.versions)
      else []

  abbrev pub united : Result (List ℤ) → List ℤ → Result (List ℤ)
  united (raise e) ids = raise e
  united (ok listed) ids = ok (distinct (listed ++ ids))

  abbrev pub and_accumulated : Result (Option Bytes) → List ℤ → Result (List ℤ)
  and_accumulated (raise e) ids = raise e
  and_accumulated (ok payload) ids = united (of_snapshot payload) ids

  -- `_discover_type_ids`
  unfoldable pub discover_type_ids : ℕ → Text → Session env → Result (List ℤ)
  discover_type_ids region_id datasource s =
      and_accumulated
        (get_latest_payload env datasource (orders_path region_id)
          (compute_query_hash json sha256 all_orders none) s)
        (accumulated_type_ids datasource region_id s)

abbrev pub IsIn : ℤ → List ℤ → Type 0
IsIn n ids = Any (λ m. m ≡ n) ids

-- What a discovery ends with, from the ids of the newest snapshot: the exception of these, or a set
-- that has them and `n`.
abbrev pub Discovered : ℤ → Result (List ℤ) → Result (List ℤ) → Type 0
Discovered n (raise e) end = end ≡ raise e
Discovered n (ok listed) end =
    (ids : List ℤ) × ((end ≡ ok ids) × (IsIn n ids × All (λ m. IsIn m ids) listed))
