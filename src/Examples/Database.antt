-- ===== src/Examples/Database.antt =====
-- A database of lists, a directory as a function and a calendar that prints numbers, to run
-- app/archive.py in.
use eve_api_cache.Base.{
  ℕ, ◌≤◌, ◌≡◌, refl, subst, Bool, true, false, Option, none, some, List, [], ◌∷◌, map, length, All,
  ◌⊎◌, inl, inr, if◌then◌else◌, leb, Text, text_eq, arith, Bool-cases,
}
use eve_api_cache.Base.Exec.{ok, raise, database_error, value_error}
use eve_api_cache.Base.Ints.{str_nat}
use eve_api_cache.Json.{Value}
use eve_api_cache.Postgres.{Postgres, upsert_all, refused, IsGreatest}
use eve_api_cache.Archive.Tables.{Tables}
use eve_api_cache.Archive.Sessions.{Parquet, Calendar, ArchiveEnv}
use eve_api_cache.Archive.Rows.{All-weaken}
use eve_api_cache.Examples.{lib, json}

module _ {R : Type 0} (test : R → Bool) (value : R → ℕ) where
  abbrev pub greater : R → Option R → Option R
  greater r none = some r
  greater r (some x) = if leb (value x) (value r) then some r else some x

  abbrev pub best : List R → Option R
  best [] = none
  best (r ∷ rows) = let rest = best rows in if test r then greater r rest else rest

  abbrev IsBest : List R → Option R → Type 0
  IsBest rows none = All (λ r. test r ≡ false) rows
  IsBest rows (some r) = IsGreatest test value rows r

  greater-IsBest :
      (r : R) (rows : List R) (o : Option R)
      → test r ≡ true
      → IsBest rows o
      → IsBest (r ∷ rows) (greater r o)
  greater-IsBest r rows none here h = (
    here,
    (inl refl, (inr (omega arith), All-weaken (λ x. test x ≡ false) _ rows (λ x e. inl e) h)),
  )
  greater-IsBest r rows (some x) here h = elim (Bool-cases (leb (value x) (value r))) [
    | inl le ↦ rw le (
      here,
      (
        inl refl,
        (
          inr (omega arith),
          All-weaken (λ y. (test y ≡ false) ⊎ (value y ≤ value x)) _ rows (below le) h.1.1,
        ),
      ),
    )
    | inr gt ↦ rw gt (h.0, (inr h.1.0, (inr (ground (arith, gt)), h.1.1)))
  ]
    where
      below :
          leb (value x) (value r) ≡ true
          → (y : R) → (test y ≡ false) ⊎ (value y ≤ value x)
          → (test y ≡ false) ⊎ (value y ≤ value r)
      below le y (inl e) = inl e
      below le y (inr e) = inr (ground (arith, le, e))

  passed-IsBest :
      (r : R) (rows : List R) (o : Option R) → test r ≡ false → IsBest rows o → IsBest (r ∷ rows) o
  passed-IsBest r rows none other h = (other, h)
  passed-IsBest r rows (some x) other h = (h.0, (inr h.1.0, (inl other, h.1.1)))

  best-IsBest : (rows : List R) → IsBest rows (best rows)
  best-IsBest [] = tt
  best-IsBest (r ∷ rows) = elim (Bool-cases (test r)) [
    | inl here ↦ rw here (greater-IsBest r rows (best rows) here (best-IsBest rows))
    | inr other ↦ rw other (passed-IsBest r rows (best rows) other (best-IsBest rows))
  ]

  pub best-none : (rows : List R) → best rows ≡ none → All (λ r. test r ≡ false) rows
  best-none rows e = subst (IsBest rows) e (best-IsBest rows)

  pub best-some : (rows : List R) (r : R) → best rows ≡ some r → IsGreatest test value rows r
  best-some rows r e = subst (IsBest rows) e (best-IsBest rows)

abbrev pub postgres : Postgres
postgres = record {
  Table = List;
  rows = λ t. t;
  insert = λ same act batch t. (
    if refused same act batch then raise database_error else ok tt,
    if refused same act batch then t else upsert_all same act batch t,
  );
  update = λ test change t. map (λ r. if test r then change r else r) t;
  greatest = best;
  rows-insert = λ same act batch t. refl;
  insert_result = λ same act batch t. refl;
  rows-update = λ test change t. refl;
  greatest-none = λ test value t. best-none test value t;
  greatest-some = λ test value t row. best-some test value t row;
}

abbrev pub parquet : Parquet
parquet = record {
  Disk = Text → Option (List Value);
  available = true;
  write_table =
      λ path orders disk. (ok (length orders), λ p. if text_eq path p then some orders else disk p);
  read_table = λ path disk. elim (disk path) [ none ↦ raise value_error | some orders ↦ ok orders ];
}

abbrev pub calendar : Calendar
calendar = record { isoformat = str_nat; strftime = λ format t. str_nat t; second = 1 }

abbrev pub archive_env : (ℕ → Bool) → ArchiveEnv
archive_env up = record {
  pg = postgres;
  json = json;
  sha256 = λ b. b;
  lib = lib;
  parquet = parquet;
  calendar = calendar;
  int_of_float = λ t. raise value_error;
  enable_market_order_parquet = true;
  enable_market_order_deltas = true;
  up = up;
}

abbrev pub no_rows : Tables postgres
no_rows = record {
  timeseries = [];
  blobs = [];
  files = [];
  references = [];
  events = [];
  names = [];
  versions = [];
  entries = [];
  next_timeseries = 1;
  next_file = 1;
}
