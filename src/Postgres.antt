-- ===== src/Postgres.antt =====
-- PostgreSQL, which the program calls through SQLAlchemy: tables of rows, and what the documentation
-- of INSERT ... ON CONFLICT, UPDATE and ORDER BY ... DESC LIMIT 1 promises. Widths of columns and
-- foreign keys are left out. `rows` lists the rows of a table in the order of their insertion.
use eve_api_cache.Base.{
  ℕ, ◌≤◌, ◌≡◌, ◌⊎◌, Bool, true, false, ◌||◌, Option, none, some, List, [], ◌∷◌, map, any, All,
  if◌then◌else◌,
}
use eve_api_cache.Base.Exec.{Result, ok, raise, database_error}

-- What an INSERT does with the row that is there; `do_update` makes the new version of it from the
-- old one and the one that was to be inserted.
pub data OnConflict (R : Type 0) : Type 0 where
  do_nothing : OnConflict R
  do_update : (R → R → R) → OnConflict R

module _ {R : Type 0} where
  abbrev pub resolve : OnConflict R → R → R → R
  resolve do_nothing old new = old
  resolve (do_update change) old new = change old new

  -- One row is inserted; `same` tells whether two rows agree in the columns of the conflict target.
  abbrev pub upsert : (R → R → Bool) → OnConflict R → R → List R → List R
  upsert same act new [] = new ∷ []
  upsert same act new (old ∷ rows) =
      let rest = upsert same act new rows in
      if same old new then resolve act old new ∷ rows else old ∷ rest

  abbrev pub upsert_all : (R → R → Bool) → OnConflict R → List R → List R → List R
  upsert_all same act [] rows = rows
  upsert_all same act (new ∷ batch) rows = upsert_all same act batch (upsert same act new rows)

  -- Two rows of the batch agree.
  abbrev pub repeats : (R → R → Bool) → List R → Bool
  repeats same [] = false
  repeats same (new ∷ batch) = any (same new) batch || repeats same batch

  -- `ON CONFLICT DO UPDATE command cannot affect row a second time`
  abbrev pub refused : (R → R → Bool) → OnConflict R → List R → Bool
  refused same do_nothing batch = false
  refused same (do_update change) batch = repeats same batch

  -- `RETURNING id` of one row under `DO NOTHING`: a row that was not inserted is not returned
  abbrev pub returned : (R → R → Bool) → R → ℕ → List R → Option ℕ
  returned same new id rows = if any (λ old. same old new) rows then none else some id

  -- There is a row with the property.
  abbrev pub Any : (R → Type 0) → List R → Type 0
  Any P [] = ⊥
  Any P (row ∷ rows) = P row ⊎ Any P rows

  -- The row passes the test, and no row that does has a greater value.
  abbrev pub IsGreatest : (R → Bool) → (R → ℕ) → List R → R → Type 0
  IsGreatest test value rows row =
      (test row ≡ true)
      × (Any (λ r. r ≡ row) rows × All (λ r. (test r ≡ false) ⊎ (value r ≤ value row)) rows)

pub record Postgres : Type 1 where
  pub Table : Type 0 → Type 0
  pub rows : {R : Type 0} → Table R → List R
  pub insert :
      {R : Type 0} → (R → R → Bool) → OnConflict R → List R → Table R → Result (Unit {0}) × Table R
  pub update : {R : Type 0} → (R → Bool) → (R → R) → Table R → Table R
  -- `SELECT ... WHERE test ORDER BY value DESC LIMIT 1`
  pub greatest : {R : Type 0} → (R → Bool) → (R → ℕ) → Table R → Option R
  pub rows-insert :
      {R : Type 0} (same : R → R → Bool) (act : OnConflict R) (batch : List R) (t : Table R)
      → rows (insert same act batch t).1
        ≡ (if refused same act batch then rows t else upsert_all same act batch (rows t))
  pub insert_result :
      {R : Type 0} (same : R → R → Bool) (act : OnConflict R) (batch : List R) (t : Table R)
      → (insert same act batch t).0
        ≡ (if refused same act batch then raise database_error else ok tt)
  pub rows-update :
      {R : Type 0} (test : R → Bool) (change : R → R) (t : Table R)
      → rows (update test change t) ≡ map (λ r. if test r then change r else r) (rows t)
  pub greatest-none :
      {R : Type 0} (test : R → Bool) (value : R → ℕ) (t : Table R)
      → greatest test value t ≡ none
      → All (λ r. test r ≡ false) (rows t)
  pub greatest-some :
      {R : Type 0} (test : R → Bool) (value : R → ℕ) (t : Table R) (row : R)
      → greatest test value t ≡ some row
      → IsGreatest test value (rows t) row
