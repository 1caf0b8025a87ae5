-- ===== src/Ddl/Apply.antt =====
-- What the operations make of a catalog, and the server that runs them.
use eve_api_cache.Base.{
  ◌≡◌, Bool, true, false, not, ◌&&◌, ◌||◌, none, some, List, [], ◌∷◌, ◌++◌, map, filter, any,
  if◌then◌else◌, Text, text_eq,
}
use eve_api_cache.Base.Exec.{Result, ok, raise, database_error}
use eve_api_cache.Json.{Value}
use eve_api_cache.Ddl.Catalogs.{
  Catalog, Cell, Column, Constraint, ForeignKey, Operation, Row, TableState, add_column,
  alter_nullable, alter_server_default, any_null, cell, change_column, characters, constraint_name,
  create_foreign_key, create_index, create_primary_key, create_table, create_unique_constraint,
  drop_column, drop_constraint, drop_index, drop_table, fits, has_primary_key, new_table, null,
  other, other_than, primary_key, put, settled, unique, with_column, without_column,
}

abbrev pub checked : Bool → TableState → Result TableState
checked true t = ok t
checked false t = raise database_error

abbrev pub on_table : Text → (TableState → Result TableState) → Catalog → Result Catalog
on_table name f c = elim (c.tables name) [
  | none ↦ raise database_error
  | some t ↦ elim (f t) [ ok t' ↦ ok (put name (some t') c) | raise e ↦ raise e ]
]

-- A foreign key of another table has the table as its target.
abbrev pub is_target : Text → ForeignKey → Bool
is_target name fk = text_eq fk.target name && not (text_eq fk.table name)

abbrev pub remove_table : Text → Catalog → Result Catalog
remove_table name c = elim (c.tables name) [
  | none ↦ raise database_error
  | some t ↦
      if any (is_target name) c.foreign_keys
      then raise database_error
      else ok (
          put name none
            (record c { foreign_keys = filter (λ fk. other_than name fk.table) c.foreign_keys }))
]

-- The target of a foreign key is there.
abbrev pub has_target : Catalog → ForeignKey → Bool
has_target c fk = elim (c.tables fk.target) [ none ↦ false | some t ↦ true ]

abbrev pub all_targets : Catalog → List ForeignKey → Bool
all_targets c [] = true
all_targets c (fk ∷ fks) = has_target c fk && all_targets c fks

abbrev pub add_table :
    Text → List Column → List Constraint → List ForeignKey → Catalog → Result Catalog
add_table name columns constraints fks c = elim (c.tables name) [
  | some t ↦ raise database_error
  | none ↦
      if all_targets c fks
      then ok (
          put name (some (new_table name columns constraints))
            (record c { foreign_keys = fks ++ c.foreign_keys }))
      else raise database_error
]

abbrev pub names_foreign_key : Text → Text → ForeignKey → Bool
names_foreign_key name table fk = text_eq fk.name name && text_eq fk.table table

-- The constraint is one of the table or a foreign key of it.
abbrev pub remove_constraint : Text → Text → Catalog → Result Catalog
remove_constraint name table c = elim (c.tables table) [
  | none ↦ raise database_error
  | some t ↦
      if any (names_foreign_key name table) c.foreign_keys
      then ok (record c {
        foreign_keys = filter (λ fk. not (names_foreign_key name table fk)) c.foreign_keys;
      })
      else if any (λ k. text_eq (constraint_name k) name) t.constraints
      then ok (
          put table
            (some (record t {
              constraints = filter (λ k. other_than name (constraint_name k)) t.constraints;
            }))
            c)
      else raise database_error
]

-- `value_eq` is the equality of the types of the columns.
module _ (value_eq : Value → Value → Bool) where
  -- NULL equals nothing.
  abbrev pub cell_eq : Cell → Cell → Bool
  cell_eq null b = false
  cell_eq (characters t) null = false
  cell_eq (characters t) (characters u) = text_eq t u
  cell_eq (characters t) (other v) = false
  cell_eq (other v) null = false
  cell_eq (other v) (characters u) = false
  cell_eq (other v) (other w) = value_eq v w

  abbrev pub agree : List Text → Row → Row → Bool
  agree [] r r' = true
  agree (c ∷ cs) r r' = cell_eq (cell c r) (cell c r') && agree cs r r'

  abbrev pub distinct : List Text → List Row → Bool
  distinct columns [] = true
  distinct columns (r ∷ rows) = not (any (agree columns r) rows) && distinct columns rows

  -- Two lists of columns, cell by cell.
  abbrev pub refers : List Text → List Text → Row → Row → Bool
  refers [] targets r r' = true
  refers (c ∷ cs) [] r r' = false
  refers (c ∷ cs) (d ∷ ds) r r' = cell_eq (cell c r) (cell d r') && refers cs ds r r'

  -- Every row refers to a row of the target, or is NULL in one of the columns.
  abbrev pub all_refer : ForeignKey → List Row → List Row → Bool
  all_refer fk [] targets = true
  all_refer fk (r ∷ rows) targets =
      (any_null fk.columns r || any (refers fk.columns fk.target_columns r) targets)
      && all_refer fk rows targets

  abbrev pub add_foreign_key : ForeignKey → Catalog → Result Catalog
  add_foreign_key fk c = elim (c.tables fk.table) [
    | none ↦ raise database_error
    | some t ↦ elim (c.tables fk.target) [
      | none ↦ raise database_error
      | some u ↦
          if all_refer fk t.rows u.rows
          then ok (record c { foreign_keys = fk ∷ c.foreign_keys })
          else raise database_error
    ]
  ]

  abbrev pub apply : Operation → Catalog → Result Catalog
  apply (create_table name columns constraints fks) c = add_table name columns constraints fks c
  apply (drop_table name) c = remove_table name c
  apply (create_index name table columns) c =
      on_table table
        (λ t.
          ok (record t { indexes = t.indexes ++ record { name = name; columns = columns } ∷ [] }))
        c
  apply (drop_index name table) c =
      on_table table
        (λ t.
          checked (any (λ i. text_eq i.name name) t.indexes)
            (record t { indexes = filter (λ i. other_than name i.name) t.indexes }))
        c
  apply (add_column table column) c =
      on_table table
        (λ t.
          checked (not (any (λ k. text_eq k.name column.name) t.columns) && fits column t.rows)
            (with_column column t))
        c
  apply (drop_column table column) c =
      on_table table
        (λ t. checked (any (λ k. text_eq k.name column) t.columns) (without_column column t)) c
  apply (create_unique_constraint name table columns) c =
      on_table table
        (λ t.
          checked (distinct columns t.rows)
            (record t { constraints = t.constraints ++ unique name columns ∷ [] }))
        c
  apply (create_primary_key name table columns) c =
      on_table table
        (λ t.
          checked
            (distinct columns t.rows
              && not (any (any_null columns) t.rows)
              && not (has_primary_key t.constraints))
            (record t {
              constraints = primary_key name columns ∷ t.constraints;
              columns = map (settled columns) t.columns;
            }))
        c
  apply (create_foreign_key fk) c = add_foreign_key fk c
  apply (drop_constraint name table) c = remove_constraint name table c
  apply (alter_nullable table column true) c =
      on_table table (λ t. ok (change_column column (λ k. record k { nullable = true }) t)) c
  apply (alter_nullable table column false) c =
      on_table table
        (λ t.
          checked (not (any (any_null (column ∷ [])) t.rows))
            (change_column column (λ k. record k { nullable = false }) t))
        c
  apply (alter_server_default table column default) c =
      on_table table (λ t. ok (change_column column (λ k. record k { server_default = default }) t))
        c

  -- The operations one after the other, up to one that is refused.
  abbrev pub run : List Operation → Catalog → Result Catalog
  run [] c = ok c
  run (op ∷ ops) c = elim (apply op c) [ ok c' ↦ run ops c' | raise e ↦ raise e ]

-- The catalog after a transaction.
abbrev pub outcome : Catalog → Result Catalog → Catalog
outcome before (ok c) = c
outcome before (raise e) = before

abbrev pub done : Result Catalog → Result (Unit {0})
done (ok c) = ok tt
done (raise e) = raise e

pub record Server : Type 1 where
  pub Db : Type 0
  pub catalog : Db → Catalog
  pub value_eq : Value → Value → Bool
  -- The operations in one transaction.
  pub migrate : List Operation → Db → Result (Unit {0}) × Db
  pub catalog-migrate :
      (ops : List Operation) (db : Db)
      → catalog (migrate ops db).1 ≡ outcome (catalog db) (run value_eq ops (catalog db))
  pub migrate_result :
      (ops : List Operation) (db : Db) → (migrate ops db).0 ≡ done (run value_eq ops (catalog db))
