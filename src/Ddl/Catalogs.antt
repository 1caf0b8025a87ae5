-- ===== src/Ddl/Catalogs.antt =====
-- Tables with their columns, constraints and rows, and the operations on them, after the documentation
-- of PostgreSQL.
use eve_api_cache.Base.{
  ℕ, Bool, true, false, not, ◌&&◌, ◌||◌, Option, none, some, List, [], ◌∷◌, ◌++◌, map, filter,
  if◌then◌else◌, Text, text, text_eq, elem,
}
use eve_api_cache.Json.{Value}

pub data ColumnType : Type 0 where
  big_integer small_integer text_type json_b timestamp_tz large_binary : ColumnType
  string : ℕ → ColumnType

-- `sa.Column`
pub record Column : Type 0 where
  pub name : Text
  pub type : ColumnType
  pub nullable : Bool
  pub primary_key : Bool
  pub autoincrement : Bool
  pub server_default : Option Text

pub data Constraint : Type 0 where
  primary_key : Text → List Text → Constraint
  unique : Text → List Text → Constraint

pub record ForeignKey : Type 0 where
  pub name : Text
  pub table : Text
  pub columns : List Text
  pub target : Text
  pub target_columns : List Text
  pub ondelete : Option Text

pub record Index : Type 0 where
  pub name : Text
  pub columns : List Text

pub data Operation : Type 0 where
  create_table : Text → List Column → List Constraint → List ForeignKey → Operation
  drop_table : Text → Operation
  -- name, table, columns
  create_index : Text → Text → List Text → Operation
  drop_index : Text → Text → Operation
  add_column : Text → Column → Operation
  drop_column : Text → Text → Operation
  create_unique_constraint : Text → Text → List Text → Operation
  create_primary_key : Text → Text → List Text → Operation
  create_foreign_key : ForeignKey → Operation
  -- name, table
  drop_constraint : Text → Text → Operation
  -- table, column
  alter_nullable : Text → Text → Bool → Operation
  alter_server_default : Text → Text → Option Text → Operation

-- A cell of a row; texts are all that the migrations write.
pub data Cell : Type 0 where
  null : Cell
  characters : Text → Cell
  other : Value → Cell

abbrev pub Row : Type 0
Row = List (Text × Cell)

pub record TableState : Type 0 where
  pub columns : List Column
  pub constraints : List Constraint
  pub indexes : List Index
  pub rows : List Row

pub record Catalog : Type 0 where
  pub tables : Text → Option TableState
  pub foreign_keys : List ForeignKey

-- The cell of a column; a row that has none there is NULL there.
abbrev pub cell : Text → Row → Cell
cell column [] = null
cell column ((name, c) ∷ row) = if text_eq name column then c else cell column row

abbrev pub is_null : Cell → Bool
is_null null = true
is_null (characters t) = false
is_null (other v) = false

abbrev pub drop_cell : Text → Row → Row
drop_cell column [] = []
drop_cell column ((name, c) ∷ row) =
    let rest = drop_cell column row in if text_eq name column then rest else (name, c) ∷ rest

abbrev pub constraint_name : Constraint → Text
constraint_name (primary_key name columns) = name
constraint_name (unique name columns) = name

abbrev pub constraint_columns : Constraint → List Text
constraint_columns (primary_key name columns) = columns
constraint_columns (unique name columns) = columns

-- The columns of the primary key, unless a constraint names them.
abbrev pub flagged : List Column → List Text
flagged [] = []
flagged (c ∷ cs) = let rest = flagged cs in if c.primary_key then c.name ∷ rest else rest

abbrev pub has_primary_key : List Constraint → Bool
has_primary_key [] = false
has_primary_key (primary_key name columns ∷ cs) = true
has_primary_key (unique name columns ∷ cs) = has_primary_key cs

abbrev pub flagged_key : Text → List Text → List Constraint
flagged_key table [] = []
flagged_key table (c ∷ cs) = primary_key (table ++ text "_pkey") (c ∷ cs) ∷ []

abbrev pub with_key : Text → List Column → List Constraint → List Constraint
with_key table columns constraints =
    if has_primary_key constraints
    then constraints
    else flagged_key table (flagged columns) ++ constraints

abbrev pub key_columns : List Constraint → List Text
key_columns [] = []
key_columns (primary_key name columns ∷ cs) = columns
key_columns (unique name columns ∷ cs) = key_columns cs

-- A column of the key is not nullable. The flag has done its work.
abbrev pub settled : List Text → Column → Column
settled key c = record c { nullable = c.nullable && not (elem c.name key); primary_key = false }

abbrev pub new_table : Text → List Column → List Constraint → TableState
new_table table columns constraints = record {
  columns = map (settled (key_columns (with_key table columns constraints))) columns;
  constraints = with_key table columns constraints;
  indexes = [];
  rows = [];
}

abbrev pub put : Text → Option TableState → Catalog → Catalog
put name t c = record c { tables = λ n. if text_eq name n then t else c.tables n }

abbrev pub other_than : Text → Text → Bool
other_than name n = not (text_eq n name)

-- The columns of a table but one, with what names that one.
abbrev pub without_column : Text → TableState → TableState
without_column column t = record {
  columns = filter (λ c. other_than column c.name) t.columns;
  constraints = filter (λ c. not (elem column (constraint_columns c))) t.constraints;
  indexes = filter (λ i. not (elem column i.columns)) t.indexes;
  rows = map (drop_cell column) t.rows;
}

abbrev pub default_cell : Option Text → Cell
default_cell none = null
default_cell (some t) = characters t

abbrev pub with_column : Column → TableState → TableState
with_column c t = record t {
  columns = t.columns ++ settled [] c ∷ [];
  rows = map (λ r. (c.name, default_cell c.server_default) ∷ r) t.rows;
}

abbrev pub is_empty : List Row → Bool
is_empty [] = true
is_empty (r ∷ rows) = false

-- A column that is NOT NULL without a default cannot be added where there are rows.
abbrev pub fits : Column → List Row → Bool
fits c rows = is_empty rows || c.nullable || not (is_null (default_cell c.server_default))

abbrev pub change_column : Text → (Column → Column) → TableState → TableState
change_column column f t = record t {
  columns = map (λ c. if text_eq c.name column then f c else c) t.columns;
}

-- The cells of a row in the columns are all NULL, or one is.
abbrev pub any_null : List Text → Row → Bool
any_null [] r = false
any_null (c ∷ cs) r = is_null (cell c r) || any_null cs r
