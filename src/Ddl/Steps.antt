-- ===== src/Ddl/Steps.antt =====
-- When single operations of the data definition language go through, and runs of them.
use eve_api_cache.Base.{
  ◌≡◌, refl, Bool, true, false, not, ◌&&◌, Option, some, List, [], ◌∷◌, map, filter, any, Text,
  text_eq, text_eq_iff, ap, Bool-cases, inl, inr, arith,
}
use mathlib.Core.Path.{fun_ext}
use eve_api_cache.Base.Exec.{Result, ok}
use eve_api_cache.Json.{Value}
use eve_api_cache.Ddl.Catalogs.{
  Operation, add_column, drop_column, drop_constraint, create_primary_key, Catalog, Column,
  TableState, primary_key, put, constraint_name, has_primary_key, other_than, with_column,
  without_column, fits, settled, any_null,
}
use eve_api_cache.Ddl.Apply.{
  checked, on_table, remove_constraint, distinct, names_foreign_key, run, apply,
}

pub catalog-eq : (c d : Catalog) → c.tables ≡ d.tables → c.foreign_keys ≡ d.foreign_keys → c ≡ d
catalog-eq c d tables keys = λ i. record { tables = tables i; foreign_keys = keys i }

-- The later write of a table hides the earlier one.
pub put-put :
    (name : Text) (t t' : Option TableState) (c : Catalog)
    → put name t (put name t' c) ≡ put name t c
put-put name t t' c = catalog-eq (put name t (put name t' c)) (put name t c) (fun_ext hidden) refl
  where
    hidden : (n : Text) → (put name t (put name t' c)).tables n ≡ (put name t c).tables n
    hidden n = elim (Bool-cases (text_eq name n)) [
      | inl same ↦ rw same refl
      | inr other ↦ rw other refl
    ]

-- A table that is written where it stands.
pub put_self : (name : Text) (c : Catalog) → put name (c.tables name) c ≡ c
put_self name c = catalog-eq (put name (c.tables name) c) c (fun_ext same) refl
  where
    same : (n : Text) → (put name (c.tables name) c).tables n ≡ c.tables n
    same n = elim (Bool-cases (text_eq name n)) [
      | inl h ↦ rw h (ap c.tables ((text_eq_iff name n).0 h))
      | inr h ↦ rw h refl
    ]

on_table_ok :
    (name : Text) (f : TableState → Result TableState) (c : Catalog) (t t' : TableState)
    → c.tables name ≡ some t
    → f t ≡ ok t'
    → on_table name f c ≡ ok (put name (some t') c)
on_table_ok name f c t t' h h' = rw (h, h', on_table) refl

checked_ok : (b : Bool) (t : TableState) → b ≡ true → checked b t ≡ ok t
checked_ok b t h = rw h refl

module _ (value_eq : Value → Value → Bool) (c : Catalog) (table : Text) (t : TableState) where
  pub add_column_ok :
      (column : Column)
      → c.tables table ≡ some t
      → any (λ k. text_eq k.name column.name) t.columns ≡ false
      → fits column t.rows ≡ true
      → apply value_eq (add_column table column) c ≡ ok (put table (some (with_column column t)) c)
  add_column_ok column h new fit = on_table_ok table _ c t _ h (
      checked_ok (not (any (λ k. text_eq k.name column.name) t.columns) && fits column t.rows) _
        (ground (arith, new, fit)))

  pub drop_column_ok :
      (column : Text)
      → c.tables table ≡ some t
      → any (λ k. text_eq k.name column) t.columns ≡ true
      → apply value_eq (drop_column table column) c
        ≡ ok (put table (some (without_column column t)) c)
  drop_column_ok column h there =
      on_table_ok table _ c t _ h (checked_ok (any (λ k. text_eq k.name column) t.columns) _ there)

  pub drop_constraint_ok :
      (name : Text)
      → c.tables table ≡ some t
      → any (names_foreign_key name table) c.foreign_keys ≡ false
      → any (λ k. text_eq (constraint_name k) name) t.constraints ≡ true
      → apply value_eq (drop_constraint name table) c
        ≡ ok (
            put table
              (some (record t {
                constraints = filter (λ k. other_than name (constraint_name k)) t.constraints;
              }))
              c)
  drop_constraint_ok name h linked named = rw (h, remove_constraint) rw (linked, named) refl

  pub create_primary_key_ok :
      (name : Text) (key : List Text)
      → c.tables table ≡ some t
      → distinct value_eq key t.rows ≡ true
      → any (any_null key) t.rows ≡ false
      → has_primary_key t.constraints ≡ false
      → apply value_eq (create_primary_key name table key) c
        ≡ ok (
            put table
              (some (record t {
                constraints = primary_key name key ∷ t.constraints;
                columns = map (settled key) t.columns;
              }))
              c)
  create_primary_key_ok name key h apart filled free = on_table_ok table _ c t _ h (
      checked_ok
        (distinct value_eq key t.rows
          && not (any (any_null key) t.rows)
          && not (has_primary_key t.constraints))
        _ (ground (arith, apart, filled, free)))

module _ (value_eq : Value → Value → Bool) where
  -- Operations that go through one after the other.
  pub data Steps : List Operation → Catalog → Catalog → Type 0 where
    stop : {c : Catalog} → Steps [] c c
    step :
        {op : Operation}
        → {ops : List Operation} → {c c' c'' : Catalog} → apply value_eq op c ≡ ok c'
        → Steps ops c' c''
        → Steps (op ∷ ops) c c''

  pub run-Steps :
      (ops : List Operation) (c c' : Catalog) → Steps ops c c' → run value_eq ops c ≡ ok c'
  run-Steps [] c c' stop = refl
  run-Steps (op ∷ ops) c c'' (step {c' = c'} h steps) = rw (h, run) (run-Steps ops c' c'' steps)
