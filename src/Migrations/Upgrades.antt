-- ===== src/Migrations/Upgrades.antt =====
-- All migrations in their order.
use eve_api_cache.Base.{
  ◌≡◌, refl, if◌then◌else◌, elem, text_eq, text_eq_iff, All, true, false, Option, none, List, [],
  ◌∷◌, ◌++◌, ap, sym, Text, text, Bool-cases, inl, inr, arith, subst,
}
use mathlib.Core.Path.{fun_ext}
use eve_api_cache.Ddl.{Operation, Catalog, TableState}
use eve_api_cache.Ddl.Steps.{catalog-eq}
use eve_api_cache.Migrations.Initial
use eve_api_cache.Migrations.Idempotency
use eve_api_cache.Migrations.Storage
use eve_api_cache.Migrations.EventKeys

-- `alembic upgrade head` on a database without a revision
abbrev pub upgrade_all : List Operation
upgrade_all = Initial.upgrade ++ (Idempotency.upgrade ++ (Storage.upgrade ++ EventKeys.upgrade))

-- `alembic downgrade base`
abbrev pub downgrade_all : List Operation
downgrade_all =
    EventKeys.downgrade ++ (Storage.downgrade ++ (Idempotency.downgrade ++ Initial.downgrade))

-- The tables of the program.
abbrev pub table_names : List Text
table_names =
    text "archive_timeseries"
    ∷ text "archive_reference"
    ∷ text "archive_events"
    ∷ text "id_name_cache"
    ∷ text "archive_payload_blobs"
    ∷ text "archive_object_files"
    ∷ text "market_order_versions"
    ∷ text "market_order_snapshot_entries"
    ∷ []

-- The catalog has no table of the program, and no foreign key.
pub record IsFresh (c : Catalog) : Type 0 where
  pub absent : (n : Text) → elem n table_names ≡ true → c.tables n ≡ none
  pub unlinked : c.foreign_keys ≡ []

-- The tables but those of the program.
abbrev pub others : (Text → Option TableState) → Text → Option TableState
others f n = if elem n table_names then none else f n

abbrev pub overlaid : Catalog → Catalog
overlaid c = record { tables = others c.tables; foreign_keys = [] }

others-eq : (c : Catalog) → IsFresh c → (n : Text) → c.tables n ≡ others c.tables n
others-eq c fresh n = elim (Bool-cases (elem n table_names)) [
  | inl ours ↦ rw ours (fresh.absent n ours)
  | inr theirs ↦ rw theirs refl
]

pub overlaid-eq : (c : Catalog) → IsFresh c → c ≡ overlaid c
overlaid-eq c fresh = catalog-eq c (overlaid c) (fun_ext (others-eq c fresh)) fresh.unlinked

pub All-elem :
    (P : Text → Type 0) (names : List Text) (n : Text) → All P names → elem n names ≡ true → P n
All-elem P [] n all h = absurd (ground arith)
All-elem P (m ∷ names) n all h = elim (Bool-cases (text_eq n m)) [
  | inl same ↦ subst P (sym ((text_eq_iff n m).0 same)) all.0
  | inr other ↦ All-elem P names n all.1 (ground (arith, other, h))
]

-- A property of all names holds if it does of the tables of the program and of all others.
pub by_name :
    (P : Text → Type 0)
    → All P table_names
    → ((n : Text) → elem n table_names ≡ false → P n)
    → (n : Text) → P n
by_name P ours theirs n = elim (Bool-cases (elem n table_names)) [
  | inl h ↦ All-elem P table_names n ours h
  | inr h ↦ theirs n h
]

pub apart :
    (n t : Text) → elem n table_names ≡ false → elem t table_names ≡ true → text_eq t n ≡ false
apart n t theirs ours = elim (Bool-cases (text_eq t n)) [
  | inl same ↦
      absurd (ground (arith, ours, theirs, ap (λ x. elem x table_names) ((text_eq_iff t n).0 same)))
  | inr other ↦ other
]
