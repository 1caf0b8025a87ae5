-- ===== src/Ddl.antt =====
-- The data definition language of PostgreSQL, which Alembic and SQLAlchemy send: what the
-- documentation says of each operation on a catalog of tables with their rows. A constraint without
-- a name has the name that PostgreSQL gives it. The order of the cells of a row is of no account.
pub mod Catalogs
pub mod Apply
pub mod Steps
pub use Catalogs.*
pub use Apply.*
