-- ===== src/Migrations.antt =====
-- The migrations under alembic/versions, and the tables of app/db.py that they build.
pub mod Columns
pub mod Initial
pub mod Idempotency
pub mod Storage
pub mod EventKeys
pub mod Declared
pub mod Upgrades
pub mod Agreement
pub mod Reversal
pub mod History
