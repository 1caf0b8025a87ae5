-- ===== src/Archive.antt =====
-- app/archive.py over the tables of app/db.py.
pub mod Batches
pub mod Mappings
pub mod Tables
pub mod Sessions
pub mod Keys
pub mod Orders
pub mod Snapshots
pub mod Reads
pub mod Untouched
pub mod Rows
pub mod Writes
pub mod Atomic
pub mod RoundTrip
pub mod Upserts
pub mod Success
pub mod Repeats
pub mod Names
pub mod Present
pub mod Retry
pub mod Naming
pub mod Live
pub mod Fallback
