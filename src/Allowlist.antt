-- ===== src/Allowlist.antt =====
-- app/allowlist.py: which requests the proxy forwards, and the key under which they are cached.
pub mod Pattern
pub mod Endpoints
pub mod Path
pub mod Params
pub mod Keys
pub mod Labels
pub mod Safety
