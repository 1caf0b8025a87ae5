-- ===== src/Proxy.antt =====
-- app/proxy.py: a request through the allowlist, the cache, the upstream and the archive.
pub mod Defs
pub mod Admission
pub mod Effects
pub mod Dispatch
pub mod Rejections
pub mod Answers
pub mod Caching
