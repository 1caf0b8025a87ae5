-- ===== src/EsiClient.antt =====
-- app/esi_client.py: the upstream client with its error-budget breaker, pacer, retries and
-- pagination.
pub mod Headers
pub mod State
pub mod Breaker
pub mod Pacer
pub mod Retry
pub mod Pages
pub mod Fetch
pub mod Traffic
pub mod Answers
