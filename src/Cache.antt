-- ===== src/Cache.antt =====
-- app/cache.py: the Redis layer. Values are compressed from a size on; `Compressor` is the zstd or
-- zlib library that the import finds. Keys and commands are those of the source.
pub mod Values
pub mod Client
pub mod Names
pub mod Views
