-- ===== src/Cache/Values.antt =====
-- `_compress_value` and `_decode_value` of app/cache.py.
use eve_api_cache.Base.{
  ℕ, ◌≡◌, Bool, false, [], ◌∷◌, ◌++◌, leb, if◌then◌else◌, length, drop, take, Bytes, text_eq,
  starts_with, Bool-cases, inl, inr,
}

-- The two compression libraries; `has_zstd` tells whether `import zstandard` finds one.
pub record Compressor : Type 0 where
  pub has_zstd : Bool
  pub zstd_compress : Bytes → Bytes
  pub zstd_decompress : Bytes → Bytes
  pub zlib_compress : Bytes → Bytes
  pub zlib_decompress : Bytes → Bytes
  pub zstd_round_trip : (b : Bytes) → zstd_decompress (zstd_compress b) ≡ b
  pub zlib_round_trip : (b : Bytes) → zlib_decompress (zlib_compress b) ≡ b

-- `_CACHE_MAGIC`: `\x00zc\x00`
abbrev pub cache_magic : Bytes
cache_magic = 0 ∷ b'z' ∷ b'c' ∷ 0 ∷ []

module _ (lib : Compressor) where
  open lib use {
    has_zstd, zstd_compress, zstd_decompress, zlib_compress, zlib_decompress, zstd_round_trip,
    zlib_round_trip,
  }

  unfoldable pub compress_value : Bytes → Bytes
  compress_value body =
      if has_zstd
      then cache_magic ++ b'z' ∷ zstd_compress body
      else cache_magic ++ b'l' ∷ zlib_compress body

  unfoldable pub decode_value : Bytes → Bytes
  decode_value value =
      if starts_with cache_magic value
      then (let codec = take 1 (drop 4 value) in
          let rest = drop 5 value in
          if text_eq codec (b'z' ∷ [])
          then zstd_decompress rest
          else if text_eq codec (b'l' ∷ [])
          then zlib_decompress rest
          else value)
      else value

  -- The value that `set` stores for a body.
  unfoldable pub stored_value : ℕ → Bytes → Bytes
  stored_value compress_min_bytes body =
      if leb compress_min_bytes (length body) then compress_value body else body

  -- A body that does not itself begin with the magic prefix comes back from its stored value,
  -- whether it was compressed or not, and with either library.
  pub decode_value-stored_value :
      (compress_min_bytes : ℕ) (body : Bytes)
      → starts_with cache_magic body ≡ false
      → decode_value (stored_value compress_min_bytes body) ≡ body
  unfolding decode_value stored_value compress_value
  decode_value-stored_value m body raw = elim (Bool-cases (leb m (length body))) [
    | inl big ↦ elim (Bool-cases has_zstd) [
      | inl z ↦ rw (big, z) (zstd_round_trip body)
      | inr l ↦ rw (big, l) (zlib_round_trip body)
    ]
    | inr small ↦ rw (small, raw)
  ]
