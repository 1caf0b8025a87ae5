-- ===== src/Archive/Keys.antt =====
-- The pure helpers of app/archive.py: the idempotency key, the region in a path and the codec of the
-- payload blobs.
use eve_api_cache.Base.{
  ℕ, ◌+◌, ◌&&◌, find, get_or, leb, ltb, ap, ◌≡◌, Bool-cases, inl, inr, ◌-◌, ◌*◌, ◌%◌, Bool, true,
  false, Option, none, some, List, [], ◌∷◌, ◌++◌, ◌==◌, if◌then◌else◌, Text, Bytes, text, text_eq,
}
use eve_api_cache.Base.Exec.{Result, ok, raise, value_error}
use eve_api_cache.Allowlist.Pattern.{zeros, at_end, is_digit}
use eve_api_cache.Cache.Values.{Compressor}
use eve_api_cache.Archive.Sessions.{Calendar}

-- `fetched_at.replace(second=0, microsecond=0)`
unfoldable pub bucket : Calendar → ℕ → ℕ
bucket calendar fetched_at = fetched_at - fetched_at % (60 * calendar.second)

-- `"\0".join(...)`
abbrev pub join_nul : List Text → Text
join_nul [] = []
join_nul (t ∷ []) = t
join_nul (t ∷ u ∷ ts) = t ++ 0 ∷ join_nul (u ∷ ts)

-- `_timeseries_idempotency_key`
unfoldable pub timeseries_idempotency_key :
    Calendar → (Bytes → Text) → Text → Text → Text → Text → ℕ → Text
timeseries_idempotency_key calendar sha256 datasource path query_hash content_hash fetched_at =
    sha256 (
      join_nul (
        datasource
        ∷ path
        ∷ query_hash
        ∷ calendar.isoformat (bucket calendar fetched_at)
        ∷ content_hash
        ∷ []))

-- `[^/]+` of `_MARKET_ORDERS_RE`, and what is behind the run: no slash can be in it
unfoldable pub behind_segment : Bool → Text → Option Text
behind_segment some_read [] = none
behind_segment some_read (c ∷ cs) =
    let rest = behind_segment true cs in
    if c == b'/' then (if some_read then some (c ∷ cs) else none) else rest

-- What is behind a literal.
unfoldable pub behind_literal : Text → Text → Option Text
behind_literal [] s = some s
behind_literal (c ∷ cs) [] = none
behind_literal (c ∷ cs) (x ∷ xs) = let rest = behind_literal cs xs in if c == x then rest else none

-- `(\d+)`: the run of digits, and what is behind it
unfoldable pub digit_run : Text → Text × Text
digit_run [] = ([], [])
digit_run (c ∷ cs) =
    let (run, rest) = digit_run cs in if is_digit c then (c ∷ run, rest) else ([], c ∷ cs)

-- The value of a decimal digit.
abbrev pub numeral : ℕ → ℕ
numeral c = c - get_or (find (λ z. leb z c && ltb c (z + 10)) zeros) 0

abbrev pub number_of : ℕ → Text → ℕ
number_of acc [] = acc
number_of acc (c ∷ cs) = number_of (acc * 10 + numeral c) cs

-- The run of digits, if it is not empty and `/orders/?` is what is behind it.
abbrev pub region_of : Text × Text → Option ℕ
region_of ([], rest) = none
region_of (c ∷ cs, rest) = elim (behind_literal (text "/orders") rest) [
  | none ↦ none
  | some end ↦ if at_end end then some (number_of 0 (c ∷ cs)) else none
]

abbrev pub then_literal : Text → Option Text → Option Text
then_literal t none = none
then_literal t (some s) = behind_literal t s

abbrev pub region_in : Option Text → Option ℕ
region_in none = none
region_in (some s) = region_of (digit_run s)

abbrev pub segment_of : Option Text → Option Text
segment_of none = none
segment_of (some s) = behind_segment false s

-- `_market_orders_region_id`
unfoldable pub market_orders_region_id : Text → Option ℕ
market_orders_region_id path =
    region_in (then_literal (text "/markets/") (segment_of (behind_literal (text "/") path)))

-- `_compress_payload`
unfoldable pub compress_payload : Compressor → Bytes → Text × Bytes
compress_payload lib payload =
    if lib.has_zstd
    then (text "zstd", lib.zstd_compress payload)
    else (text "zlib", lib.zlib_compress payload)

-- `_decompress_payload`
unfoldable pub decompress_payload : Compressor → Text → Bytes → Result Bytes
decompress_payload lib codec payload =
    if text_eq codec (text "zstd")
    then ok (lib.zstd_decompress payload)
    else if text_eq codec (text "zlib")
    then ok (lib.zlib_decompress payload)
    else raise value_error

-- What was compressed is what is decompressed, with either library.
pub decompress_payload-compress_payload :
    (lib : Compressor) (payload : Bytes)
    → decompress_payload lib (compress_payload lib payload).0 (compress_payload lib payload).1
      ≡ ok payload
unfolding decompress_payload compress_payload
decompress_payload-compress_payload lib payload = elim (Bool-cases lib.has_zstd) [
  | inl z ↦ rw z (ap ok (lib.zstd_round_trip payload))
  | inr l ↦ rw l (ap ok (lib.zlib_round_trip payload))
]
