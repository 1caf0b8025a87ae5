-- ===== src/EsiClient/Headers.antt =====
-- Reading response headers in app/esi_client.py. A response's `header` is its case-insensitive
-- lookup, and header values are Latin-1 texts.
use eve_api_cache.Base.{
  ℕ, ◌+◌, ◌-◌, ◌*◌, ◌/◌, Bool, true, false, Option, none, some, [], ◌∷◌, ◌==◌, if◌then◌else◌, leb,
  ◌&&◌, Text, Bytes, text, get_or,
}
use eve_api_cache.Base.Exec.{Result, ok, raise, overflow_error}
use eve_api_cache.Base.Ints.{ℤ, int_of, is_ascii_digit}

-- `httpx.Response`; a number in a header has at most 300 digits, so that `int` reads it and a float
-- holds it
pub record HttpResponse : Type 0 where
  pub status_code : ℕ
  pub header : Text → Option Text
  pub content : Bytes

-- What the client asks of `email.utils` and of the wall clock: `parsedate_to_datetime`, `none`
-- where it raises, in ticks since the epoch; whether the text names a time zone, so that the date can
-- be compared with the present time; the number of ticks in a second; and the last time that a
-- `datetime` can be.
pub record Dates : Type 0 where
  pub parse_date : Text → Option ℕ
  pub has_zone : Text → Bool
  pub second : ℕ
  pub last : ℕ

abbrev pub int_or_none : Option Text → Option ℤ
int_or_none none = none
int_or_none (some v) = int_of v

-- `_int_header`
abbrev pub int_header : HttpResponse → Text → Option ℤ
int_header resp name = int_or_none (resp.header name)

-- ASCII lower case, for `re.IGNORECASE`.
abbrev lower_code : ℕ → ℕ
lower_code c = if leb b'A' c && leb c b'Z' then c + 32 else c

-- `(\d+)` behind `max-age=`: the value so far, and whether a digit was read
unfoldable pub digit_value : Bool → ℕ → Text → Option ℕ
digit_value seen acc [] = if seen then some acc else none
digit_value seen acc (c ∷ cs) =
    let more = digit_value true (acc * 10 + (c - b'0')) cs in
    if is_ascii_digit c then more else if seen then some acc else none

-- The text behind a prefix.
unfoldable pub behind : Text → Text → Option Text
behind [] s = some s
behind (c ∷ cs) [] = none
behind (c ∷ cs) (x ∷ xs) = let rest = behind cs xs in if c == lower_code x then rest else none

abbrev value_of : Option Text → Option ℕ
value_of none = none
value_of (some rest) = digit_value false 0 rest

abbrev or_else : Option ℕ → Option ℕ → Option ℕ
or_else none other = other
or_else (some v) other = some v

-- `_MAX_AGE_RE.search`
unfoldable pub search_max_age : Text → Option ℕ
unfolding digit_value behind
search_max_age [] = none
search_max_age (c ∷ cs) = or_else (value_of (behind (text "max-age=") (c ∷ cs))) (search_max_age cs)

module _ (d : Dates) where
  open d use {parse_date, has_zone, second, last}

  -- `if exp: try: parsedate_to_datetime(exp)`
  unfoldable pub expires_date : Option Text → Option ℕ
  expires_date none = none
  expires_date (some []) = none
  expires_date (some (c ∷ cs)) = parse_date (c ∷ cs)

  -- The date if it has a time zone: the difference of another one to the present raises.
  abbrev zoned_date : Option Text → Option ℕ
  zoned_date none = none
  zoned_date (some exp) = if has_zone exp then expires_date (some exp) else none

  -- `max(0, int(delta))`; subtraction stops at 0
  abbrev seconds_until : ℕ → Option ℕ → Option ℕ
  seconds_until now none = none
  seconds_until now (some date) = some ((date - now) / second)

  unfoldable pub parse_max_age : HttpResponse → ℕ → Option ℕ
  unfolding expires_date
  parse_max_age resp now =
      or_else (search_max_age (get_or (resp.header (text "cache-control")) []))
        (seconds_until now (zoned_date (resp.header (text "expires"))))

  -- `datetime.now(timezone.utc) + timedelta(seconds=max_age)`, outside of any `try`
  abbrev pub date_after : ℕ → Option ℕ → Result (Option ℕ)
  date_after now none = ok none
  date_after now (some age) =
      if leb (now + age * second) last then ok (some (now + age * second)) else raise overflow_error

  abbrev date_or : Option ℕ → Result (Option ℕ) → Result (Option ℕ)
  date_or none otherwise = otherwise
  date_or (some date) otherwise = ok (some date)

  unfoldable pub parse_expires : HttpResponse → ℕ → Result (Option ℕ)
  unfolding parse_max_age
  parse_expires resp now =
      date_or (expires_date (resp.header (text "expires")))
        (date_after now (parse_max_age resp now))

-- `_page_metadata`
pub record PageMetadata : Type 0 where
  pub page : ℕ
  pub status : ℕ
  pub etag : Option Text
  pub cache_control : Option Text
  pub expires : Option Text
  pub x_pages : Option Text

unfoldable pub page_metadata : ℕ → HttpResponse → PageMetadata
page_metadata page resp = record {
  page = page;
  status = resp.status_code;
  etag = resp.header (text "etag");
  cache_control = resp.header (text "cache-control");
  expires = resp.header (text "expires");
  x_pages = resp.header (text "x-pages");
}
