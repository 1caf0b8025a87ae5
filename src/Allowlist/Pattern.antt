-- ===== src/Allowlist/Pattern.antt =====
-- The regular expressions of app/allowlist.py: each is `^`, a row of literal texts, `\d+` and
-- `[0-9a-f]{40}`, and `/?$`. The matcher takes the longest run of digits, as `re` does first.
use eve_api_cache.Base.{
  ℕ, zero, suc, ◌+◌, Bool, false, ◌&&◌, ◌||◌, List, [], ◌∷◌, ◌==◌, leb, ltb, if◌then◌else◌, Text,
  text, text_eq, any,
}

pub data Atom : Type 0 where
  lit : Text → Atom
  digits : Atom
  hex40 : Atom

-- The first of each ten consecutive decimal digits in Unicode 15, which `\d` matches in a `str`.
abbrev pub zeros : List ℕ
zeros =
    48 ∷ 1632 ∷ 1776 ∷ 1984 ∷ 2406 ∷ 2534 ∷ 2662 ∷ 2790 ∷ 2918 ∷ 3046 ∷ 3174 ∷ 3302 ∷ 3430 ∷ 3558
    ∷ 3664 ∷ 3792 ∷ 3872 ∷ 4160 ∷ 4240 ∷ 6112 ∷ 6160 ∷ 6470 ∷ 6608 ∷ 6784 ∷ 6800 ∷ 6992 ∷ 7088
    ∷ 7232 ∷ 7248 ∷ 42528 ∷ 43216 ∷ 43264 ∷ 43472 ∷ 43504 ∷ 43600 ∷ 44016 ∷ 65296 ∷ 66720 ∷ 68912
    ∷ 69734 ∷ 69872 ∷ 69942 ∷ 70096 ∷ 70384 ∷ 70736 ∷ 70864 ∷ 71248 ∷ 71360 ∷ 71472 ∷ 71904 ∷ 72016
    ∷ 72784 ∷ 73040 ∷ 73120 ∷ 73552 ∷ 92768 ∷ 92864 ∷ 93008 ∷ 120782 ∷ 120792 ∷ 120802 ∷ 120812
    ∷ 120822 ∷ 123200 ∷ 123632 ∷ 124144 ∷ 125264 ∷ 130032 ∷ []

-- `\d`
unfoldable pub is_digit : ℕ → Bool
is_digit c = any (λ z. leb z c && ltb c (z + 10)) zeros

-- `[0-9a-f]`
abbrev pub is_hex : ℕ → Bool
is_hex c = (leb b'0' c && leb c b'9') || (leb b'a' c && leb c b'f')

-- `/?$`: the end, or a line feed at the end
unfoldable pub at_end : Text → Bool
at_end s = text_eq s [] || text_eq s (text "/") || text_eq s (10 ∷ []) || text_eq s (b'/' ∷ 10 ∷ [])

-- What is left behind a literal, a run of digits, `n` hexadecimal digits.
unfoldable pub after_lit : Text → Text → (Text → Bool) → Bool
after_lit [] s rest = rest s
after_lit (c ∷ cs) [] rest = false
after_lit (c ∷ cs) (x ∷ xs) rest = let go = after_lit cs xs rest in if c == x then go else false

unfoldable pub after_digits : Text → (Text → Bool) → Bool
after_digits [] rest = rest []
after_digits (x ∷ xs) rest =
    let go = after_digits xs rest in if is_digit x then go else rest (x ∷ xs)

unfoldable pub after_hex : ℕ → Text → (Text → Bool) → Bool
after_hex zero s rest = rest s
after_hex (suc n) [] rest = false
after_hex (suc n) (x ∷ xs) rest = let go = after_hex n xs rest in if is_hex x then go else false

-- `\d+`
unfoldable pub after_digit_run : Text → (Text → Bool) → Bool
after_digit_run [] rest = false
after_digit_run (x ∷ xs) rest = if is_digit x then after_digits xs rest else false

-- `pattern.match(path)`
unfoldable pub matches : List Atom → Text → Bool
matches [] s = at_end s
matches (lit t ∷ p) s = after_lit t s (matches p)
matches (digits ∷ p) s = after_digit_run s (matches p)
matches (hex40 ∷ p) s = after_hex 40 s (matches p)
