-- ===== src/Base/Ints.antt =====
-- Python's `str` of a natural number, and `int` of a text: surrounding white space, a sign, and
-- digits between which one underscore may stand. The texts are ASCII or Latin-1.
use Prim.Native.Nat.{ℕ, zero, suc, ◌+◌, ◌-◌, ◌*◌, ◌/◌, ◌%◌, ◌<◌}
use mathlib.Core.Path.{◌≡◌, refl, ap, ◌∙◌, sym}
use mathlib.Core.List.{
  [], ◌∷◌, ◌++◌, reverse, append_assoc, append-nil, reverse-append, reverse-reverse,
}
use mathlib.Core.Bool.{Bool, true, false, ◌&&◌, ◌||◌}
use mathlib.Core.Logic.{inl, inr}
use mathlib.Core.Option.{Option, none, some}
use native.Mathlib.Omega.{arith}
use eve_api_cache.Base.Tests.{◌==◌, leb, ltb, if◌then◌else◌, Bool-cases}
use eve_api_cache.Base.Texts.{Text}

-- `negsuc n` is -(n + 1).
pub data ℤ : Type 0 where
  pos : ℕ → ℤ
  negsuc : ℕ → ℤ

-- The negation of a natural number.
abbrev pub negate : ℕ → ℤ
negate zero = pos 0
negate (suc n) = negsuc n

unfoldable pub str_from : ℕ → ℕ → Text
str_from zero n = []
str_from (suc fuel) n =
    let front = str_from fuel (n / 10) in
    if ltb n 10 then (b'0' + n) ∷ [] else front ++ (b'0' + n % 10) ∷ []

-- `str(n)`; a number has at most as many digits as one more than its value
unfoldable pub str_nat : ℕ → Text
unfolding str_from
str_nat n = str_from (suc n) n

-- `str` of an integer
unfoldable pub str_int : ℤ → Text
str_int (pos n) = str_nat n
str_int (negsuc n) = b'-' ∷ str_nat (suc n)

abbrev pub is_ascii_digit : ℕ → Bool
is_ascii_digit c = leb b'0' c && leb c b'9'

abbrev pub is_space : ℕ → Bool
is_space c = (leb 9 c && leb c 13) || (leb 28 c && leb c 32) || c == 133 || c == 160

unfoldable pub strip_left : Text → Text
strip_left [] = []
strip_left (c ∷ cs) = let rest = strip_left cs in if is_space c then rest else c ∷ cs

unfoldable pub strip : Text → Text
unfolding strip_left
strip s = reverse (strip_left (reverse (strip_left s)))

-- The digits, the value so far, and whether the last character was a digit.
unfoldable pub int_digits : Bool → ℕ → Text → Option ℕ
int_digits last acc [] = if last then some acc else none
int_digits last acc (c ∷ cs) =
    let more = int_digits true (acc * 10 + (c - b'0')) cs in
    let gap = int_digits false acc cs in
    if is_ascii_digit c then more else if c == b'_' && last then gap else none

abbrev signed : (ℕ → ℤ) → Option ℕ → Option ℤ
signed f none = none
signed f (some n) = some (f n)

unfoldable pub int_signed : Text → Option ℤ
unfolding int_digits
int_signed [] = none
int_signed (c ∷ cs) =
    if c == b'-'
    then signed negate (int_digits false 0 cs)
    else if c == b'+'
    then signed pos (int_digits false 0 cs)
    else signed pos (int_digits false 0 (c ∷ cs))

-- `int(s)`, `none` for a `ValueError`
unfoldable pub int_of : Text → Option ℤ
unfolding int_signed strip
int_of s = int_signed (strip s)

abbrev IsDigit : ℕ → Type 0
IsDigit c = is_ascii_digit c ≡ true

str_from_head :
    (fuel n : ℕ) → n < fuel → (c : ℕ) × (cs : Text) × (str_from fuel n ≡ c ∷ cs) × IsDigit c
unfolding str_from
str_from_head zero n h = elim h [ ]
str_from_head (suc fuel) n h = elim (Bool-cases (ltb n 10)) [
  | inl small ↦ (b'0' + n, [], rw small, ground arith)
  | inr big ↦
      let (c, cs, e, digit) = str_from_head fuel (n / 10) (ground arith) in
      (c, cs ++ (b'0' + n % 10) ∷ [], rw (big, e), digit)
]

str_from_last :
    (fuel n : ℕ) → n < fuel → (cs : Text) × (c : ℕ) × (str_from fuel n ≡ cs ++ c ∷ []) × IsDigit c
unfolding str_from
str_from_last zero n h = elim h [ ]
str_from_last (suc fuel) n h = elim (Bool-cases (ltb n 10)) [
  | inl small ↦ ([], b'0' + n, rw small, ground arith)
  | inr big ↦ (str_from fuel (n / 10), b'0' + n % 10, rw big, ground arith)
]

int_digits-str_from :
    (fuel n : ℕ) (last : Bool) (rest : Text)
    → n < fuel
    → int_digits last 0 (str_from fuel n ++ rest) ≡ int_digits true n rest
unfolding str_from
int_digits-str_from zero n last rest h = elim h [ ]
int_digits-str_from (suc fuel) n last rest h = elim (Bool-cases (ltb n 10)) [
  | inl small ↦ rw small (unfold int_digits in ground arith)
  | inr big ↦
      rw (big, append_assoc)
        (int_digits-str_from fuel (n / 10) last ((b'0' + n % 10) ∷ rest) (ground arith)
          ∙ unfold int_digits in ground arith)
]

strip_left_digit : (c : ℕ) (cs : Text) → IsDigit c → strip_left (c ∷ cs) ≡ c ∷ cs
unfolding strip_left
strip_left_digit c cs h = ground arith

strip-str_nat : (n : ℕ) → strip (str_nat n) ≡ str_nat n
unfolding strip str_nat
strip-str_nat n =
    let (c, cs, head, digit) = str_from_head (suc n) n (omega arith) in
    let (ds, d, tail, digit') = str_from_last (suc n) n (omega arith) in
    let keeps : strip_left (str_from (suc n) n) ≡ str_from (suc n) n =
      rw head (strip_left_digit c cs digit) in
    let back : reverse (str_from (suc n) n) ≡ d ∷ reverse ds =
      rw tail (reverse-append ds (d ∷ [])) in
    rw (keeps, back, strip_left_digit d (reverse ds) digit', ← back) (reverse-reverse _)

int_signed_digit :
    (c : ℕ) (cs : Text) → IsDigit c → int_signed (c ∷ cs) ≡ signed pos (int_digits false 0 (c ∷ cs))
unfolding int_signed
int_signed_digit c cs h = ground arith

int_digits_nil : (n : ℕ) → int_digits true n [] ≡ some n
unfolding int_digits
int_digits_nil n = refl

str_nat_head : (n : ℕ) → (c : ℕ) × (cs : Text) × (str_nat n ≡ c ∷ cs) × IsDigit c
unfolding str_nat
str_nat_head n = str_from_head (suc n) n (omega arith)

int_digits-str_nat : (n : ℕ) → int_digits false 0 (str_nat n) ≡ some n
unfolding str_nat
int_digits-str_nat n =
    ap (int_digits false 0) (sym (append-nil (str_from (suc n) n)))
    ∙ int_digits-str_from (suc n) n false [] (omega arith)
    ∙ int_digits_nil n

-- `int(str(n))` is `n`.
pub int_of-str_nat : (n : ℕ) → int_of (str_nat n) ≡ some (pos n)
unfolding int_of
int_of-str_nat n =
    let (c, cs, head, digit) = str_nat_head n in
    let read : int_digits false 0 (c ∷ cs) ≡ some n = rw head at (int_digits-str_nat n) in
    rw (strip-str_nat n, head, int_signed_digit c cs digit, read)
