-- ===== src/Metrics/Numbers.antt =====
-- The numbers of the text exposition of app/metrics.py stand on one line.
use eve_api_cache.Base.{
  ℕ, suc, zero, ◌+◌, ◌/◌, ◌%◌, ◌≡◌, refl, ◌==◌, false, Option, none, some, [], ◌∷◌, All-append,
  Text, Bool-cases, ltb, inl, inr, arith,
}
use eve_api_cache.Base.Ints.{ℤ, pos, negsuc, str_from, str_nat, str_int}
use eve_api_cache.Metrics.{Floats}
use eve_api_cache.Metrics.Exposition.{num, or_repr}
use eve_api_cache.Metrics.Scrapes.{IsUnbroken}

digit : (n : ℕ) → ((b'0' + n) == b'\n') ≡ false
digit n = ground arith

str_from-IsUnbroken : (fuel n : ℕ) → IsUnbroken (str_from fuel n)
unfolding str_from
str_from-IsUnbroken zero n = tt
str_from-IsUnbroken (suc fuel) n = elim (Bool-cases (ltb n 10)) [
  | inl h ↦ rw h (digit n, tt)
  | inr h ↦ rw h (
      All-append (λ c. (c == b'\n') ≡ false) (str_from fuel (n / 10)) ((b'0' + n % 10) ∷ [])
        (str_from-IsUnbroken fuel (n / 10)) (digit (n % 10), tt))
]

pub str_nat-IsUnbroken : (n : ℕ) → IsUnbroken (str_nat n)
unfolding str_nat
str_nat-IsUnbroken n = str_from-IsUnbroken (suc n) n

str_int-IsUnbroken : (z : ℤ) → IsUnbroken (str_int z)
unfolding str_int
str_int-IsUnbroken (pos n) = str_nat-IsUnbroken n
str_int-IsUnbroken (negsuc n) = (refl, str_nat-IsUnbroken (suc n))

or_repr-IsUnbroken : (o : Option ℤ) (t : Text) → IsUnbroken t → IsUnbroken (or_repr o t)
or_repr-IsUnbroken none t h = h
or_repr-IsUnbroken (some z) t h = str_int-IsUnbroken z

pub num-IsUnbroken : (floats : Floats) (v : floats.Float) → IsUnbroken (num floats v)
unfolding num
num-IsUnbroken floats v =
    or_repr-IsUnbroken (floats.whole v) (floats.repr v) (floats.repr-IsUnbroken v)
