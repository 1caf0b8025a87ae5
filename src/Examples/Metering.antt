-- ===== src/Examples/Metering.antt =====
-- Runs of the text exposition of app/metrics.py.
use eve_api_cache.Base.{
  Option, none, if◌then◌else◌, ◌%◌, ◌/◌, ◌==◌, leb, false, All-append, ℕ, ◌+◌, ◌≡◌, refl, some, [],
  ◌∷◌, ◌++◌, All, Text, text,
}
use eve_api_cache.Base.Ints.{ℤ, pos, str_nat}
use eve_api_cache.Metrics.{
  Floats, LabelSet, Registry, label_key, inc_counter, set_gauge, counter_value,
}
use eve_api_cache.Metrics.Histograms.{observe_all}
use eve_api_cache.Metrics.Exposition.{sample_line, num}
use eve_api_cache.Metrics.Scrapes.{
  IsName, IsLabelName, IsUnbroken, read_line, read_line-sample_line,
}
use eve_api_cache.Metrics.Numbers.{str_nat-IsUnbroken}
use eve_api_cache.Metrics.Listing.{Shows}
use eve_api_cache.Metrics.Recorded.{recorded-Shows, observe_all-Shows}

-- A label with a quote, a backslash and a line feed.
abbrev odd_labels : LabelSet
odd_labels = (text "path", text "a\"b\\\n") ∷ []

abbrev odd_name : Text
odd_name = text "up"

odd_name-IsName : IsName odd_name
odd_name-IsName = (refl, (refl, tt))

odd_labels-IsLabelName : All IsLabelName odd_labels
odd_labels-IsLabelName = ((refl, (refl, (refl, (refl, tt)))), tt)

-- Thousandths, of which the whole numbers are the multiples of a thousand.
abbrev as_whole : ℕ → Option ℤ
as_whole n = if n % 1000 == 0 then some (pos (n / 1000)) else none

abbrev thousandths_text : ℕ → Text
thousandths_text n = str_nat n ++ text "e-3"

thousandths_text-IsUnbroken : (n : ℕ) → IsUnbroken (thousandths_text n)
thousandths_text-IsUnbroken n =
    All-append (λ c. (c == b'\n') ≡ false) (str_nat n) (text "e-3") (str_nat-IsUnbroken n)
      (refl, (refl, (refl, tt)))

abbrev fixed_point : Floats
fixed_point = record {
  Float = ℕ;
  zero = 0;
  add = λ m n. m + n;
  at_most = leb;
  thousandths = λ n. n;
  whole = as_whole;
  repr = thousandths_text;
  repr-IsUnbroken = thousandths_text-IsUnbroken;
}

abbrev no_metrics : Registry ℕ
no_metrics = record { counters = []; gauges = []; histograms = []; meta = [] }

read_line-sample_line_example :
    read_line (sample_line odd_name odd_labels (text "7")) ≡ some (odd_name, (odd_labels, text "7"))
read_line-sample_line_example =
    read_line-sample_line odd_name odd_labels (text "7") odd_name-IsName odd_labels-IsLabelName
      (refl, tt)

recorded-Shows_example :
    Shows fixed_point
      (inc_counter fixed_point odd_name 2 (text "") odd_labels no_metrics)
      odd_name
      (label_key odd_labels)
      (num fixed_point (counter_value fixed_point odd_name odd_labels no_metrics + 2))
    × Shows fixed_point
        (set_gauge fixed_point odd_name 2 (text "") odd_labels no_metrics)
        odd_name
        (label_key odd_labels)
        (num fixed_point 2)
recorded-Shows_example =
    recorded-Shows fixed_point odd_name odd_labels (text "") 2 no_metrics odd_name-IsName
      odd_labels-IsLabelName

observe_all-Shows_example :
    Shows fixed_point
      (observe_all fixed_point odd_name odd_labels (3 ∷ 40 ∷ []) no_metrics)
      (odd_name ++ text "_sum")
      (label_key odd_labels)
      (num fixed_point 43)
observe_all-Shows_example =
    (observe_all-Shows fixed_point odd_name odd_labels 3 (40 ∷ []) no_metrics odd_name-IsName
      odd_labels-IsLabelName refl).1.1.0
