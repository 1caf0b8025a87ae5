-- ===== src/Metrics/Exposition.antt =====
-- The text exposition of app/metrics.py.
use eve_api_cache.Base.{
  ℕ, ◌==◌, Bool, true, false, ◌&&◌, ◌||◌, Option, none, some, List, [], ◌∷◌, ◌++◌, map,
  if◌then◌else◌, Text, text, text_eq, get_or,
}
use eve_api_cache.Base.Ints.{ℤ, str_int, str_nat}
use eve_api_cache.Allowlist.Params.{text_lt}
use eve_api_cache.Metrics.{Floats, latency_buckets, LabelSet, Key, sample, Histogram, Registry}

-- `str.replace` of one character
unfoldable pub replace : ℕ → Text → Text → Text
replace c t [] = []
replace c t (x ∷ xs) = (if x == c then t else x ∷ []) ++ replace c t xs

-- `_escape`
unfoldable pub escape : Text → Text
escape value =
    replace b'\n' (text "\\n") (replace b'"' (text "\\\"") (replace b'\\' (text "\\\\") value))

-- One label: `k="v"`
abbrev pub label_text : Text × Text → Text
label_text (k, v) = k ++ (text "=\"" ++ (escape v ++ text "\""))

-- `separator.join`
abbrev pub joined : Text → List Text → Text
joined separator [] = []
joined separator (t ∷ []) = t
joined separator (t ∷ u ∷ ts) = t ++ (separator ++ joined separator (u ∷ ts))

-- `_fmt_labels`
unfoldable pub fmt_labels : LabelSet → Text
fmt_labels [] = []
fmt_labels (l ∷ ls) = text "{" ++ (joined (text ",") (map label_text (l ∷ ls)) ++ text "}")

-- `f"{name}{_fmt_labels(labels)} {value}"`
unfoldable pub sample_line : Text → LabelSet → Text → Text
sample_line name labels value = name ++ (fmt_labels labels ++ (text " " ++ value))

module _ {ℓ} {V : Type ℓ} where
  -- `grouped[name].append`
  abbrev pub append_to :
      Text → LabelSet × V → List (Text × List (LabelSet × V)) → List (Text × List (LabelSet × V))
  append_to name item [] = (name, item ∷ []) ∷ []
  append_to name item ((other, items) ∷ grouped) =
      let rest = append_to name item grouped in
      if text_eq name other then (other, items ++ item ∷ []) ∷ grouped else (other, items) ∷ rest

  -- `_group` and `_group_hist`, from what is grouped already
  unfoldable pub group :
      List (Key × V) → List (Text × List (LabelSet × V)) → List (Text × List (LabelSet × V))
  group [] grouped = grouped
  group (((name, labels), value) ∷ flat) grouped =
      group flat (append_to name (labels, value) grouped)

-- Tuples of labels in their order.
abbrev pub labels_lt : LabelSet → LabelSet → Bool
labels_lt [] [] = false
labels_lt [] (l ∷ ls) = true
labels_lt (k ∷ ks) [] = false
labels_lt ((n, v) ∷ ks) ((m, w) ∷ ls) =
    text_lt n m || (text_eq n m && (text_lt v w || (text_eq v w && labels_lt ks ls)))

-- `sorted` by what comes first in the pairs. No two pairs that are sorted here have that in common,
-- so that what comes second is not compared.
module _ {ℓ} {K : Type 0} {V : Type ℓ} (lt : K → K → Bool) where
  unfoldable pub insert_pair : K × V → List (K × V) → List (K × V)
  insert_pair a [] = a ∷ []
  insert_pair a (b ∷ bs) =
      let rest = insert_pair a bs in if lt b.0 a.0 then b ∷ rest else a ∷ b ∷ bs

  unfoldable pub sorted_pairs : List (K × V) → List (K × V)
  sorted_pairs [] = []
  sorted_pairs (a ∷ as') = insert_pair a (sorted_pairs as')

-- `_header`
unfoldable pub header : {F : Type 0} → Text → Text → Registry F → List Text
header name default_type r =
    let (metric_type, help_text) = get_or (sample (name, []) r.meta) (default_type, []) in
    (text "# HELP " ++ (name ++ (text " " ++ help_text)))
    ∷ (text "# TYPE " ++ (name ++ (text " " ++ metric_type)))
    ∷ []

abbrev pub concat_map {ℓ} : {A : Type ℓ} → (A → List Text) → List A → List Text
concat_map f [] = []
concat_map f (a ∷ as') = f a ++ concat_map f as'

-- The lines of all groups, each behind its header.
module _ {V : Type 0} (default_type : Text) (lines_of : Text → LabelSet × V → List Text) where
  unfoldable pub group_lines : {F : Type 0} → Registry F → Text × List (LabelSet × V) → List Text
  group_lines r (name, samples) =
      header name default_type r ++ concat_map (lines_of name) (sorted_pairs labels_lt samples)

  unfoldable pub family_lines : {F : Type 0} → List (Key × V) → Registry F → List Text
  family_lines flat r = concat_map (group_lines r) (sorted_pairs text_lt (group flat []))

abbrev pub or_repr : Option ℤ → Text → Text
or_repr none printed = printed
or_repr (some n) printed = str_int n

module _ (floats : Floats) where
  open floats use {Float, whole, repr}

  -- `_num`
  unfoldable pub num : Float → Text
  num value = or_repr (whole value) (repr value)

  -- The line of a counter or a gauge.
  abbrev pub value_lines : Text → LabelSet × Float → List Text
  value_lines name (labels, value) = sample_line name labels (num value) ∷ []

  unfoldable pub bucket_lines : Text → LabelSet → List Float → List ℕ → List Text
  bucket_lines name labels [] counts = []
  bucket_lines name labels (bound ∷ bounds) [] = []
  bucket_lines name labels (bound ∷ bounds) (n ∷ counts) =
      sample_line (name ++ text "_bucket") (labels ++ (text "le", num bound) ∷ []) (str_nat n)
      ∷ bucket_lines name labels bounds counts

  unfoldable pub histogram_lines : Text → LabelSet × Histogram Float → List Text
  histogram_lines name (labels, hist) =
      bucket_lines name labels (latency_buckets floats) hist.buckets
      ++ sample_line (name ++ text "_bucket") (labels ++ (text "le", text "+Inf") ∷ [])
          (str_nat hist.count)
        ∷ sample_line (name ++ text "_sum") labels (num hist.sum)
        ∷ sample_line (name ++ text "_count") labels (str_nat hist.count)
        ∷ []

  unfoldable pub lines : Registry Float → List Text
  lines r =
      family_lines (text "counter") value_lines r.counters r
      ++ (family_lines (text "gauge") value_lines r.gauges r
          ++ family_lines (text "histogram") histogram_lines r.histograms r)

  unfoldable pub render : Registry Float → Text
  render r = joined (text "\n") (lines r) ++ text "\n"
