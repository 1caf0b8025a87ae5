-- ===== src/Metrics.antt =====
-- app/metrics.py: the registry, its three recording operations and its readers. The numbers
-- are Python's floats, a parameter. The lock makes each operation one step. The text
-- exposition is Exposition.
pub mod Histograms
pub mod Exposition
pub mod Scrapes
pub mod Numbers
pub mod Listing
pub mod Recorded
pub mod Breaks
use eve_api_cache.Base.{
  ◌≡◌, ◌==◌, All, ℕ, ◌+◌, ◌*◌, Bool, true, false, ◌&&◌, ◌||◌, Option, none, some, List, [], ◌∷◌,
  map, leb, if◌then◌else◌, Text, text_eq, text, get_or,
}
use eve_api_cache.Base.Ints.{ℤ}
use eve_api_cache.Allowlist.Params.{sorted}

-- Python's `float`: its zero, its sum, `<=`, the literal of a number of thousandths, `int` of one that
-- is a whole number (`is_integer`), and `repr`, which has no line feed.
pub record Floats : Type 1 where
  pub Float : Type 0
  pub zero : Float
  pub add : Float → Float → Float
  pub at_most : Float → Float → Bool
  pub thousandths : ℕ → Float
  pub whole : Float → Option ℤ
  pub repr : Float → Text
  pub repr-IsUnbroken : (v : Float) → All (λ c. (c == b'\n') ≡ false) (repr v)

abbrev pub LabelSet : Type 0
LabelSet = List (Text × Text)

-- A sample's key: its name, and its labels as `_key` sorts them.
abbrev pub Key : Type 0
Key = Text × LabelSet

-- `_key`
unfoldable pub label_key : LabelSet → LabelSet
label_key labels = sorted (λ l. l.0) labels

abbrev pub labels_eq : LabelSet → LabelSet → Bool
labels_eq [] [] = true
labels_eq [] (l ∷ ls) = false
labels_eq (k ∷ ks) [] = false
labels_eq ((n, v) ∷ ks) ((m, w) ∷ ls) = (text_eq n m && text_eq v w) && labels_eq ks ls

abbrev pub key_eq : Key → Key → Bool
key_eq (name, labels) (other, others) = text_eq name other && labels_eq labels others

-- A `dict` on keys.
abbrev pub sample {ℓ} : {V : Type ℓ} → Key → List (Key × V) → Option V
sample k [] = none
sample k ((j, v) ∷ samples) = if key_eq k j then some v else sample k samples

abbrev pub put {ℓ} : {V : Type ℓ} → Key → V → List (Key × V) → List (Key × V)
put k v [] = (k, v) ∷ []
put k v ((j, w) ∷ samples) =
    let rest = put k v samples in if key_eq k j then (j, v) ∷ samples else (j, w) ∷ rest

pub record Histogram (F : Type 0) : Type 0 where
  pub buckets : List ℕ
  pub sum : F
  pub count : ℕ

pub record Registry (F : Type 0) : Type 0 where
  pub counters : List (Key × F)
  pub gauges : List (Key × F)
  pub histograms : List (Key × Histogram F)
  pub meta : List (Key × (Text × Text))

module _ (floats : Floats) where
  open floats use {Float, zero, add, at_most, thousandths}

  -- `_LATENCY_BUCKETS`
  abbrev pub latency_buckets : List Float
  latency_buckets =
      map thousandths (5 ∷ 10 ∷ 25 ∷ 50 ∷ 100 ∷ 250 ∷ 500 ∷ 1000 ∷ 2500 ∷ 5000 ∷ 10000 ∷ [])

  -- `_register`: `setdefault`
  unfoldable pub register : Text → Text → Text → Registry Float → Registry Float
  register name metric_type help r = record r {
    meta = put (name, []) (get_or (sample (name, []) r.meta) (metric_type, help)) r.meta;
  }

  unfoldable pub inc_counter : Text → Float → Text → LabelSet → Registry Float → Registry Float
  inc_counter name value help labels r0 =
      let r = register name (text "counter") help r0 in
      let k : Key = (name, label_key labels) in
      record r { counters = put k (add (get_or (sample k r.counters) zero) value) r.counters }

  unfoldable pub set_gauge : Text → Float → Text → LabelSet → Registry Float → Registry Float
  set_gauge name value help labels r0 =
      let r = register name (text "gauge") help r0 in
      record r { gauges = put (name, label_key labels) value r.gauges }

  abbrev pub empty_histogram : Histogram Float
  empty_histogram = record { buckets = map (λ bound. 0) latency_buckets; sum = zero; count = 0 }

  -- The loop over the buckets.
  unfoldable pub bump : Float → List Float → List ℕ → List ℕ
  bump value [] counts = counts
  bump value (bound ∷ bounds) [] = []
  bump value (bound ∷ bounds) (n ∷ counts) =
      (if at_most value bound then n + 1 else n) ∷ bump value bounds counts

  unfoldable pub record_value : Float → Histogram Float → Histogram Float
  record_value value hist = record {
    buckets = bump value latency_buckets hist.buckets;
    sum = add hist.sum value;
    count = hist.count + 1;
  }

  unfoldable pub observe : Text → Float → Text → LabelSet → Registry Float → Registry Float
  observe name value help labels r0 =
      let r = register name (text "histogram") help r0 in
      let k : Key = (name, label_key labels) in
      record r {
        histograms =
            put k (record_value value (get_or (sample k r.histograms) empty_histogram))
              r.histograms;
      }

  unfoldable pub counter_value : Text → LabelSet → Registry Float → Float
  counter_value name labels r = get_or (sample (name, label_key labels) r.counters) zero

  unfoldable pub gauge_value : Text → LabelSet → Registry Float → Float
  gauge_value name labels r = get_or (sample (name, label_key labels) r.gauges) zero

  -- `reset`, which keeps the help texts
  unfoldable pub reset : Registry Float → Registry Float
  reset r = record r { counters = []; gauges = []; histograms = [] }
