-- ===== src/Metrics/Histograms.antt =====
-- What the registry of app/metrics.py holds after a run of operations.
use eve_api_cache.Base.{
  ℕ, suc, ◌+◌, ◌≡◌, refl, ap, ◌∙◌, true, none, some, List, [], ◌∷◌, map, if◌then◌else◌, Text, text,
  text_eq_refl, text_eq_iff, get_or, length, arith,
}
use eve_api_cache.Metrics.{
  Floats, latency_buckets, LabelSet, Key, label_key, labels_eq, key_eq, sample, put, Histogram,
  Registry, register, inc_counter, observe, counter_value, bump, record_value, empty_histogram,
}

labels_eq_refl : (ls : LabelSet) → labels_eq ls ls ≡ true
labels_eq_refl [] = refl
labels_eq_refl ((n, v) ∷ ls) = ground (arith, text_eq_refl n, text_eq_refl v, labels_eq_refl ls)

key_eq_refl : (k : Key) → key_eq k k ≡ true
key_eq_refl (name, labels) = ground (arith, text_eq_refl name, labels_eq_refl labels)

pub labels_eq_iff : (ks ls : LabelSet) → labels_eq ks ls ≡ true → ks ≡ ls
labels_eq_iff [] [] h = refl
labels_eq_iff [] (l ∷ ls) h = ground arith
labels_eq_iff (k ∷ ks) [] h = ground arith
labels_eq_iff ((n, v) ∷ ks) ((m, w) ∷ ls) h =
    ground (arith, text_eq_iff n m, text_eq_iff v w, labels_eq_iff ks ls)

pub key_eq_iff : (j k : Key) → key_eq j k ≡ true → j ≡ k
key_eq_iff (n, ls) (m, ks) h = ground (arith, h, text_eq_iff n m, labels_eq_iff ls ks)

pub sample-put {ℓ} :
    {V : Type ℓ} (k : Key) (v : V) (samples : List (Key × V)) → sample k (put k v samples) ≡ some v
sample-put k v [] = rw (key_eq_refl k) refl
sample-put k v ((j, w) ∷ samples) = ground (arith, sample-put k v samples)

module _ (floats : Floats) where
  open floats use {Float, zero, add, at_most}

  -- The sum of a list, and how many of its values are at most a bound.
  abbrev pub total : List Float → Float
  total [] = zero
  total (v ∷ vs) = add (total vs) v

  abbrev up_to : Float → List Float → ℕ
  up_to bound [] = 0
  up_to bound (v ∷ vs) = if at_most v bound then up_to bound vs + 1 else up_to bound vs

  abbrev pub histogram_of : List Float → Histogram Float
  histogram_of values = record {
    buckets = map (λ bound. up_to bound values) (latency_buckets floats);
    sum = total values;
    count = length values;
  }

  -- The observations of a list of values under one name and set of labels, the last value first.
  abbrev pub observe_all : Text → LabelSet → List Float → Registry Float → Registry Float
  observe_all name labels [] r = r
  observe_all name labels (v ∷ vs) r =
      observe floats name v (text "") labels (observe_all name labels vs r)

  bump-up_to :
      (v : Float) (vs bounds : List Float)
      → bump floats v bounds (map (λ bound. up_to bound vs) bounds)
        ≡ map (λ bound. up_to bound (v ∷ vs)) bounds
  unfolding bump
  bump-up_to v vs [] = refl
  bump-up_to v vs (b ∷ bounds) = ap (λ rest. up_to b (v ∷ vs) ∷ rest) (bump-up_to v vs bounds)

  add_one : (n : ℕ) → n + 1 ≡ suc n
  add_one n = omega arith

  record_value-histogram_of :
      (v : Float) (vs : List Float)
      → record_value floats v (histogram_of vs) ≡ histogram_of (v ∷ vs)
  unfolding record_value
  record_value-histogram_of v vs =
      rw (bump-up_to v vs (latency_buckets floats), add_one (length vs)) refl

  sample-observe :
      (name help : Text) (v : Float) (labels : LabelSet) (r : Registry Float)
      → sample (name, label_key labels) (observe floats name v help labels r).histograms
        ≡ some (
            record_value floats v
              (get_or (sample (name, label_key labels) r.histograms) (empty_histogram floats)))
  unfolding observe register
  sample-observe name help v labels r =
      sample-put (name, label_key labels)
        (record_value floats v
          (get_or (sample (name, label_key labels) r.histograms) (empty_histogram floats)))
        r.histograms

  -- From a histogram that has no values, the observations of a list of values leave in each bucket the
  -- number of values that are at most its bound, in `sum` their sum and in `count` their number.
  pub observe_all-histogram_of :
      (name : Text) (labels : LabelSet) (v : Float) (vs : List Float) (r : Registry Float)
      → sample (name, label_key labels) r.histograms ≡ none
      → sample (name, label_key labels) (observe_all name labels (v ∷ vs) r).histograms
        ≡ some (histogram_of (v ∷ vs))
  observe_all-histogram_of name labels v [] r h =
      sample-observe name (text "") v labels r ∙ rw h (ap some (record_value-histogram_of v []))
  observe_all-histogram_of name labels v (w ∷ vs) r h =
      sample-observe name (text "") v labels (observe_all name labels (w ∷ vs) r)
      ∙ rw (observe_all-histogram_of name labels w vs r h)
          (ap some (record_value-histogram_of v (w ∷ vs)))

  -- `inc_counter` adds its value to the counter of its name and labels, which starts at 0.
  pub counter_value-inc_counter :
      (name help : Text) (value : Float) (labels : LabelSet) (r : Registry Float)
      → counter_value floats name labels (inc_counter floats name value help labels r)
        ≡ add (counter_value floats name labels r) value
  unfolding counter_value inc_counter register
  counter_value-inc_counter name help value labels r =
      rw
        (sample-put (name, label_key labels)
          (add (get_or (sample (name, label_key labels) r.counters) zero) value) r.counters)
        refl
