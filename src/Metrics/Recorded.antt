-- ===== src/Metrics/Recorded.antt =====
-- What the text exposition of app/metrics.py shows of what was recorded.
use eve_api_cache.Base.{
  ◌≡◌, refl, none, some, List, [], ◌∷◌, ◌++◌, All, Text, text, inl, inr, length,
}
use eve_api_cache.Base.Ints.{str_nat}
use eve_api_cache.Metrics.{
  Floats, latency_buckets, LabelSet, label_key, sample, Registry, register, inc_counter, set_gauge,
  counter_value,
}
use eve_api_cache.Metrics.Histograms.{
  sample-put, total, histogram_of, observe_all, observe_all-histogram_of,
}
use eve_api_cache.Metrics.Exposition.{num}
use eve_api_cache.Metrics.Scrapes.{IsName, IsLabelName, read_line-sample_line}
use eve_api_cache.Metrics.Numbers.{str_nat-IsUnbroken, num-IsUnbroken}
use eve_api_cache.Metrics.Listing.{
  Shows, ShowsBuckets, label_key-All, counter_lines, gauge_lines, histogram_line, behind_buckets,
  bucket_shown, within_histogram, suffixed, bounded,
}

module _ (floats : Floats) (name : Text) (labels : LabelSet) where
  open floats use {Float, add}

  sample-inc_counter :
      (help : Text) (value : Float) (r : Registry Float)
      → sample (name, label_key labels) (inc_counter floats name value help labels r).counters
        ≡ some (add (counter_value floats name labels r) value)
  unfolding inc_counter counter_value register
  sample-inc_counter help value r = sample-put (name, label_key labels) _ r.counters

  sample-set_gauge :
      (help : Text) (value : Float) (r : Registry Float)
      → sample (name, label_key labels) (set_gauge floats name value help labels r).gauges
        ≡ some value
  unfolding set_gauge register
  sample-set_gauge help value r = sample-put (name, label_key labels) value r.gauges

  -- A name has no blank, no opening brace and no line feed, and the names of its labels have no equals
  -- sign and no line feed. After `inc_counter` or `set_gauge` a line of the exposition reads as a sample
  -- of this name and these labels, in the order of their names, and its value is the number that
  -- `_num` prints for the float sum of the counter's former value and the increment, or for the
  -- gauge's new value.
  pub recorded-Shows :
      (help : Text) (value : Float) (r : Registry Float)
      → IsName name
      → All IsLabelName labels
      → Shows floats
          (inc_counter floats name value help labels r)
          name
          (label_key labels)
          (num floats (add (counter_value floats name labels r) value))
        × Shows floats
            (set_gauge floats name value help labels r)
            name
            (label_key labels)
            (num floats value)
  recorded-Shows help value r named labelled =
      let sorted_labels = label_key-All IsLabelName labels labelled in
      (
        counter_lines floats name labels named sorted_labels
            (inc_counter floats name value help labels r) _ (sample-inc_counter help value r),
        gauge_lines floats name labels named sorted_labels
            (set_gauge floats name value help labels r) _ (sample-set_gauge help value r),
      )

  -- The registry has no histogram of this name and these labels, the name has no blank, no opening
  -- brace and no line feed, and the names of the labels have no equals sign and no line feed. Then,
  -- after any floats were observed, lines of the exposition read as the buckets with the number of
  -- values up to each bound, the bucket "+Inf" with the number of all values, their sum as the floats
  -- add it up from zero in the order of the observations, and their number again.
  pub observe_all-Shows :
      (v : Float) (vs : List Float) (r : Registry Float)
      → (named : IsName name) → All IsLabelName labels
      → sample (name, label_key labels) r.histograms ≡ none
      → ShowsBuckets floats name
          (label_key labels)
          (observe_all floats name labels (v ∷ vs) r)
          (latency_buckets floats)
          (histogram_of floats (v ∷ vs)).buckets
        × (Shows floats
              (observe_all floats name labels (v ∷ vs) r)
              (name ++ text "_bucket")
              (label_key labels ++ (text "le", text "+Inf") ∷ [])
              (str_nat (length (v ∷ vs)))
            × (Shows floats
                  (observe_all floats name labels (v ∷ vs) r)
                  (name ++ text "_sum")
                  (label_key labels)
                  (num floats (total floats (v ∷ vs)))
                × Shows floats
                    (observe_all floats name labels (v ∷ vs) r)
                    (name ++ text "_count")
                    (label_key labels)
                    (str_nat (length (v ∷ vs)))))
  observe_all-Shows v vs r named labelled absent =
      let sorted_labels = label_key-All IsLabelName labels labelled in
      let hist = histogram_of floats (v ∷ vs) in
      let after = observe_all floats name labels (v ∷ vs) r in
      let there = observe_all-histogram_of floats name labels v vs r absent in
      let shows = histogram_line floats name labels named sorted_labels after hist there in
      let behind = behind_buckets floats name labels named sorted_labels after hist there in
      (
        bucket_shown floats name labels named sorted_labels after hist there
            (latency_buckets floats) hist.buckets
            (within_histogram floats name labels named sorted_labels after hist there),
        (
          shows _ _ _ (
              behind _ (
                inl (
                  read_line-sample_line _ _ (str_nat hist.count)
                    (suffixed floats name labels named sorted_labels (text "_bucket")
                      (refl, (refl, (refl, (refl, (refl, (refl, (refl, tt))))))))
                    (bounded floats name labels named sorted_labels (text "+Inf"))
                    (str_nat-IsUnbroken hist.count)))),
          (
            shows _ _ _ (
                behind _ (
                  inr (
                    inl (
                      read_line-sample_line _ _ (num floats hist.sum)
                        (suffixed floats name labels named sorted_labels (text "_sum")
                          (refl, (refl, (refl, (refl, tt)))))
                        sorted_labels (num-IsUnbroken floats hist.sum))))),
            shows _ _ _ (
                behind _ (
                  inr (
                    inr (
                      inl (
                        read_line-sample_line _ _ (str_nat hist.count)
                          (suffixed floats name labels named sorted_labels (text "_count")
                            (refl, (refl, (refl, (refl, (refl, (refl, tt)))))))
                          sorted_labels (str_nat-IsUnbroken hist.count)))))),
          ),
        ),
      )
