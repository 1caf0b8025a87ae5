-- ===== src/Metrics/Listing.antt =====
-- That what the registry of app/metrics.py holds stands in its text exposition.
use eve_api_cache.Base.{
  ℕ, ◌≡◌, refl, ap, sym, subst, Bool, some, List, [], ◌∷◌, ◌++◌, All, All-append, Text, text,
  text_eq, text_eq_iff, Bool-cases, ◌⊎◌, inl, inr, get_or, arith,
}
use eve_api_cache.Base.Ints.{str_nat}
use eve_api_cache.Postgres.{Any}
use eve_api_cache.Allowlist.Params.{sorted, insert_sorted, text_lt}
use eve_api_cache.Metrics.{
  Floats, latency_buckets, LabelSet, Key, label_key, key_eq, sample, Histogram, Registry,
}
use eve_api_cache.Metrics.Histograms.{key_eq_iff}
use eve_api_cache.Metrics.Exposition.{
  sample_line, append_to, group, labels_lt, insert_pair, sorted_pairs, header, concat_map,
  group_lines, family_lines, value_lines, num, bucket_lines, histogram_lines, lines,
}
use eve_api_cache.Metrics.Scrapes.{IsName, IsLabelName, read_line, read_line-sample_line}
use eve_api_cache.Metrics.Numbers.{str_nat-IsUnbroken, num-IsUnbroken}

module _ {A : Type 0} (P : A → Type 0) where
  Any-before : (xs ys : List A) → Any P xs → Any P (xs ++ ys)
  Any-before [] ys h = elim h [ ]
  Any-before (x ∷ xs) ys (inl h) = inl h
  Any-before (x ∷ xs) ys (inr h) = inr (Any-before xs ys h)

  Any-behind : (xs ys : List A) → Any P ys → Any P (xs ++ ys)
  Any-behind [] ys h = h
  Any-behind (x ∷ xs) ys h = inr (Any-behind xs ys h)

  Any-weaken : (Q : A → Type 0) (xs : List A) → ((x : A) → Q x → P x) → Any Q xs → Any P xs
  Any-weaken Q [] f h = elim h [ ]
  Any-weaken Q (x ∷ xs) f (inl h) = inl (f x h)
  Any-weaken Q (x ∷ xs) f (inr h) = inr (Any-weaken Q xs f h)

module _ {K V : Type 0} (lt : K → K → Bool) (P : K × V → Type 0) where
  insert_pair-Any : (a : K × V) (bs : List (K × V)) → P a ⊎ Any P bs → Any P (insert_pair lt a bs)
  unfolding insert_pair
  insert_pair-Any a [] h = h
  insert_pair-Any a (b ∷ bs) h = elim (Bool-cases (lt b.0 a.0)) [
    | inl behind ↦ rw behind elim h [
      | inl this ↦ inr (insert_pair-Any a bs (inl this))
      | inr (inl first) ↦ inl first
      | inr (inr later) ↦ inr (insert_pair-Any a bs (inr later))
    ]
    | inr before ↦ rw before h
  ]

  sorted_pairs-Any : (as' : List (K × V)) → Any P as' → Any P (sorted_pairs lt as')
  unfolding sorted_pairs
  sorted_pairs-Any [] h = h
  sorted_pairs-Any (a ∷ as') (inl h) = insert_pair-Any a (sorted_pairs lt as') (inl h)
  sorted_pairs-Any (a ∷ as') (inr h) =
      insert_pair-Any a (sorted_pairs lt as') (inr (sorted_pairs-Any as' h))

concat_map-Any :
    {A : Type 0} (P : Text → Type 0) (f : A → List Text) (as' : List A)
    → Any (λ a. Any P (f a)) as'
    → Any P (concat_map f as')
concat_map-Any P f [] h = elim h [ ]
concat_map-Any P f (a ∷ as') (inl h) = Any-before P (f a) (concat_map f as') h
concat_map-Any P f (a ∷ as') (inr h) =
    Any-behind P (f a) (concat_map f as') (concat_map-Any P f as' h)

module _ {V : Type 0} where
  -- The item stands in the group of the name.
  abbrev IsIn : Text → LabelSet × V → List (Text × List (LabelSet × V)) → Type 0
  IsIn name item grouped = Any (λ g. (g.0 ≡ name) × Any (λ i. i ≡ item) g.1) grouped

  append_to-IsIn :
      (name : Text) (item : LabelSet × V) (grouped : List (Text × List (LabelSet × V)))
      → IsIn name item (append_to name item grouped)
  append_to-IsIn name item [] = inl (refl, inl refl)
  append_to-IsIn name item ((other, items) ∷ grouped) = elim (Bool-cases (text_eq name other)) [
    | inl same ↦ rw same (
        inl (
          sym ((text_eq_iff name other).0 same),
          Any-behind (λ i. i ≡ item) items (item ∷ []) (inl refl),
        ))
    | inr unlike ↦ rw unlike (inr (append_to-IsIn name item grouped))
  ]

  append_to-keeps :
      (n name : Text) (i item : LabelSet × V) (grouped : List (Text × List (LabelSet × V)))
      → IsIn name item grouped
      → IsIn name item (append_to n i grouped)
  append_to-keeps n name i item [] h = elim h [ ]
  append_to-keeps n name i item ((other, items) ∷ grouped) h = elim (Bool-cases (text_eq n other)) [
    | inl same ↦ rw same elim h [
      | inl this ↦ inl (this.0, Any-before (λ i. i ≡ item) items (i ∷ []) this.1)
      | inr later ↦ inr later
    ]
    | inr unlike ↦ rw unlike elim h [
      | inl this ↦ inl this
      | inr later ↦ inr (append_to-keeps n name i item grouped later)
    ]
  ]

  group-keeps :
      (name : Text) (item : LabelSet × V) (flat : List (Key × V))
      (grouped : List (Text × List (LabelSet × V)))
      → IsIn name item grouped
      → IsIn name item (group flat grouped)
  unfolding group
  group-keeps name item [] grouped h = h
  group-keeps name item (((n, ls), v) ∷ flat) grouped h =
      group-keeps name item flat (append_to n (ls, v) grouped)
        (append_to-keeps n name (ls, v) item grouped h)

  group-IsIn :
      (k : Key) (v : V) (flat : List (Key × V)) (grouped : List (Text × List (LabelSet × V)))
      → sample k flat ≡ some v
      → IsIn k.0 (k.1, v) (group flat grouped)
  unfolding group
  group-IsIn k v [] grouped h = absurd (ground (arith, h))
  group-IsIn k v ((j, w) ∷ flat) grouped h = elim (Bool-cases (key_eq k j)) [
    | inl same ↦
        let e = key_eq_iff k j same in
        let v_eq : some w ≡ some v = rw same at h in
        subst (λ i. IsIn k.0 i (group flat (append_to j.0 (j.1, w) grouped)))
          (λ i. ((sym e i).1, ap (λ o. get_or o v) v_eq i))
          (group-keeps k.0 (j.1, w) flat _
            (subst (λ n. IsIn n (j.1, w) (append_to j.0 (j.1, w) grouped))
              (sym (ap (λ (k : Key). k.0) e)) (append_to-IsIn j.0 (j.1, w) grouped)))
    | inr unlike ↦ group-IsIn k v flat (append_to j.0 (j.1, w) grouped) (rw unlike at h)
  ]

module _ {F V : Type 0} (default_type : Text) (lines_of : Text → LabelSet × V → List Text)
    (P : Text → Type 0) where
  group_lines-Any :
      (r : Registry F) (name : Text) (item : LabelSet × V) (g : Text × List (LabelSet × V))
      → Any P (lines_of name item)
      → (g.0 ≡ name) × Any (λ i. i ≡ item) g.1
      → Any P (group_lines default_type lines_of r g)
  unfolding group_lines
  group_lines-Any r name item (n, items) h (e, there) = Any-behind P (header n default_type r) _ (
      concat_map-Any P (lines_of n) (sorted_pairs labels_lt items) (
        sorted_pairs-Any labels_lt (λ i. Any P (lines_of n i)) items
          (Any-weaken (λ i. Any P (lines_of n i)) (λ i. i ≡ item) items
            (λ i same.
              subst (λ i. Any P (lines_of n i)) (sym same)
                (subst (λ n. Any P (lines_of n item)) (sym e) h))
            there)))

  family_lines-Any :
      (flat : List (Key × V)) (r : Registry F) (k : Key) (v : V)
      → sample k flat ≡ some v
      → Any P (lines_of k.0 (k.1, v))
      → Any P (family_lines default_type lines_of flat r)
  unfolding family_lines
  family_lines-Any flat r k v there h =
      concat_map-Any P (group_lines default_type lines_of r) (sorted_pairs text_lt (group flat []))
        (sorted_pairs-Any text_lt (λ g. Any P (group_lines default_type lines_of r g))
          (group flat [])
          (Any-weaken (λ g. Any P (group_lines default_type lines_of r g)) _ (group flat [])
            (λ g in_group. group_lines-Any r k.0 (k.1, v) g h in_group)
            (group-IsIn k v flat [] there)))

insert_sorted-All :
    (P : Text × Text → Type 0) (l : Text × Text) (ls : LabelSet)
    → P l
    → All P ls
    → All P (insert_sorted (λ l. l.0) l ls)
unfolding insert_sorted
insert_sorted-All P l [] h all = (h, tt)
insert_sorted-All P l (m ∷ ls) h all = elim (Bool-cases (text_lt m.0 l.0)) [
  | inl behind ↦ rw behind (all.0, insert_sorted-All P l ls h all.1)
  | inr before ↦ rw before (h, all)
]

pub label_key-All : (P : Text × Text → Type 0) (ls : LabelSet) → All P ls → All P (label_key ls)
unfolding label_key sorted
label_key-All P [] all = all
label_key-All P (l ∷ ls) all = insert_sorted-All P l (label_key ls) all.0 (label_key-All P ls all.1)

module _ (floats : Floats) where
  open floats use {Float}

  -- A line of the exposition reads as a sample.
  abbrev pub Shows : Registry Float → Text → LabelSet → Text → Type 0
  Shows r name labels value =
      Any (λ line. read_line line ≡ some (name, (labels, value))) (lines floats r)

  -- Every bucket stands in the lines.
  abbrev pub ShowsBuckets : Text → LabelSet → Registry Float → List Float → List ℕ → Type 0
  ShowsBuckets name labels r [] counts = Unit
  ShowsBuckets name labels r (bound ∷ bounds) [] = Unit
  ShowsBuckets name labels r (bound ∷ bounds) (n ∷ counts) =
      Shows r (name ++ text "_bucket") (labels ++ (text "le", num floats bound) ∷ []) (str_nat n)
      × ShowsBuckets name labels r bounds counts

  module _ (name : Text) (labels : LabelSet) (named : IsName name)
      (labelled : All IsLabelName (label_key labels)) where
    pub counter_lines :
        (r : Registry Float) (n : Float)
        → sample (name, label_key labels) r.counters ≡ some n
        → Shows r name (label_key labels) (num floats n)
    unfolding lines
    counter_lines r n there =
        Any-before _ (family_lines (text "counter") (value_lines floats) r.counters r) _ (
          family_lines-Any (text "counter") (value_lines floats) _ r.counters r
            (name, label_key labels) n there
            (inl (
              read_line-sample_line name (label_key labels) (num floats n) named labelled
                (num-IsUnbroken floats n))))

    pub gauge_lines :
        (r : Registry Float) (n : Float)
        → sample (name, label_key labels) r.gauges ≡ some n
        → Shows r name (label_key labels) (num floats n)
    unfolding lines
    gauge_lines r n there =
        Any-behind _ (family_lines (text "counter") (value_lines floats) r.counters r) _ (
          Any-before _ (family_lines (text "gauge") (value_lines floats) r.gauges r) _ (
            family_lines-Any (text "gauge") (value_lines floats) _ r.gauges r
              (name, label_key labels) n there
              (inl (
                read_line-sample_line name (label_key labels) (num floats n) named labelled
                  (num-IsUnbroken floats n)))))

    pub suffixed : (suffix : Text) → IsName suffix → IsName (name ++ suffix)
    suffixed suffix h = All-append _ name suffix named h

    pub bounded : (bound : Text) → All IsLabelName (label_key labels ++ (text "le", bound) ∷ [])
    bounded bound = All-append IsLabelName (label_key labels) _ labelled ((refl, (refl, tt)), tt)

    module _ (r : Registry Float) (hist : Histogram Float)
        (there : sample (name, label_key labels) r.histograms ≡ some hist) where
      pub histogram_line :
          (n : Text) (ls : LabelSet) (value : Text)
          → Any
              (λ line. read_line line ≡ some (n, (ls, value)))
              (histogram_lines floats name (label_key labels, hist))
          → Shows r n ls value
      unfolding lines
      histogram_line n ls value h =
          Any-behind _ (family_lines (text "counter") (value_lines floats) r.counters r) _ (
            Any-behind _ (family_lines (text "gauge") (value_lines floats) r.gauges r) _ (
              family_lines-Any (text "histogram") (histogram_lines floats) _ r.histograms r
                (name, label_key labels) hist there h))

      pub behind_buckets :
          (P : Text → Type 0)
          → Any P (
              sample_line
                (name ++ text "_bucket")
                (label_key labels ++ (text "le", text "+Inf") ∷ [])
                (str_nat hist.count)
              ∷ sample_line (name ++ text "_sum") (label_key labels) (num floats hist.sum)
              ∷ sample_line (name ++ text "_count") (label_key labels) (str_nat hist.count)
              ∷ [])
          → Any P (histogram_lines floats name (label_key labels, hist))
      unfolding histogram_lines
      behind_buckets P h =
          Any-behind P
            (bucket_lines floats name (label_key labels) (latency_buckets floats) hist.buckets) _ h

      pub bucket_shown :
          (bounds : List Float) (counts : List ℕ)
          → ((P : Text → Type 0)
              → Any P (bucket_lines floats name (label_key labels) bounds counts)
              → Any P (histogram_lines floats name (label_key labels, hist)))
          → ShowsBuckets name (label_key labels) r bounds counts
      unfolding bucket_lines
      bucket_shown [] counts within = tt
      bucket_shown (bound ∷ bounds) [] within = tt
      bucket_shown (bound ∷ bounds) (n ∷ counts) within = (
        histogram_line _ _ _ (
            within _ (
              inl (
                read_line-sample_line (name ++ text "_bucket") _ (str_nat n)
                  (suffixed (text "_bucket")
                    (refl, (refl, (refl, (refl, (refl, (refl, (refl, tt))))))))
                  (bounded (num floats bound)) (str_nat-IsUnbroken n)))),
        bucket_shown bounds counts (λ P h. within P (inr h)),
      )

      pub within_histogram :
          (P : Text → Type 0)
          → Any P
              (bucket_lines floats name (label_key labels) (latency_buckets floats) hist.buckets)
          → Any P (histogram_lines floats name (label_key labels, hist))
      unfolding histogram_lines
      within_histogram P h =
          Any-before P
            (bucket_lines floats name (label_key labels) (latency_buckets floats) hist.buckets) _ h
