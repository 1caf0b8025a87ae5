-- ===== src/Metrics/Scrapes.antt =====
-- What a scraper reads from the text exposition of app/metrics.py: a reader for the lines of samples,
-- after the documentation of the format.
use eve_api_cache.Base.{
  ℕ, suc, zero, ◌<◌, ◌≡◌, refl, ap, sym, ◌∙◌, ◌==◌, Bool, true, false, not, ◌&&◌, ◌||◌, Option,
  none, some, [], ◌∷◌, ◌++◌, map, all, All, length, length-append, if◌then◌else◌, Text, text,
  Bool-cases, ==_iff, inl, inr, arith,
}
use mathlib.Core.List.{append_assoc}
use eve_api_cache.Metrics.{LabelSet}
use eve_api_cache.Metrics.Exposition.{replace, escape, label_text, joined, fmt_labels, sample_line}

-- What a character behind a backslash stands for.
abbrev unescaped : ℕ → ℕ
unescaped c = if c == b'n' then b'\n' else c

abbrev prepend : ℕ → Option (Text × Text) → Option (Text × Text)
prepend c none = none
prepend c (some (value, rest)) = some (c ∷ value, rest)

-- A value up to its closing quote, and what stands behind; the character before may be a backslash.
-- A line feed ends the line, and no value goes on behind it.
abbrev pub read_value : Bool → Text → Option (Text × Text)
read_value behind [] = none
read_value true (c ∷ cs) = prepend (unescaped c) (read_value false cs)
read_value false (c ∷ cs) =
    let quoted = read_value true cs in
    let plain = prepend c (read_value false cs) in
    if c == b'"'
    then some ([], cs)
    else if c == b'\\'
    then quoted
    else if c == b'\n'
    then none
    else plain

-- What stands before the first character with a property, and from it on.
abbrev span : (ℕ → Bool) → Text → Text × Text
span p [] = ([], [])
span p (c ∷ cs) = let rest = span p cs in if p c then ([], c ∷ cs) else (c ∷ rest.0, rest.1)

abbrev labelled : Text → Option (Text × Text) → Option ((Text × Text) × Text)
labelled name none = none
labelled name (some (value, rest)) = some ((name, value), rest)

abbrev read_quoted : Text → Text → Option ((Text × Text) × Text)
read_quoted name (e ∷ q ∷ cs) =
    if e == b'=' && q == b'"' then labelled name (read_value false cs) else none
read_quoted name (e ∷ []) = none
read_quoted name [] = none

abbrev ends_label : ℕ → Bool
ends_label c = c == b'=' || c == b'\n'

-- A label and what stands behind.
abbrev read_label : Text → Option ((Text × Text) × Text)
read_label cs = let (name, rest) = span ends_label cs in read_quoted name rest

abbrev another : Text × Text → Option (LabelSet × Text) → Option (LabelSet × Text)
another l none = none
another l (some (ls, rest)) = some (l ∷ ls, rest)

-- What a label with its comma or the closing brace makes of the reading of what stands behind.
abbrev read_more :
    (Text → Option (LabelSet × Text)) → Option ((Text × Text) × Text) → Option (LabelSet × Text)
read_more again none = none
read_more again (some (l, [])) = none
read_more again (some (l, c ∷ cs)) =
    let more = another l (again cs) in
    if c == b',' then more else if c == b'}' then some (l ∷ [], cs) else none

-- Labels up to the closing brace; there are at most as many as the number says.
abbrev read_labels : ℕ → Text → Option (LabelSet × Text)
read_labels zero cs = none
read_labels (suc n) cs = read_more (λ rest. read_labels n rest) (read_label cs)

-- No line feed stands in the text.
abbrev is_unbroken : Text → Bool
is_unbroken [] = true
is_unbroken (c ∷ cs) = not (c == b'\n') && is_unbroken cs

abbrev pub IsUnbroken : Text → Type 0
IsUnbroken line = All (λ c. (c == b'\n') ≡ false) line

is_unbroken-IsUnbroken : (t : Text) → IsUnbroken t → is_unbroken t ≡ true
is_unbroken-IsUnbroken [] h = refl
is_unbroken-IsUnbroken (c ∷ cs) h = rw (h.0, is_unbroken-IsUnbroken cs h.1) refl

-- The value behind the blank, which takes the rest of the line.
abbrev read_number : Text → Option (LabelSet × Text) → Option (Text × (LabelSet × Text))
read_number name none = none
read_number name (some (labels, [])) = none
read_number name (some (labels, c ∷ value)) =
    if c == b' ' && is_unbroken value then some (name, (labels, value)) else none

abbrev ends_name : ℕ → Bool
ends_name c = c == b'{' || c == b' ' || c == b'\n'

abbrev read_behind : Text → Text → Option (Text × (LabelSet × Text))
read_behind name [] = none
read_behind name (c ∷ cs) =
    if c == b'{'
    then read_number name (read_labels (length cs) cs)
    else read_number name (some ([], c ∷ cs))

-- The name, the labels and the value of a line.
abbrev pub read_line : Text → Option (Text × (LabelSet × Text))
read_line cs = let (name, rest) = span ends_name cs in read_behind name rest

-- Names that end neither early nor late.
abbrev pub IsName : Text → Type 0
IsName name = All (λ c. ends_name c ≡ false) name

abbrev pub IsLabelName : Text × Text → Type 0
IsLabelName (k, v) = All (λ c. ends_label c ≡ false) k

replace-append :
    (c : ℕ) (t xs ys : Text) → replace c t (xs ++ ys) ≡ replace c t xs ++ replace c t ys
unfolding replace
replace-append c t [] ys = refl
replace-append c t (x ∷ xs) ys = rw (replace-append c t xs ys, append_assoc) refl

-- What `_escape` makes of one character.
abbrev escape_code : ℕ → Text
escape_code c =
    if c == b'\\'
    then text "\\\\"
    else if c == b'"'
    then text "\\\""
    else if c == b'\n'
    then text "\\n"
    else c ∷ []

escape_cons : (c : ℕ) (cs : Text) → escape (c ∷ cs) ≡ escape_code c ++ escape cs
unfolding escape replace
escape_cons c cs = elim (Bool-cases (c == b'\\')) [
  | inl slash ↦ rw slash refl
  | inr h ↦ elim (Bool-cases (c == b'"')) [
    | inl quote ↦ rw (h, quote) refl
    | inr k ↦ elim (Bool-cases (c == b'\n')) [
      | inl line ↦ rw (h, k, line) refl
      | inr plain ↦ rw (h, k, plain) refl
    ]
  ]
]

escape_nil : escape [] ≡ []
unfolding escape replace
escape_nil = refl

abbrev read_as : ℕ → Text → Text → Option (Text × Text)
read_as c cs rest = some (c ∷ cs, rest)

read_same : (c d : ℕ) (cs rest : Text) → (c == d) ≡ true → read_as d cs rest ≡ read_as c cs rest
read_same c d cs rest h = ap (λ c. read_as c cs rest) (sym ((==_iff c d).0 h))

read_value-escape :
    (value rest : Text) → read_value false (escape value ++ b'"' ∷ rest) ≡ some (value, rest)
read_value-escape [] rest = rw escape_nil refl
read_value-escape (c ∷ cs) rest = elim (Bool-cases (c == b'\\')) [
  | inl slash ↦
      rw (escape_cons c cs, slash, read_value-escape cs rest) (read_same c b'\\' cs rest slash)
  | inr h ↦ elim (Bool-cases (c == b'"')) [
    | inl quote ↦
        rw (escape_cons c cs, h, quote, read_value-escape cs rest) (read_same c b'"' cs rest quote)
    | inr k ↦ elim (Bool-cases (c == b'\n')) [
      | inl line ↦
          rw (escape_cons c cs, h, k, line, read_value-escape cs rest)
            (read_same c b'\n' cs rest line)
      | inr plain ↦
          rw (escape_cons c cs, h, k, plain) rw (h, k, plain, read_value-escape cs rest) refl
    ]
  ]
]

span-append :
    (p : ℕ → Bool) (name : Text) (c : ℕ) (rest : Text)
    → All (λ c. p c ≡ false) name
    → p c ≡ true
    → span p (name ++ c ∷ rest) ≡ (name, c ∷ rest)
span-append p [] c rest all h = rw h refl
span-append p (x ∷ name) c rest all h = rw (all.0, span-append p name c rest all.1 h) refl

label_text-append :
    (k v rest : Text) → label_text (k, v) ++ rest ≡ k ++ b'=' ∷ b'"' ∷ (escape v ++ b'"' ∷ rest)
label_text-append k v rest =
    append_assoc k _ rest
    ∙ ap (λ t. k ++ b'=' ∷ b'"' ∷ t) (append_assoc (escape v) (text "\"") rest)

read_label-label_text :
    (l : Text × Text) (rest : Text)
    → IsLabelName l
    → read_label (label_text l ++ rest) ≡ some (l, rest)
read_label-label_text (k, v) rest named =
    ap read_label (label_text-append k v rest)
    ∙ (ap (λ (s : Text × Text). read_quoted s.0 s.1)
          (span-append ends_label k b'=' (b'"' ∷ (escape v ++ b'"' ∷ rest)) named refl)
        ∙ ap (labelled k) (read_value-escape v rest))

read_labels-joined :
    (n : ℕ) (l : Text × Text) (ls : LabelSet) (rest : Text)
    → length ls < n
    → All IsLabelName (l ∷ ls)
    → read_labels n (joined (text ",") (map label_text (l ∷ ls)) ++ b'}' ∷ rest)
      ≡ some (l ∷ ls, rest)
read_labels-joined zero l ls rest le named = absurd (omega (arith, le))
read_labels-joined (suc n) l [] rest le named =
    ap (read_more (λ rest. read_labels n rest)) (read_label-label_text l (b'}' ∷ rest) named.0)
read_labels-joined (suc n) l (m ∷ ls) rest le named =
    ap (λ t. read_labels (suc n) t) (append_assoc (label_text l) _ (b'}' ∷ rest))
    ∙ (ap (read_more (λ rest. read_labels n rest)) (read_label-label_text l _ named.0)
        ∙ ap (another l) (read_labels-joined n m ls rest (omega (arith, le)) named.1))

grows : (a x y : Text) (n : ℕ) → n < length (x ++ y) → suc n < length ((a ++ b',' ∷ x) ++ y)
grows a x y n h =
    omega (arith, h, length-append x y, length-append (a ++ b',' ∷ x) y, length-append a (b',' ∷ x))

-- There are enough characters for the labels.
labels_fit :
    (l : Text × Text) (ls : LabelSet) (rest : Text)
    → length ls < length (joined (text ",") (map label_text (l ∷ ls)) ++ b'}' ∷ rest)
labels_fit l [] rest = omega (arith, length-append (label_text l) (b'}' ∷ rest))
labels_fit l (m ∷ ls) rest =
    grows (label_text l) (joined (text ",") (map label_text (m ∷ ls))) (b'}' ∷ rest) (length ls)
      (labels_fit m ls rest)

read_number-unbroken :
    (name value : Text) (labels : LabelSet)
    → IsUnbroken value
    → read_number name (some (labels, b' ' ∷ value)) ≡ some (name, (labels, value))
read_number-unbroken name value labels h = rw (is_unbroken-IsUnbroken value h) refl

-- A name without a blank, an opening brace or a line feed, labels whose names have neither an equals
-- sign nor a line feed, and a value without a line feed are what a scraper, for which a line feed ends
-- the line, reads from the line of a sample, whatever the texts of the labels are: quotes, backslashes
-- and line feeds in them too.
pub read_line-sample_line :
    (name : Text) (labels : LabelSet) (value : Text)
    → IsName name
    → All IsLabelName labels
    → IsUnbroken value
    → read_line (sample_line name labels value) ≡ some (name, (labels, value))
unfolding sample_line fmt_labels
read_line-sample_line name [] value named labels unbroken =
    ap (λ (s : Text × Text). read_behind s.0 s.1) (span-append ends_name name b' ' value named refl)
    ∙ read_number-unbroken name value [] unbroken
read_line-sample_line name (l ∷ ls) value named labels unbroken =
    ap (λ t. read_line (name ++ b'{' ∷ t))
      (append_assoc (joined (text ",") (map label_text (l ∷ ls))) (text "}") (b' ' ∷ value))
    ∙ (ap (λ (s : Text × Text). read_behind s.0 s.1) (span-append ends_name name b'{' _ named refl)
        ∙ (ap (read_number name)
              (read_labels-joined _ l ls (b' ' ∷ value) (labels_fit l ls (b' ' ∷ value)) labels)
            ∙ read_number-unbroken name value (l ∷ ls) unbroken))
