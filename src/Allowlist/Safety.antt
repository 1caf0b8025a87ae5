-- ===== src/Allowlist/Safety.antt =====
-- What a path and a set of parameters that `validate_path` and `check_params` of app/allowlist.py
-- let through look like.
use eve_api_cache.Base.{
  ◌≡◌, refl, sym, ap, ◌∙◌, Bool, true, false, ◌&&◌, ◌||◌, not, Option, none, some, List, [], ◌∷◌,
  ◌++◌, ◌↔◌, if◌then◌else◌, Text, elem, filter, all, arith, subst, String, Bool-cases, inl, inr,
}
use eve_api_cache.Base.Dict.{Dict}
use eve_api_cache.Allowlist.Path.{
  valid_versions, danger_at, is_dangerous, lstrip_slash, split_slash, versioned, validate_path,
}
use eve_api_cache.Allowlist.Params.{
  proxy_params, keys, unknown_params, missing_params, check_params, complain,
}
use eve_api_cache.Allowlist.Endpoints.{EndpointSpec}

-- A text that a split at a slash took apart.
abbrev rejoin : Text × Option Text → Text
rejoin (head, none) = head
rejoin (head, some rest) = head ++ b'/' ∷ rest

split_slash-rejoin : (s : Text) → rejoin (split_slash s) ≡ s
unfolding split_slash
split_slash-rejoin [] = refl
split_slash-rejoin (c ∷ cs) = ground (arith, split_slash-rejoin cs)

or-left : (b c : Bool) → b ≡ true → (b || c) ≡ true
or-left b c h = ground arith

or-right : (b c : Bool) → c ≡ true → (b || c) ≡ true
or-right b c h = ground arith

is_dangerous-append : (xs t : Text) → danger_at t ≡ true → is_dangerous (xs ++ t) ≡ true
unfolding is_dangerous danger_at
is_dangerous-append [] [] h = h
is_dangerous-append [] (c ∷ cs) h = or-left (danger_at (c ∷ cs)) (is_dangerous cs) h
is_dangerous-append (x ∷ xs) t h =
    or-right (danger_at (x ∷ xs ++ t)) (is_dangerous (xs ++ t)) (is_dangerous-append xs t h)

safe-danger_at :
    (full_path xs ys : Text)
    → is_dangerous full_path ≡ false
    → full_path ≡ xs ++ ys
    → danger_at ys ≡ false
safe-danger_at full_path xs ys safe split = elim (Bool-cases (danger_at ys)) [
  | inl h ↦ cc (is_dangerous-append xs ys h)
  | inr h ↦ h
]

filter-all :
    (f g : Text → Bool) (xs : List Text)
    → ((x : Text) → f x ≡ not (g x))
    → ((filter f xs) ≡ []) ↔ (all g xs ≡ true)
filter-all f g [] h = ground arith
filter-all f g (x ∷ xs) h = ground (arith, filter-all f g xs h, h x)

complain-none :
    (message : String) (names : List Text) (o : Option Text)
    → ((complain message names o) ≡ none) ↔ ((names ≡ []) × (o ≡ none))
complain-none message [] o = ground arith
complain-none message (n ∷ ns) o = ground arith

test-some :
    {A : Type 0} (b : Bool) (x y : A) → (if b then some x else none) ≡ some y → (b ≡ true) × (x ≡ y)
test-some b x y e = ground arith

versioned-some :
    (s : Text × Option Text) (version rest : Text)
    → versioned s ≡ some (version, rest)
    → (elem version valid_versions ≡ true) × (rejoin s ≡ version ++ rest)
unfolding versioned
versioned-some (v, none) version rest e = ground arith
versioned-some (v, some r) version rest e =
    let (h, same) = test-some (elem v valid_versions) (v, b'/' ∷ r) (version, rest) e in
    (subst (λ w. elem w valid_versions ≡ true) (ap (λ p. p.0) same) h, ap (λ p. p.0 ++ p.1) same)

test-none :
    {A : Type 0} (b : Bool) (o : Option A) (y : A)
    → (if b then none else o) ≡ some y
    → (b ≡ false) × (o ≡ some y)
test-none b o y e = ground arith

-- A path that `validate_path` takes apart is, behind its leading slashes, the version, which is one
-- of the valid ones, and then the rest; and wherever it is cut in two, the second part does not begin
-- with `..`, an encoded dot or slash, a backslash, a control character or `//`.
pub validate_path_safe :
    (full_path version rest xs ys : Text)
    → validate_path full_path ≡ some (version, rest)
    → full_path ≡ xs ++ ys
    → (elem version valid_versions ≡ true)
      × (lstrip_slash full_path ≡ version ++ rest)
      × (danger_at ys ≡ false)
unfolding validate_path
validate_path_safe full_path version rest xs ys e split =
    let (safe, found) =
      test-none (is_dangerous full_path) (versioned (split_slash (lstrip_slash full_path)))
        (version, rest) e in
    let (valid, same) = versioned-some (split_slash (lstrip_slash full_path)) version rest found in
    (
      valid,
      sym (split_slash-rejoin (lstrip_slash full_path)) ∙ same,
      safe-danger_at full_path xs ys safe split,
    )

unknown_params-none :
    (spec : EndpointSpec) (params : Dict Text)
    → ((unknown_params spec params) ≡ [])
      ↔ (all (λ k. elem k proxy_params || elem k spec.allowed_params) (keys params) ≡ true)
unfolding unknown_params
unknown_params-none spec params =
    filter-all (λ k. not (elem k proxy_params) && not (elem k spec.allowed_params))
      (λ k. elem k proxy_params || elem k spec.allowed_params) (keys params) (λ k. ground arith)

missing_params-none :
    (spec : EndpointSpec) (params : Dict Text)
    → ((missing_params spec params) ≡ [])
      ↔ (all (λ k. elem k (keys params)) spec.required_params ≡ true)
unfolding missing_params
missing_params-none spec params =
    filter-all (λ k. not (elem k (keys params))) (λ k. elem k (keys params)) spec.required_params
      (λ k. refl)

and-true : (b c : Bool) → ((b && c) ≡ true) ↔ ((b ≡ true) × (c ≡ true))
and-true b c = ground arith

-- `check_params` accepts just the parameters that are all known to the proxy or to the endpoint and
-- that have all those that the endpoint requires.
pub check_params-accepts :
    (spec : EndpointSpec) (params : Dict Text)
    → ((check_params spec params) ≡ none) ↔ (
        (all (λ k. elem k proxy_params || elem k spec.allowed_params) (keys params)
          && all (λ k. elem k (keys params)) spec.required_params)
        ≡ true)
unfolding check_params
check_params-accepts spec params =
    let missing =
      complain "missing required query parameter(s): " (missing_params spec params) none in
    let u = complain-none "unsupported query parameter(s): " (unknown_params spec params) missing in
    let m =
      complain-none "missing required query parameter(s): " (missing_params spec params) none in
    let known = unknown_params-none spec params in
    let present = missing_params-none spec params in
    let both =
      and-true (all (λ k. elem k proxy_params || elem k spec.allowed_params) (keys params))
        (all (λ k. elem k (keys params)) spec.required_params) in
    (
      λ e. let (a, b) = u.0 e in both.1 (known.0 a, present.0 (m.0 b).0),
      λ h. let (a, b) = both.0 h in u.1 (known.1 a, m.1 (present.1 b, refl)),
    )
