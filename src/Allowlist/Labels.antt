-- ===== src/Allowlist/Labels.antt =====
-- `_pattern_to_label` and `endpoint_label` of app/allowlist.py. Each `re.sub` there replaces a
-- fixed text, the source of `\d+` or of `[0-9a-f]{40}`.
use eve_api_cache.Base.{
  ℕ, zero, suc, ◌-◌, List, [], ◌∷◌, ◌++◌, if◌then◌else◌, length, ◌==◌, Text, text, starts_with,
}
use eve_api_cache.Allowlist.Pattern.{Atom, lit, digits, hex40}
use eve_api_cache.Allowlist.Endpoints.{EndpointSpec}

abbrev digits_source : Text
digits_source = 92 ∷ text "d+"

abbrev hex_source : Text
hex_source = text "[0-9a-f]{40}"

unfoldable pub atoms_source : List Atom → Text
atoms_source [] = text "/?$"
atoms_source (lit t ∷ p) = t ++ atoms_source p
atoms_source (digits ∷ p) = digits_source ++ atoms_source p
atoms_source (hex40 ∷ p) = hex_source ++ atoms_source p

-- `spec.pattern.pattern`
unfoldable pub source : List Atom → Text
unfolding atoms_source
source p = b'^' ∷ atoms_source p

-- `s.replace(old, new)`, `skip` characters of an occurrence being still to be passed over
unfoldable pub replace_from : Text → Text → ℕ → Text → Text
replace_from old new skip [] = []
replace_from old new (suc skip) (c ∷ cs) = replace_from old new skip cs
replace_from old new zero (c ∷ cs) =
    let found = new ++ replace_from old new (length old - 1) cs in
    let other = c ∷ replace_from old new zero cs in
    if starts_with old (c ∷ cs) then found else other

unfoldable pub replace : Text → Text → Text → Text
unfolding replace_from
replace old new s = replace_from old new 0 s

abbrev strip_caret : Text → Text
strip_caret [] = []
strip_caret (c ∷ cs) = if c == b'^' then cs else c ∷ cs

unfoldable pub strip_dollar : Text → Text
strip_dollar [] = []
strip_dollar (c ∷ []) = if c == b'$' then [] else c ∷ []
strip_dollar (c ∷ d ∷ cs) = c ∷ strip_dollar (d ∷ cs)

unfoldable pub pattern_to_label : Text → Text
unfolding replace strip_dollar
pattern_to_label pattern = replace hex_source (text "{hash}") (
    replace digits_source (text "{id}")
      (replace (text "/?") (text "/") (strip_dollar (strip_caret pattern))))

unfoldable pub endpoint_label : EndpointSpec → Text
unfolding pattern_to_label source
endpoint_label spec = pattern_to_label (source spec.pattern)
