-- ===== src/Base/Dict.antt =====
-- Python's `dict` with text keys as an association list: iteration is in the order of insertion,
-- and an assignment to a present key keeps its place.
use mathlib.Core.Path.{◌≡◌, refl}
use mathlib.Core.List.{List, [], ◌∷◌}
use mathlib.Core.Bool.{Bool}
use mathlib.Core.Logic.{inl, inr}
use mathlib.Core.Option.{Option, none, some}
use native.Mathlib.Omega.{arith}
use eve_api_cache.Base.Tests.{if◌then◌else◌, Bool-cases}
use eve_api_cache.Base.Lists.{filter}
use eve_api_cache.Base.Texts.{Text, text_eq, text_eq_iff}

abbrev pub Dict {ℓ} : Type ℓ → Type ℓ
Dict V = List (Text × V)

module _ {ℓ} {V : Type ℓ} where
  -- `d.get(k)`
  unfoldable pub lookup : Text → Dict V → Option V
  lookup k [] = none
  lookup k ((j, v) ∷ d) = if text_eq j k then some v else lookup k d

  -- `d[k] = v`
  unfoldable pub insert : Text → V → Dict V → Dict V
  insert k v [] = (k, v) ∷ []
  insert k v ((j, w) ∷ d) = if text_eq j k then (j, v) ∷ d else (j, w) ∷ insert k v d

  -- `d.pop(k, None)`
  unfoldable pub remove : Text → Dict V → Dict V
  remove k [] = []
  remove k ((j, v) ∷ d) = let rest = remove k d in if text_eq j k then rest else (j, v) ∷ rest

  pub lookup-insert :
      (k j : Text) (v : V) (d : Dict V)
      → lookup j (insert k v d) ≡ (if text_eq k j then some v else lookup j d)
  unfolding lookup insert
  lookup-insert k j v [] = refl
  lookup-insert k j v ((i, w) ∷ d) =
      ground (arith, text_eq_iff k j, text_eq_iff i k, text_eq_iff i j, lookup-insert k j v d)

  pub lookup-remove :
      (k j : Text) (d : Dict V) → lookup j (remove k d) ≡ (if text_eq k j then none else lookup j d)
  unfolding lookup remove
  lookup-remove k j [] = ground arith
  lookup-remove k j ((i, w) ∷ d) =
      ground (arith, text_eq_iff k j, text_eq_iff i k, text_eq_iff i j, lookup-remove k j d)

  -- No key stands twice.
  abbrev pub IsDict : Dict V → Type ℓ
  IsDict [] = Unit
  IsDict ((k, v) ∷ d) = (lookup k d ≡ none) × IsDict d

  pub insert-IsDict : (k : Text) (v : V) (d : Dict V) → IsDict d → IsDict (insert k v d)
  unfolding insert lookup
  insert-IsDict k v [] h = (refl, tt)
  insert-IsDict k v ((j, w) ∷ d) h = elim (Bool-cases (text_eq j k)) [
    | inl same ↦ rw same h
    | inr other ↦ rw other (
      rw (lookup-insert k j v d) (ground (arith, text_eq_iff k j, text_eq_iff j k, h.0)),
      insert-IsDict k v d h.1,
    )
  ]

  lookup-filter-none :
      (p : V → Bool) (j : Text) (d : Dict V)
      → lookup j d ≡ none
      → lookup j (filter (λ e. p e.1) d) ≡ none
  unfolding lookup
  lookup-filter-none p j [] h = refl
  lookup-filter-none p j ((k, v) ∷ d) h = ground (arith, lookup-filter-none p j d)

  -- The entry of a key survives a filter exactly if its value passes.
  pub lookup-filter :
      (p : V → Bool) (j : Text) (d : Dict V)
      → IsDict d
      → lookup j (filter (λ e. p e.1) d)
        ≡ elim (lookup j d) [ none ↦ none | some v ↦ if p v then some v else none ]
  unfolding lookup
  lookup-filter p j [] h = refl
  lookup-filter p j ((k, v) ∷ d) h =
      ground (arith, lookup-filter p j d h.1, lookup-filter-none p j d, text_eq_iff k j, h.0)

  pub filter-IsDict : (p : V → Bool) (d : Dict V) → IsDict d → IsDict (filter (λ e. p e.1) d)
  unfolding lookup
  filter-IsDict p [] h = tt
  filter-IsDict p ((k, v) ∷ d) h = elim (Bool-cases (p v)) [
    | inl keep ↦ rw keep (lookup-filter-none p k d h.0, filter-IsDict p d h.1)
    | inr loses ↦ rw loses (filter-IsDict p d h.1)
  ]
