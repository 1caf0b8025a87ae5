-- ===== src/Archive/Batches.antt =====
-- `_chunks` of app/archive.py. The recursion is on the number of rows, which suffices since each
-- batch takes one row at least.
use eve_api_cache.Base.{
  ℕ, zero, suc, ◌≤◌, ◌<◌, ◌≡◌, refl, ap, ◌∙◌, List, [], ◌∷◌, ◌++◌, length, take, drop, All, arith,
}

module _ {A : Type 0} where
  unfoldable pub chunks_from : ℕ → ℕ → List A → List (List A)
  chunks_from zero size rows = []
  chunks_from (suc left) size [] = []
  chunks_from (suc left) size (row ∷ rows) =
      take size (row ∷ rows) ∷ chunks_from left size (drop size (row ∷ rows))

  -- `_chunks`
  unfoldable pub chunks : List A → ℕ → List (List A)
  chunks rows size = chunks_from (length rows) size rows

  abbrev pub flatten : List (List A) → List A
  flatten [] = []
  flatten (batch ∷ batches) = batch ++ flatten batches

  take-drop : (n : ℕ) (rows : List A) → take n rows ++ drop n rows ≡ rows
  take-drop zero rows = refl
  take-drop (suc n) [] = refl
  take-drop (suc n) (row ∷ rows) = ap (λ rest. row ∷ rest) (take-drop n rows)

  length-take-le : (n : ℕ) (rows : List A) → length (take n rows) ≤ n
  length-take-le zero rows = omega arith
  length-take-le (suc n) [] = omega arith
  length-take-le (suc n) (row ∷ rows) = omega (arith, length-take-le n rows)

  length-drop-le : (n : ℕ) (rows : List A) → length (drop n rows) ≤ length rows
  length-drop-le zero rows = omega arith
  length-drop-le (suc n) [] = omega arith
  length-drop-le (suc n) (row ∷ rows) = omega (arith, length-drop-le n rows)

  -- A batch holds one row at least and `size` rows at most.
  abbrev pub IsBatch : ℕ → List A → Type 0
  IsBatch size batch = (0 < length batch) × (length batch ≤ size)

  chunks_from-flatten :
      (left size : ℕ) (rows : List A)
      → length rows ≤ left
      → (flatten (chunks_from left (suc size) rows) ≡ rows)
        × All (IsBatch (suc size)) (chunks_from left (suc size) rows)
  unfolding chunks_from
  chunks_from-flatten zero size [] h = (refl, tt)
  chunks_from-flatten zero size (row ∷ rows) h = absurd (omega (arith, h))
  chunks_from-flatten (suc left) size [] h = (refl, tt)
  chunks_from-flatten (suc left) size (row ∷ rows) h =
      let (same, batches) =
        chunks_from-flatten left size (drop size rows)
          (omega (arith, length-drop-le size rows, h)) in
      (
        ap (λ rest. row ∷ (take size rows ++ rest)) same
            ∙ ap (λ rest. row ∷ rest) (take-drop size rows),
        ((omega arith, omega (arith, length-take-le size rows)), batches),
      )

  -- With a positive size the batches are the rows in their order, none is empty, and none holds more
  -- than `size` rows.
  pub chunks-flatten :
      (rows : List A) (size : ℕ)
      → (flatten (chunks rows (suc size)) ≡ rows)
        × All (IsBatch (suc size)) (chunks rows (suc size))
  unfolding chunks
  chunks-flatten rows size = chunks_from-flatten (length rows) size rows (omega arith)
