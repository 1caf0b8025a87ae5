-- ===== src/Routes/Bodies.antt =====
-- `_read_body_capped` of app/routes.py.
use eve_api_cache.Base.{
  ℕ, ◌+◌, ◌≤◌, ◌<◌, ◌≡◌, refl, sym, ap, ◌∙◌, Option, none, some, List, [], ◌∷◌, ◌++◌, ltb, leb,
  if◌then◌else◌, length, length-append, Bytes, arith, Bool-cases, inl, inr,
}
use mathlib.Core.List.{append_assoc, append-nil}
use eve_api_cache.Routes.{read_chunks, read_body_capped}

-- All the chunks.
abbrev pub concat : List Bytes → Bytes
concat [] = []
concat (chunk ∷ stream) = chunk ++ concat stream

-- The body if it is within the limit.
abbrev pub within : ℕ → Bytes → Option Bytes
within limit body = if leb (length body) limit then some body else none

within-small : (limit : ℕ) (body : Bytes) → length body ≤ limit → within limit body ≡ some body
within-small limit body h = ground arith

within-large :
    (limit : ℕ) (body more : Bytes) → limit < length body → within limit (body ++ more) ≡ none
within-large limit body more h = ground (arith, length-append body more)

read_chunks-concat :
    (limit total : ℕ) (chunks : Bytes) (stream : List Bytes)
    → total ≡ length chunks
    → total ≤ limit
    → read_chunks limit total chunks stream ≡ within limit (chunks ++ concat stream)
unfolding read_chunks
read_chunks-concat limit total chunks [] e h =
    sym (ap (within limit) (append-nil chunks) ∙ within-small limit chunks (omega (arith, e, h)))
read_chunks-concat limit total chunks (c ∷ stream) e h =
    let grown = length-append chunks c in
    elim (Bool-cases (ltb limit (total + length c))) [
      | inl over ↦ rw over (
          sym (
            ap (within limit) (sym (append_assoc chunks c (concat stream)))
            ∙ within-large limit (chunks ++ c) (concat stream) (ground (arith, over, e, grown))))
      | inr small ↦ rw small (
          read_chunks-concat limit (total + length c) (chunks ++ c) stream (omega (arith, e, grown))
            (ground (arith, small))
          ∙ ap (within limit) (append_assoc chunks c (concat stream)))
    ]

-- The body is read in full if it is within the limit, however it is cut into chunks, and is refused if
-- it is longer.
pub read_body_capped-concat :
    (limit : ℕ) (stream : List Bytes) → read_body_capped limit stream ≡ within limit (concat stream)
unfolding read_body_capped
read_body_capped-concat limit stream = read_chunks-concat limit 0 [] stream refl (omega arith)
