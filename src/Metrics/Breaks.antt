-- ===== src/Metrics/Breaks.antt =====
-- The lines of the text that `render` of app/metrics.py gives.
use eve_api_cache.Base.{
  ℕ, ◌≡◌, refl, ap, sym, ◌∙◌, ◌==◌, List, [], ◌∷◌, ◌++◌, All, if◌then◌else◌, Text, text,
}
use mathlib.Core.List.{append_assoc}
use eve_api_cache.Metrics.{Floats, Registry}
use eve_api_cache.Metrics.Exposition.{joined, lines, render}
use eve_api_cache.Metrics.Scrapes.{IsUnbroken}

abbrev ahead : ℕ → List Text → List Text
ahead c [] = (c ∷ []) ∷ []
ahead c (l ∷ ls) = (c ∷ l) ∷ ls

-- The lines of a text, each up to its line feed.
abbrev pub split_lines : Text → List Text
split_lines [] = []
split_lines (c ∷ cs) = let rest = split_lines cs in if c == b'\n' then [] ∷ rest else ahead c rest

split_lines-append :
    (line rest : Text)
    → IsUnbroken line
    → split_lines (line ++ b'\n' ∷ rest) ≡ line ∷ split_lines rest
split_lines-append [] rest h = refl
split_lines-append (c ∷ cs) rest h = rw (h.0, split_lines-append cs rest h.1) refl

split_lines-joined :
    (l : Text) (ls : List Text)
    → All IsUnbroken (l ∷ ls)
    → split_lines (joined (text "\n") (l ∷ ls) ++ text "\n") ≡ l ∷ ls
split_lines-joined l [] h = split_lines-append l [] h.0
split_lines-joined l (m ∷ ls) h =
    ap split_lines (append_assoc l _ (text "\n"))
    ∙ (split_lines-append l _ h.0 ∙ ap (λ ls. l ∷ ls) (split_lines-joined m ls h.1))

-- If the exposition has lines, and none of them has a line feed within, they are those of the text.
split_lines-render :
    (floats : Floats) (r : Registry floats.Float) (l : Text) (ls : List Text)
    → lines floats r ≡ l ∷ ls
    → All IsUnbroken (l ∷ ls)
    → split_lines (render floats r) ≡ lines floats r
unfolding render
split_lines-render floats r l ls e h =
    ap (λ ls. split_lines (joined (text "\n") ls ++ text "\n")) e
    ∙ (split_lines-joined l ls h ∙ sym e)
