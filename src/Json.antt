-- ===== src/Json.antt =====
-- JSON values as Python's `json` module gives them, and the module itself, which the program only
-- calls: `Codec` is its `loads`, its `dumps` and what the program relies on.
use eve_api_cache.Base.{ℕ, Bool, Option, List, [], ◌∷◌, Text, Bytes}

mutual
  -- A number without fraction is its sign (`true` below 0) and its size; any other is its text.
  pub data Value : Type 0 where
    null : Value
    bool : Bool → Value
    int : Bool → ℕ → Value
    float : Text → Value
    str : Text → Value
    list : Values → Value
    object : Members → Value

  pub data Values : Type 0 where
    nil : Values
    cons : Value → Values → Values

  pub data Members : Type 0 where
    end : Members
    member : Text → Value → Members → Members

-- The elements of a list as a list of the library.
unfoldable pub elements : Values → List Value
elements nil = []
elements (cons v vs) = v ∷ elements vs

unfoldable pub of_elements : List Value → Values
of_elements [] = nil
of_elements (v ∷ vs) = cons v (of_elements vs)

pub record Codec : Type 0 where
  -- `json.loads(body)`, `none` for a `ValueError`
  pub loads : Bytes → Option Value
  -- `json.dumps(value)`, with `sort_keys=True`, and with `separators=(",", ":")` too; each writes
  -- ASCII, so that `encode` keeps the codes
  pub dumps : Value → Text
  pub dumps_sorted : Value → Text
  pub dumps_compact : Value → Text
