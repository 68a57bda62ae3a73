-- ===== src/Json.antt =====
-- The JSON values that the converters of unify_llm/convert.py pass on, and what is asked of the JSON
-- library there.
use unify_llm.Prelude.{String, Bool, true, false, not, Option, none, some, if◌then◌else◌, ◌≡◌}
use unify_llm.Prelude.Int.{ℤ, pos, eqb_ℤ}
use unify_llm.Prelude.Text.{is_empty}

mutual
  -- A value; `decimal` is a number that is not whole, by its text.
  pub data Json : Type 0 where
    null : Json
    boolean : Bool → Json
    number : ℤ → Json
    decimal : String → Json
    text : String → Json
    array : Items → Json
    object : Fields → Json

  pub data Items : Type 0 where
    nil : Items
    cons : Json → Items → Items

  pub data Fields : Type 0 where
    end : Fields
    field : String → Json → Fields → Fields

-- What `if v` asks
abbrev pub is_truthy : Json → Bool
is_truthy null = false
is_truthy (boolean b) = b
is_truthy (number n) = not (eqb_ℤ n (pos 0))
is_truthy (decimal d) = true
is_truthy (text t) = not (is_empty t)
is_truthy (array nil) = false
is_truthy (array (cons v vs)) = true
is_truthy (object end) = false
is_truthy (object (field k v fs)) = true

-- `v or w`
abbrev pub or_else : Json → Json → Json
or_else v w = if is_truthy v then v else w

-- Python's `json` module: `dumps` with `ensure_ascii=False`, and `loads`, none where it raises.
pub record Codec : Type 0 where
  pub dumps : Json → String
  pub loads : String → Option Json

-- The value is dumped to a text that is not empty and that loads as the same value.
abbrev pub Survives : Codec → Json → Type 0
Survives c v = (c.loads (c.dumps v) ≡ some v) × (is_empty (c.dumps v) ≡ false)

-- `_parse_json_arg`
unfoldable pub parse_json_arg : Codec → Json → Json
parse_json_arg c (array vs) = array vs
parse_json_arg c (object fs) = object fs
parse_json_arg c null = object end
parse_json_arg c (text t) =
    if is_empty t
    then object end
    else elim (c.loads t) [ none ↦ object (field "_raw" (text t) end) | some v ↦ v ]
parse_json_arg c v = v
