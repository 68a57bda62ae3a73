-- ===== src/Config.antt =====
-- The parts of unify_llm/config.py that the routes, the limits and the prices are read from.
use unify_llm.Prelude.{ℕ, String, Bool, Option, none, some, List, [], ◌∷◌, ltb, if◌then◌else◌}
use unify_llm.Prelude.Dict.{Dict, lookup, insert, contains}
use unify_llm.Prelude.Text.{is_empty}

pub data ProviderType : Type 0 where
  openai anthropic : ProviderType

pub record ProviderConfig : Type 0 where
  pub type : ProviderType
  pub base_url : String
  pub api_key : String
  pub enabled : Bool
  pub max_retries : Option ℕ
  pub models : List String

-- Rates are in a unit of currency for each million tokens.
pub record ModelPricing : Type 0 where
  pub input : ℕ
  pub output : ℕ

pub record PricingConfig : Type 0 where
  pub per_million_input : ℕ
  pub per_million_output : ℕ
  pub models : Dict ModelPricing

-- `max_output_tokens` of a ModelLimit: none, or positive
pub record ModelLimit : Type 0 where
  pub max_output_tokens : Option ℕ
  pub max_context_tokens : Option ℕ

pub record DefaultsConfig : Type 0 where
  pub max_retries : ℕ
  pub fallback_model : Option String
  pub raise_max_tokens_to_model_limit : Bool

pub record AppConfig : Type 0 where
  pub defaults : DefaultsConfig
  pub providers : Dict ProviderConfig
  pub aliases : Dict String
  pub pricing : PricingConfig
  pub model_limits : Dict ModelLimit

-- `PricingConfig.rate_for`
unfoldable pub rate_for : List String → PricingConfig → ℕ × ℕ
rate_for [] p = (p.per_million_input, p.per_million_output)
rate_for (mid ∷ ids) p =
    let rest = rate_for ids p in
    if is_empty mid
    then rest
    else elim (lookup mid p.models) [ none ↦ rest | some ov ↦ (ov.input, ov.output) ]

-- A limit of 0 counts as none.
abbrev pub usable_limit : Option ModelLimit → Option ℕ
usable_limit none = none
usable_limit (some lim) = elim lim.max_output_tokens [
  | none ↦ none
  | some n ↦ if ltb 0 n then some n else none
]

-- `AppConfig.resolve_max_output_tokens`
unfoldable pub resolve_max_output_tokens : List String → AppConfig → Option ℕ
resolve_max_output_tokens [] c = none
resolve_max_output_tokens (mid ∷ ids) c =
    let rest = resolve_max_output_tokens ids c in
    if is_empty mid
    then rest
    else elim (usable_limit (lookup mid c.model_limits)) [ none ↦ rest | some n ↦ some n ]

-- An item of the model list: a provider's model, or an alias and its target.
pub data Owner : Type 0 where
  provider : String → Owner
  alias : String → Owner

abbrev pub Catalog : Type 0
Catalog = Dict Owner

-- `if m not in items: items[m] = …`
unfoldable pub add_item : String → Owner → Catalog → Catalog
add_item m owner items = if contains m items then items else insert m owner items

unfoldable pub add_models : String → List String → Catalog → Catalog
unfolding add_item
add_models pid [] items = items
add_models pid (m ∷ ms) items = add_models pid ms (add_item m (provider pid) items)

unfoldable pub add_providers : Dict ProviderConfig → Catalog → Catalog
unfolding add_models
add_providers [] items = items
add_providers ((pid, p) ∷ ps) items =
    add_providers ps (if p.enabled then add_models pid p.models items else items)

unfoldable pub add_aliases : Dict String → Catalog → Catalog
unfolding add_item
add_aliases [] items = items
add_aliases ((a, target) ∷ l) items = add_aliases l (add_item a (alias target) items)

-- `AppConfig.model_catalog`
unfoldable pub model_catalog : AppConfig → Catalog
unfolding add_providers add_aliases
model_catalog c = add_aliases c.aliases (add_providers c.providers [])
