-- ===== src/ModelCatalog.antt =====
-- `user_model_catalog` of unify_llm/app.py: the models that a signed-in user may call, by their ids. The
-- list of a model's aliases, which is only shown, is left out of an item.
pub mod Callable
mod Tests
use unify_llm.Prelude.{
  String, Bool, true, false, ◌&&◌, Option, none, some, List, [], ◌∷◌, any_of, find_first,
  if◌then◌else◌,
}
use unify_llm.Prelude.Dict.{Dict, lookup, insert, contains}
use unify_llm.Prelude.Text.{str_eq}
use unify_llm.Config.{AppConfig, ProviderConfig, ProviderType, ModelLimit}

pub record Item : Type 0 where
  pub provider : String
  pub type : ProviderType
  pub alias_of : Option String
  pub limits : Option ModelLimit

-- The items in their order, each under its id; `seen` holds their ids.
abbrev pub Items : Type 0
Items = Dict Item

-- `_limits`
abbrev pub limits_of : AppConfig → String → Option ModelLimit
limits_of c mid = lookup mid c.model_limits

abbrev pub model_item : AppConfig → String → ProviderConfig → String → Item
model_item c pid p m = record {
  provider = pid;
  type = p.type;
  alias_of = none;
  limits = limits_of c m;
}

unfoldable pub add_models : AppConfig → String → ProviderConfig → List String → Items → Items
add_models c pid p [] items = items
add_models c pid p (m ∷ ms) items =
    add_models c pid p ms
      (if contains m items then items else insert m (model_item c pid p m) items)

unfoldable pub add_providers : AppConfig → Dict ProviderConfig → Items → Items
unfolding add_models
add_providers c [] items = items
add_providers c ((pid, p) ∷ ps) items =
    add_providers c ps (if p.enabled then add_models c pid p p.models items else items)

-- `p.enabled and resolved in p.models`
abbrev pub serves : String → String × ProviderConfig → Bool
serves m (pid, p) = p.enabled && any_of (λ x. str_eq x m) p.models

-- What an alias stands for: its target, or what that is an alias of
abbrev pub resolved : AppConfig → String → String
resolved c target = elim (lookup target c.aliases) [ none ↦ target | some t ↦ t ]

abbrev pub or_limits : Option ModelLimit → Option ModelLimit → Option ModelLimit
or_limits none b = b
or_limits (some a) b = some a

-- The item of an alias, if a provider serves what it stands for
unfoldable pub alias_item : AppConfig → String → String → Option Item
alias_item c a target =
    let r = resolved c target in
    elim (find_first (serves r) c.providers) [
      | none ↦ none
      | some e ↦ some (record {
        provider = e.0;
        type = e.1.type;
        alias_of = some r;
        limits = or_limits (limits_of c a) (limits_of c r);
      })
    ]

abbrev pub with_item : String → Option Item → Items → Items
with_item a none items = items
with_item a (some i) items = insert a i items

unfoldable pub add_aliases : AppConfig → Dict String → Items → Items
unfolding alias_item
add_aliases c [] items = items
add_aliases c ((a, target) ∷ l) items =
    add_aliases c l (if contains a items then items else with_item a (alias_item c a target) items)

-- `user_model_catalog`
unfoldable pub user_model_catalog : AppConfig → Items
unfolding add_providers add_aliases
user_model_catalog c = add_aliases c c.aliases (add_providers c c.providers [])
