-- ===== src/Routing.antt =====
-- unify_llm/registry.py: which provider serves a model name or an alias.
pub mod Owners
pub mod Resolution
pub mod Routes
mod Tests
use unify_llm.Prelude.{
  String, Bool, true, false, Option, none, some, List, [], ◌∷◌, if◌then◌else◌, is_some,
}
use unify_llm.Prelude.Dict.{Dict, lookup, insert, contains}
use unify_llm.Config.{AppConfig, ProviderConfig, ProviderType}

pub record ResolvedRoute : Type 0 where
  pub provider_id : String
  pub provider : ProviderConfig
  pub model : String
  pub requested_model : String
  pub is_alias : Bool
  pub upstream_type : ProviderType

-- `self._by_model[m] = pid` for the models of one provider; the first provider wins
pub add_owned : String → List String → Dict String → Dict String
add_owned pid [] by_model = by_model
add_owned pid (m ∷ ms) by_model =
    add_owned pid ms (if contains m by_model then by_model else insert m pid by_model)

pub add_all : Dict ProviderConfig → Dict String → Dict String
unfolding add_owned
add_all [] by_model = by_model
add_all ((pid, p) ∷ ps) by_model =
    add_all ps (if p.enabled then add_owned pid p.models by_model else by_model)

pub record Registry : Type 0 where
  pub config : AppConfig
  pub by_model : Dict String

-- `Registry.__init__`
pub registry : AppConfig → Registry
unfolding add_all
registry c = record { config = c; by_model = add_all c.providers [] }

-- The end of `resolve`: the provider of the id that was found
abbrev route : Registry → String → Bool → String → Option String → Option ResolvedRoute
route r raw is_alias target none = none
route r raw is_alias target (some pid) = elim (lookup pid r.config.providers) [
  | none ↦ none
  | some p ↦ some (record {
    provider_id = pid;
    provider = p;
    model = target;
    requested_model = raw;
    is_alias = is_alias;
    upstream_type = p.type;
  })
]

-- An alias may point at another alias, once.
second_alias : Registry → String → String → Option ResolvedRoute
second_alias r raw target = elim (lookup target r.config.aliases) [
  | none ↦ none
  | some target2 ↦ route r raw true target2 (lookup target2 r.by_model)
]

resolve_alias : Registry → String → String → Option ResolvedRoute
unfolding second_alias
resolve_alias r raw target = elim (lookup target r.by_model) [
  | none ↦ second_alias r raw target
  | some pid ↦ route r raw true target (some pid)
]

-- `Registry.resolve`; none for ModelNotFoundError
pub resolve : Registry → String → Option ResolvedRoute
unfolding resolve_alias
resolve r model = elim (lookup model r.config.aliases) [
  | none ↦ route r model false model (lookup model r.by_model)
  | some target ↦ resolve_alias r model target
]
