-- ===== src/ModelCatalog/Callable.antt =====
-- What `user_model_catalog` (unify_llm/app.py) lists, `Registry.resolve` (unify_llm/registry.py) finds.
use mathlib.Core.Path.{subst}
use unify_llm.Prelude.{
  All, String, ◌≡◌, refl, ap, sym, ◌∙◌, Option, none, some, List, [], ◌∷◌, any_of, find_first,
  if◌then◌else◌, Option-cases, Bool-cases, inl, inr, arith,
}
use unify_llm.Prelude.Dict.{Dict, lookup, insert, contains, lookup-insert, IsDict}
use unify_llm.Prelude.Text.{str_eq, eq_iff}
use unify_llm.Config.{AppConfig, ProviderConfig}
use unify_llm.Routing.{registry, resolve}
use unify_llm.Routing.Owners.{owner}
use unify_llm.Routing.Resolution.{targets, first_owned, endpoint, resolve-eq-first_owned}
use unify_llm.ModelCatalog.{
  Item, Items, model_item, add_models, add_providers, serves, alias_item, with_item, add_aliases,
  user_model_catalog,
}

abbrev or_item : Option Item → Option Item → Option Item
or_item none o = o
or_item (some x) o = some x

-- The provider and the model that an item names
abbrev pub named : String → Item → String × String
named m i = (i.provider, elim i.alias_of [ none ↦ m | some r ↦ r ])

lookup-add_models :
    (c : AppConfig) (m pid : String) (p : ProviderConfig) (ms : List String) (d : Items)
    → lookup m (add_models c pid p ms d)
      ≡ or_item
          (lookup m d)
          (if any_of (λ x. str_eq x m) ms then some (model_item c pid p m) else none)
unfolding add_models
lookup-add_models c m pid p [] d = ground arith
lookup-add_models c m pid p (x ∷ ms) d = ground (
  arith,
  lookup-add_models c m pid p ms (if contains x d then d else insert x (model_item c pid p x) d),
  lookup-insert x m (model_item c pid p x) d,
  eq_iff x m,
)

-- The item that the providers give a name
abbrev provider_item : AppConfig → String → Dict ProviderConfig → Option Item
provider_item c m ps = elim (find_first (serves m) ps) [
  | none ↦ none
  | some e ↦ some (model_item c e.0 e.1 m)
]

lookup-add_providers :
    (c : AppConfig) (m : String) (ps : Dict ProviderConfig) (d : Items)
    → lookup m (add_providers c ps d) ≡ or_item (lookup m d) (provider_item c m ps)
unfolding add_providers
lookup-add_providers c m [] d = ground arith
lookup-add_providers c m ((pid, p) ∷ ps) d = ground (
  arith,
  lookup-add_providers c m ps (if p.enabled then add_models c pid p p.models d else d),
  lookup-add_models c m pid p p.models d,
)

-- The item that the aliases give a name
abbrev named_item : AppConfig → String → Option String → Option Item
named_item c m none = none
named_item c m (some t) = alias_item c m t

lookup-with_item :
    (a m : String) (o : Option Item) (d : Items)
    → lookup m (with_item a o d)
      ≡ elim o [ none ↦ lookup m d | some i ↦ if str_eq a m then some i else lookup m d ]
lookup-with_item a m none d = refl
lookup-with_item a m (some i) d = lookup-insert a m i d

lookup-add_aliases :
    (c : AppConfig) (m : String) (l : Dict String) (d : Items)
    → IsDict l
    → lookup m (add_aliases c l d) ≡ or_item (lookup m d) (named_item c m (lookup m l))
unfolding add_aliases lookup
lookup-add_aliases c m [] d h = ground arith
lookup-add_aliases c m ((a, t) ∷ l) d h = ground (
  arith,
  h.0,
  lookup-add_aliases c m l (if contains a d then d else with_item a (alias_item c a t) d) h.1,
  lookup-with_item a m (alias_item c a t) d,
  eq_iff a m,
)

owner-find_first :
    (m : String) (ps : Dict ProviderConfig)
    → owner m ps ≡ elim (find_first (serves m) ps) [ none ↦ none | some e ↦ some e.0 ]
unfolding owner
owner-find_first m [] = refl
owner-find_first m ((pid, p) ∷ ps) = ground (arith, owner-find_first m ps)

-- No enabled provider lists a model that is named like an alias.
abbrev pub Unshadowed : AppConfig → Type 0
Unshadowed c = All (λ e. owner e.0 c.providers ≡ none) c.aliases

unshadowed_at :
    (ps : Dict ProviderConfig) (l : Dict String) (a t : String)
    → All (λ e. owner e.0 ps ≡ none) l
    → lookup a l ≡ some t
    → owner a ps ≡ none
unfolding lookup
unshadowed_at ps [] a t h e = cc
unshadowed_at ps ((b, u) ∷ l) a t h e = elim (Bool-cases (str_eq b a)) [
  | inl same ↦ subst (λ x. owner x ps ≡ none) (ground (arith, same, eq_iff b a)) h.0
  | inr other ↦ unshadowed_at ps l a t h.1 (rw (other, lookup) at e)
]

abbrev pub named_endpoint : String → Option Item → Option (String × String)
named_endpoint m none = none
named_endpoint m (some i) = some (named m i)

lookup-user_model_catalog :
    (c : AppConfig) (m : String)
    → IsDict c.aliases
    → lookup m (user_model_catalog c)
      ≡ or_item (provider_item c m c.providers) (named_item c m (lookup m c.aliases))
unfolding user_model_catalog lookup
lookup-user_model_catalog c m h =
    lookup-add_aliases c m c.aliases (add_providers c c.providers []) h
    ∙ ap (λ o. or_item o (named_item c m (lookup m c.aliases)))
        (lookup-add_providers c m c.providers [])

plain_name :
    (c : AppConfig) (m : String)
    → lookup m c.aliases ≡ none
    → first_owned c.providers (targets c m)
      ≡ named_endpoint m
          (or_item (provider_item c m c.providers) (named_item c m (lookup m c.aliases)))
plain_name c m e = ground (arith, e, owner-find_first m c.providers)

alias_name :
    (c : AppConfig) (m t : String)
    → Unshadowed c
    → lookup m c.aliases ≡ some t
    → first_owned c.providers (targets c m)
      ≡ named_endpoint m
          (or_item (provider_item c m c.providers) (named_item c m (lookup m c.aliases)))
unfolding alias_item
alias_name c m t unshadowed e =
    let free = unshadowed_at c.providers c.aliases in
    elim (Option-cases (lookup t c.aliases)) [
      | inl last ↦ ground (
        arith,
        e,
        last,
        free m t unshadowed e,
        owner-find_first m c.providers,
        owner-find_first t c.providers,
      )
      | inr (u, more) ↦ ground (
        arith,
        e,
        more,
        free m t unshadowed e,
        free t u unshadowed more,
        owner-find_first m c.providers,
        owner-find_first t c.providers,
        owner-find_first u c.providers,
      )
    ]

-- With distinct provider ids and aliases, and no alias that has the name of a served model: the catalog
-- lists exactly the names that resolve, each with the provider and the model that a request for it goes
-- to.
pub catalog_callable :
    (c : AppConfig) (m : String)
    → IsDict c.providers
    → IsDict c.aliases
    → Unshadowed c
    → endpoint (resolve (registry c) m) ≡ named_endpoint m (lookup m (user_model_catalog c))
catalog_callable c m ids names free =
    resolve-eq-first_owned c ids m
    ∙ (elim (Option-cases (lookup m c.aliases)) [
      | inl e ↦ plain_name c m e
      | inr (t, e) ↦ alias_name c m t free e
    ])
    ∙ ap (named_endpoint m) (sym (lookup-user_model_catalog c m names))
