-- ===== src/Routing/Resolution.antt =====
-- `Registry.resolve` of unify_llm/registry.py against a description of the names that it tries.
use unify_llm.Prelude.{
  String, ◌≡◌, ◌∙◌, refl, sym, Bool, true, false, Option, none, some, List, [], ◌∷◌, Option-cases,
  inl, inr,
}
use unify_llm.Prelude.Dict.{Dict, lookup, IsDict}
use unify_llm.Config.{AppConfig, ProviderConfig}
use unify_llm.Routing.{ResolvedRoute, registry, route, second_alias, resolve_alias, resolve}
use unify_llm.Routing.Owners.{owner, owner_lem, by_model-eq-owner}

abbrev one_target : Option String → List String
one_target none = []
one_target (some t) = t ∷ []

-- The names that a request for `m` tries, in order: `m` itself, or what it is an alias of and then what
-- that is an alias of.
abbrev pub targets : AppConfig → String → List String
targets c m = elim (lookup m c.aliases) [
  | none ↦ m ∷ []
  | some t ↦ t ∷ one_target (lookup t c.aliases)
]

-- The first of the names that has an owner, with that owner.
abbrev pub first_owned : Dict ProviderConfig → List String → Option (String × String)
first_owned ps [] = none
first_owned ps (t ∷ ts) = elim (owner t ps) [ none ↦ first_owned ps ts | some pid ↦ some (pid, t) ]

-- The provider and the model of a route.
abbrev pub endpoint : Option ResolvedRoute → Option (String × String)
endpoint none = none
endpoint (some r) = some (r.provider_id, r.model)

module _ (c : AppConfig) (dict : IsDict c.providers) where
  endpoint-route :
      (raw target : String) (is_alias : Bool) (o : Option String)
      → o ≡ owner target c.providers
      → endpoint (route (registry c) raw is_alias target o) ≡ first_owned c.providers (target ∷ [])
  unfolding registry lookup
  endpoint-route raw target is_alias none e = rw (← e, first_owned)
  endpoint-route raw target is_alias (some pid) e =
      let (p, found, _) = owner_lem target pid c.providers dict (sym e) in
      rw (found, ← e, first_owned)

  found_route :
      (raw target : String) (is_alias : Bool)
      → endpoint (route (registry c) raw is_alias target (lookup target (registry c).by_model))
        ≡ first_owned c.providers (target ∷ [])
  found_route raw target is_alias =
      endpoint-route raw target is_alias (lookup target (registry c).by_model)
        (by_model-eq-owner c target)

  endpoint-second_alias :
      (raw target : String)
      → endpoint (second_alias (registry c) raw target)
        ≡ first_owned c.providers (one_target (lookup target c.aliases))
  unfolding second_alias registry
  endpoint-second_alias raw target = elim (Option-cases (lookup target c.aliases)) [
    | inl gone ↦ rw (gone, second_alias)
    | inr (t, alias) ↦ rw (alias, second_alias) (found_route raw t true)
  ]

  endpoint-resolve_alias :
      (raw target : String) (o : Option String)
      → o ≡ owner target c.providers
      → lookup target (registry c).by_model ≡ o
      → endpoint (resolve_alias (registry c) raw target)
        ≡ first_owned c.providers (target ∷ one_target (lookup target c.aliases))
  unfolding resolve_alias
  endpoint-resolve_alias raw target none e h =
      rw (h, ← e, resolve_alias, first_owned) (endpoint-second_alias raw target)
  endpoint-resolve_alias raw target (some pid) e h =
      rw (h, ← e, resolve_alias, first_owned)
        (endpoint-route raw target true (some pid) e ∙ rw (← e, first_owned))

  -- With distinct provider ids, a name resolves exactly to the first of its targets that an enabled
  -- provider lists, at the first such provider; when no target has one, the model is not found. A name
  -- that is no alias is its own target. An alias comes before a model of the same name: its targets are
  -- what it stands for and, if that is an alias too, what that one stands for.
  pub resolve-eq-first_owned :
      (m : String) → endpoint (resolve (registry c) m) ≡ first_owned c.providers (targets c m)
  unfolding resolve registry
  resolve-eq-first_owned m = elim (Option-cases (lookup m c.aliases)) [
    | inl plain ↦ rw (plain, resolve, targets) (found_route m m false)
    | inr (t, alias) ↦
        rw (alias, resolve, targets)
          (endpoint-resolve_alias m t (lookup t (registry c).by_model) (by_model-eq-owner c t) refl)
  ]
