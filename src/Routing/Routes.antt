-- ===== src/Routing/Routes.antt =====
-- What a route of unify_llm/registry.py says of the configuration.
use unify_llm.Prelude.{
  String, ◌≡◌, refl, sym, Bool, true, false, Option, none, some, arith, Option-cases, inl, inr,
  is_some,
}
use unify_llm.Prelude.Dict.{lookup, IsDict}
use unify_llm.Config.{AppConfig}
use unify_llm.Routing.{ResolvedRoute, registry, route, second_alias, resolve_alias, resolve}
use unify_llm.Routing.Owners.{owner, owner_lem, lists, by_model-eq-owner}

-- The route's provider is the configuration's under its id, is enabled and lists the route's model.
abbrev pub IsRoute : AppConfig → String → Bool → ResolvedRoute → Type 0
IsRoute c raw is_alias r =
    (lookup r.provider_id c.providers ≡ some r.provider)
    × (lists r.model r.provider ≡ true)
    × (r.requested_model ≡ raw)
    × (r.is_alias ≡ is_alias)
    × (r.upstream_type ≡ r.provider.type)

module _ (c : AppConfig) (dict : IsDict c.providers) where
  owned-IsRoute :
      (raw target : String) (is_alias : Bool) (pid : String) (r : ResolvedRoute)
      → owner target c.providers ≡ some pid
      → route (registry c) raw is_alias target (some pid) ≡ some r
      → IsRoute c raw is_alias r
  unfolding registry
  owned-IsRoute raw target is_alias pid r own e =
      let (p, found, listed) = owner_lem target pid c.providers dict own in ground (arith)

  route-IsRoute :
      (raw target : String) (is_alias : Bool) (o : Option String) (r : ResolvedRoute)
      → o ≡ owner target c.providers
      → route (registry c) raw is_alias target o ≡ some r
      → IsRoute c raw is_alias r
  route-IsRoute raw target is_alias none r own e = cc
  route-IsRoute raw target is_alias (some pid) r own e =
      owned-IsRoute raw target is_alias pid r (sym own) e

  second_alias-IsRoute :
      (raw target : String) (r : ResolvedRoute)
      → second_alias (registry c) raw target ≡ some r
      → IsRoute c raw true r
  unfolding second_alias registry
  second_alias-IsRoute raw target r e = elim (Option-cases (lookup target c.aliases)) [
    | inl gone ↦ cc (rw (gone, second_alias) at e)
    | inr (t, alias) ↦
        route-IsRoute raw t true (lookup t (registry c).by_model) r (by_model-eq-owner c t)
          (rw (alias, second_alias) at e)
  ]

  resolve_alias-IsRoute :
      (raw target : String) (o : Option String) (r : ResolvedRoute)
      → o ≡ owner target c.providers
      → lookup target (registry c).by_model ≡ o
      → resolve_alias (registry c) raw target ≡ some r
      → IsRoute c raw true r
  unfolding resolve_alias
  resolve_alias-IsRoute raw target none r own h e =
      second_alias-IsRoute raw target r (rw (h, resolve_alias) at e)
  resolve_alias-IsRoute raw target (some pid) r own h e =
      owned-IsRoute raw target true pid r (sym own) (rw (h, resolve_alias) at e)

  -- With distinct provider ids, a route that `resolve` finds goes to an enabled provider of the configuration that lists the
  -- model sent upstream; it keeps the name that the client asked for, and says whether that is an alias.
  pub resolve-IsRoute :
      (m : String) (r : ResolvedRoute)
      → resolve (registry c) m ≡ some r
      → IsRoute c m (is_some (lookup m c.aliases)) r
  unfolding resolve registry
  resolve-IsRoute m r e = elim (Option-cases (lookup m c.aliases)) [
    | inl plain ↦ rw plain (
        route-IsRoute m m false (lookup m (registry c).by_model) r (by_model-eq-owner c m)
          (rw (plain, resolve) at e))
    | inr (t, alias) ↦ rw alias (
        resolve_alias-IsRoute m t (lookup t (registry c).by_model) r (by_model-eq-owner c t) refl
          (rw (alias, resolve) at e))
  ]
