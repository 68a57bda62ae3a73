-- ===== src/Routing/Owners.antt =====
-- The table of unify_llm/registry.py against a plain description: the first enabled provider that
-- lists the model.
use unify_llm.Prelude.{
  String, ◌≡◌, Bool, true, ◌&&◌, Option, none, some, List, [], ◌∷◌, arith, any_of, if◌then◌else◌,
  Bool-cases, inl, inr,
}
use unify_llm.Prelude.Dict.{Dict, lookup, insert, contains, lookup-insert, IsDict}
use unify_llm.Prelude.Text.{str_eq, eq_iff}
use unify_llm.Config.{AppConfig, ProviderConfig}
use unify_llm.Routing.{add_owned, add_all, registry}

abbrev pub lists : String → ProviderConfig → Bool
lists m p = p.enabled && any_of (λ x. str_eq x m) p.models

-- The first provider, in the order of the configuration, that is enabled and lists the model.
unfoldable pub owner : String → Dict ProviderConfig → Option String
owner m [] = none
owner m ((pid, p) ∷ ps) = if lists m p then some pid else owner m ps

abbrev or_else : Option String → Option String → Option String
or_else none o = o
or_else (some x) o = some x

lookup-add_owned :
    (m pid : String) (ms : List String) (d : Dict String)
    → lookup m (add_owned pid ms d)
      ≡ or_else (lookup m d) (if any_of (λ x. str_eq x m) ms then some pid else none)
unfolding add_owned
lookup-add_owned m pid [] d = ground arith
lookup-add_owned m pid (x ∷ ms) d = ground (
  arith,
  lookup-add_owned m pid ms (if contains x d then d else insert x pid d),
  lookup-insert x m pid d,
  eq_iff x m,
)

lookup-add_all :
    (m : String) (ps : Dict ProviderConfig) (d : Dict String)
    → lookup m (add_all ps d) ≡ or_else (lookup m d) (owner m ps)
unfolding add_all owner
lookup-add_all m [] d = ground arith
lookup-add_all m ((pid, p) ∷ ps) d = ground (
  arith,
  lookup-add_all m ps (if p.enabled then add_owned pid p.models d else d),
  lookup-add_owned m pid p.models d,
)

-- The registry's table gives each model to the first enabled provider that lists it, and holds no other.
pub by_model-eq-owner :
    (c : AppConfig) (m : String) → lookup m (registry c).by_model ≡ owner m c.providers
unfolding registry lookup
by_model-eq-owner c m = lookup-add_all m c.providers []

-- The owner is a provider of the configuration, is enabled and lists the model.
pub owner_lem :
    (m pid : String) (ps : Dict ProviderConfig)
    → IsDict ps
    → owner m ps ≡ some pid
    → (p : ProviderConfig) × (lookup pid ps ≡ some p) × (lists m p ≡ true)
unfolding owner lookup
owner_lem m pid [] h e = cc
owner_lem m pid ((k, p) ∷ ps) h e = elim (Bool-cases (lists m p)) [
  | inl listed ↦ (p, ground (arith, eq_iff k pid), listed)
  | inr other ↦
      (let (q, found, listed) = owner_lem m pid ps h.1 (rw (other, owner) at e) in
        (q, ground (arith, eq_iff k pid), listed))
]
