-- ===== src/ModelCatalog/Tests.antt =====
-- The catalog of unify_llm/app.py on a small configuration.
use unify_llm.Prelude.{◌≡◌, refl, true, false, none, some, [], ◌∷◌}
use unify_llm.Prelude.Dict.{lookup, insert}
use unify_llm.Config.{AppConfig, ProviderConfig, openai, anthropic}
use unify_llm.Routing.{registry, resolve}
use unify_llm.Routing.Owners.{owner}
use unify_llm.Routing.Resolution.{endpoint}
use unify_llm.ModelCatalog.{user_model_catalog, add_models, add_providers, add_aliases, alias_item}
use unify_llm.ModelCatalog.Callable.{catalog_callable}

abbrev provider : ProviderConfig
provider = record {
  type = openai;
  base_url = "https://api.example.com";
  api_key = "k";
  enabled = true;
  max_retries = none;
  models = "chat" ∷ [];
}

abbrev config : AppConfig
config = record {
  defaults = record {
    max_retries = 2;
    fallback_model = none;
    raise_max_tokens_to_model_limit = false;
  };
  providers =
      ("off", record provider { enabled = false })
      ∷ ("main", provider)
      ∷ ("claude", record provider { type = anthropic; models = "chat" ∷ "opus" ∷ [] })
      ∷ [];
  aliases = ("fast", "quick") ∷ ("quick", "chat") ∷ ("gone", "nothing") ∷ [];
  pricing = record { per_million_input = 1; per_million_output = 2; models = [] };
  model_limits = [];
}

catalog_callable_example : endpoint (resolve (registry config) "fast") ≡ some ("main", "chat")
unfolding owner lookup insert user_model_catalog add_models add_providers add_aliases alias_item
catalog_callable_example =
    catalog_callable config "fast" (refl, (refl, (refl, tt))) (refl, (refl, (refl, tt)))
      (refl, (refl, (refl, tt)))
