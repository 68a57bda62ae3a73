-- ===== src/Routing/Tests.antt =====
-- The registry of unify_llm/registry.py on a small configuration.
use unify_llm.Prelude.{◌≡◌, refl, true, false, none, [], ◌∷◌, is_some}
use unify_llm.Prelude.Dict.{lookup, insert}
use unify_llm.Config.{AppConfig, ProviderConfig, openai, anthropic}
use unify_llm.Routing.{
  ResolvedRoute, registry, add_all, add_owned, resolve, resolve_alias, second_alias,
}
use unify_llm.Routing.Resolution.{targets, first_owned, endpoint, resolve-eq-first_owned}
use unify_llm.Routing.Routes.{IsRoute, resolve-IsRoute}

abbrev deepseek : ProviderConfig
deepseek = record {
  type = openai;
  base_url = "https://api.deepseek.com";
  api_key = "k";
  enabled = true;
  max_retries = none;
  models = "deepseek-chat" ∷ [];
}

abbrev config : AppConfig
config = record {
  defaults = record {
    max_retries = 2;
    fallback_model = none;
    raise_max_tokens_to_model_limit = false;
  };
  providers =
      ("off", record deepseek { enabled = false })
      ∷ ("deepseek", deepseek)
      ∷ ("claude", record deepseek { type = anthropic; models = "deepseek-chat" ∷ "opus" ∷ [] })
      ∷ [];
  aliases = ("fast", "quick") ∷ ("quick", "deepseek-chat") ∷ [];
  pricing = record { per_million_input = 1; per_million_output = 2; models = [] };
  model_limits = [];
}

abbrev chat_route : ResolvedRoute
chat_route = record {
  provider_id = "deepseek";
  provider = deepseek;
  model = "deepseek-chat";
  requested_model = "fast";
  is_alias = true;
  upstream_type = openai;
}

resolve-eq-first_owned_example :
    endpoint (resolve (registry config) "fast")
    ≡ first_owned config.providers (targets config "fast")
unfolding lookup
resolve-eq-first_owned_example = resolve-eq-first_owned config (refl, (refl, (refl, tt))) "fast"

resolve-IsRoute_example : IsRoute config "fast" (is_some (lookup "fast" config.aliases)) chat_route
unfolding lookup insert registry add_all add_owned resolve resolve_alias second_alias
resolve-IsRoute_example = resolve-IsRoute config (refl, (refl, (refl, tt))) "fast" chat_route refl
