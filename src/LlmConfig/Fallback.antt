-- ===== src/LlmConfig/Fallback.antt =====
-- What a session without a tenant's model gets: src/services/agent_loop/brain/config_loader.py.
use project_kernel_runtime.Base.{◌≡◌, refl, ap, Option, none, some, String, []}
use project_kernel_runtime.Base.Dict.{Dict, lookup}
use project_kernel_runtime.Values.{Kwargs, truthy_text}
use project_kernel_runtime.LlmConfig.{
  LlmConfig, Choice, from_preset, finished, or_else, text_or, load_session_llm_config,
  selected_config, choose, finish, preset_of,
}

abbrev pub model_of : Option (LlmConfig × Kwargs) → Option String
model_of none = none
model_of (some (c, ctx)) = some c.model

abbrev pub key_of : Option (LlmConfig × Kwargs) → Option String
key_of none = none
key_of (some (c, ctx)) = some c.api_key

module _ (decrypt : String → Option String) (env : Dict String) where
  -- Without a tenant's models and a preset, nothing is chosen.
  choose-nothing :
      (requested : Option String) (c : Choice)
      → preset_of requested ≡ none
      → choose decrypt env (selected_config requested []) requested c ≡ some c
  unfolding selected_config choose
  choose-nothing none c h = refl
  choose-nothing (some id) c h = ap (λ p. some (from_preset decrypt env (some id) p c)) h

  -- A tenant without models of its own, whose session asks for no preset: whatever the session's
  -- context and the environment name as the model, it is gpt-4o; and the key is the context's, or else
  -- the first that the environment has of OpenAI's, NVIDIA's and Anthropic's.
  pub load_session_llm_config_lem :
      (ctx : Kwargs)
      → preset_of (truthy_text (lookup "active_model_id" ctx)) ≡ none
      → (model_of (load_session_llm_config decrypt env [] ctx) ≡ some "gpt-4o")
        × (key_of (load_session_llm_config decrypt env [] ctx)
            ≡ some (
                text_or "" (
                  or_else (truthy_text (lookup "api_key" ctx)) (
                    or_else
                      (lookup "OPENAI_API_KEY" env)
                      (or_else (lookup "NVIDIA_API_KEY" env) (lookup "ANTHROPIC_API_KEY" env))))))
  unfolding load_session_llm_config finish
  load_session_llm_config_lem ctx h =
      let requested = truthy_text (lookup "active_model_id" ctx) in
      let c : Choice = record {
        api_key = "";
        model = "gpt-4o";
        base_url = or_else (truthy_text (lookup "base_url" ctx)) (lookup "LLM_BASE_URL" env);
        context = ctx;
      } in
      let same = choose-nothing requested c h in
      (
        ap (λ o. model_of (finished decrypt env o)) same,
        ap (λ o. key_of (finished decrypt env o)) same,
      )
