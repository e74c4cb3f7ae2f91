-- ===== src/LlmConfig/Tests.antt =====
-- A session whose context and environment name a model.
use project_kernel_runtime.Base.{◌≡◌, refl, Option, some, String, [], ◌∷◌}
use project_kernel_runtime.Base.Dict.{Dict, lookup}
use project_kernel_runtime.Values.{Kwargs, text}
use project_kernel_runtime.LlmConfig.{load_session_llm_config}
use project_kernel_runtime.LlmConfig.Fallback.{model_of, key_of, load_session_llm_config_lem}

abbrev context : Kwargs
context = ("model", text "claude") ∷ []

abbrev environment : Dict String
environment = ("LLM_MODEL", "llama") ∷ ("NVIDIA_API_KEY", "nv") ∷ []

abbrev plain : String → Option String
plain s = some s

context_model_is_ignored :
    (model_of (load_session_llm_config plain environment [] context) ≡ some "gpt-4o")
    × (key_of (load_session_llm_config plain environment [] context) ≡ some "nv")
unfolding lookup
context_model_is_ignored = load_session_llm_config_lem plain environment context refl
