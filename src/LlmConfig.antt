-- ===== src/LlmConfig.antt =====
-- Which model, key and address a session's calls of a language model get:
-- src/services/agent_loop/brain/config_loader.py. The session's context, the tenant's models and the
-- environment are dicts; decryption is an argument, of which `none` is an error. Conversions of
-- numbers and `extra_body` are left out.
pub mod Fallback
mod Tests
use package.text.Mathlib.Text.{◌==◌, starts_with}
use project_kernel_runtime.Base.{
  ℕ, Bool, true, false, not, Option, none, some, String, List, [], ◌∷◌, keep, if◌then◌else◌,
}
use project_kernel_runtime.Base.Dict.{Dict, lookup, insert}
use project_kernel_runtime.Values.{
  Value, Kwargs, text, flag, null, other, str, is_truthy, truthy_text,
}

pub record Preset : Type 0 where
  pub model : String
  pub base_url : Option String
  pub key_env : Option String

abbrev pub nvidia_url : Option String
nvidia_url = some "https://integrate.api.nvidia.com/v1"

abbrev pub preset_defaults : Dict Preset
preset_defaults =
    (
      "nvidia-glm",
      record { model = "z-ai/glm-5.1"; base_url = nvidia_url; key_env = some "NVIDIA_API_KEY" },
    )
    ∷ (
      "nvidia-minimax",
      record {
        model = "minimaxai/minimax-m2.7";
        base_url = nvidia_url;
        key_env = some "NVIDIA_API_KEY";
      },
    )
    ∷ (
      "nvidia-qwen-coder",
      record {
        model = "qwen/qwen3-coder-480b-a35b-instruct";
        base_url = nvidia_url;
        key_env = some "NVIDIA_API_KEY";
      },
    )
    ∷ ("openai", record { model = "gpt-4o"; base_url = none; key_env = some "OPENAI_API_KEY" })
    ∷ (
      "anthropic",
      record {
        model = "claude-sonnet-4-20250514";
        base_url = none;
        key_env = some "ANTHROPIC_API_KEY";
      },
    )
    ∷ (
      "gemini",
      record { model = "gemini/gemini-2.5-pro"; base_url = none; key_env = some "GEMINI_API_KEY" },
    )
    ∷ (
      "ollama",
      record {
        model = "ollama/llama3.3";
        base_url = some "http://localhost:11434";
        key_env = none;
      },
    )
    ∷ []

pub record LlmConfig : Type 0 where
  pub model : String
  pub api_key : String
  pub base_url : Option String
  pub temperature : Option Value
  pub top_p : Option Value
  pub max_tokens : Option Value

-- `a or b` on texts that may be missing.
abbrev pub or_else : Option String → Option String → Option String
or_else none b = b
or_else (some a) b = if a == "" then b else some a

abbrev pub text_or : String → Option String → String
text_or a none = a
text_or a (some s) = if s == "" then a else s

-- `_resolve_secret`
unfoldable pub resolve_secret : (String → Option String) → String → Option String
resolve_secret decrypt raw =
    if raw == "" then some "" else (if starts_with raw "gAAAA" then decrypt raw else some raw)

abbrev pub has_id : String → Option Value → Bool
has_id id none = false
has_id id (some (text t)) = t == id
has_id id (some (flag b)) = false
has_id id (some null) = false
has_id id (some (other s b)) = false

abbrev pub first : List Kwargs → Option Kwargs
first [] = none
first (b ∷ bs) = some b

abbrev pub first_or : Option Kwargs → Option Kwargs → Option Kwargs
first_or none b = b
first_or (some a) b = some a

-- The tenant's model that is taken: the one that was asked for, or else one that has a key; the first
-- where none was asked for.
unfoldable pub selected_config : Option String → List Kwargs → Option Kwargs
selected_config none configs = first configs
selected_config (some id) configs =
    first_or (first (keep (λ b. has_id id (lookup "id" b)) configs))
      (first (keep (λ b. is_truthy (lookup "api_key" b)) configs))

-- `ctx[key] = selected[key]`, where the value is not None.
abbrev pub overridden : String → Option Value → Kwargs → Kwargs
overridden key none ctx = ctx
overridden key (some null) ctx = ctx
overridden key (some v) ctx = insert key v ctx

unfoldable pub override_all : Kwargs → Kwargs → Kwargs
override_all b ctx =
    overridden "max_tokens" (lookup "max_tokens" b) (
      overridden "top_p" (lookup "top_p" b) (overridden "temperature" (lookup "temperature" b) ctx))

-- What the tenant's models or the presets say, before the fallbacks.
pub record Choice : Type 0 where
  pub api_key : String
  pub model : String
  pub base_url : Option String
  pub context : Kwargs

abbrev pub text_at : Option Value → String → String
text_at none default = default
text_at (some null) default = ""
text_at (some v) default = str v

abbrev pub not_none : Option Value → Option Value
not_none none = none
not_none (some null) = none
not_none (some v) = some v

abbrev pub preset_of : Option String → Option Preset
preset_of none = none
preset_of (some id) = lookup id preset_defaults

module _ (decrypt : String → Option String) (env : Dict String) where
  -- The default, and the preset that was asked for.
  abbrev pub from_preset : Option String → Option Preset → Choice → Choice
  from_preset requested none c = c
  from_preset requested (some p) c = record c {
    model = p.model;
    base_url = or_else p.base_url c.base_url;
    api_key = elim p.key_env [ none ↦ c.api_key | some key ↦ text_or "" (lookup key env) ];
  }

  abbrev pub from_selected : Kwargs → Choice → Option String → Option Choice
  from_selected b c none = none
  from_selected b c (some key) = some (record {
    api_key = key;
    model = text_at (lookup "model" b) "gpt-4o";
    base_url = or_else (truthy_text (lookup "base_url" b)) c.base_url;
    context = override_all b c.context;
  })

  unfoldable pub choose : Option Kwargs → Option String → Choice → Option Choice
  unfolding resolve_secret override_all
  choose none requested c = some (from_preset requested (preset_of requested) c)
  choose (some b) requested c =
      from_selected b c (resolve_secret decrypt (text_at (lookup "api_key" b) ""))

  unfoldable pub finish : Choice → LlmConfig × Kwargs
  finish c = (
    record {
      model = text_or "nvidia/nemotron-3-super-120b-a12b" (
          or_else (some c.model)
            (or_else (truthy_text (lookup "model" c.context)) (lookup "LLM_MODEL" env)));
      api_key = text_or "" (
          or_else (some c.api_key) (
            or_else (truthy_text (lookup "api_key" c.context)) (
              or_else (lookup "OPENAI_API_KEY" env)
                (or_else (lookup "NVIDIA_API_KEY" env) (lookup "ANTHROPIC_API_KEY" env)))));
      base_url = or_else c.base_url none;
      temperature = not_none (lookup "temperature" c.context);
      top_p = not_none (lookup "top_p" c.context);
      max_tokens = not_none (lookup "max_tokens" c.context);
    },
    c.context,
  )

  abbrev pub finished : Option Choice → Option (LlmConfig × Kwargs)
  finished none = none
  finished (some c) = some (finish c)

  -- The configuration, and the session's context, which it changes in place.
  unfoldable pub load_session_llm_config : List Kwargs → Kwargs → Option (LlmConfig × Kwargs)
  unfolding selected_config choose finish
  load_session_llm_config byom_configs ctx =
      let requested = truthy_text (lookup "active_model_id" ctx) in
      finished (
        choose (selected_config requested byom_configs) requested (record {
          api_key = "";
          model = "gpt-4o";
          base_url = or_else (truthy_text (lookup "base_url" ctx)) (lookup "LLM_BASE_URL" env);
          context = ctx;
        }))
