-- ===== src/Api/Config/Tests.antt =====
-- Secrets of one session, under a Fernet that marks its tokens.
use text.Mathlib.Text.{◌==◌}
use text.Mathlib.TextEquality.{eq_iff}
use project_kernel_runtime.Base.{◌≡◌, refl, none, some, String, Option, Bool-cases, inl, inr, false}
use project_kernel_runtime.Base.Texts.{char_count}
use project_kernel_runtime.Paths.{take_chars, drop_chars}
use project_kernel_runtime.Crypto.{Fernet, FernetLaws}
use project_kernel_runtime.Api.Config.{
  ConfigContext, SessionConfigRequest, mask_secret, get_session_config, update_session_config,
  get_session_config-update_session_config,
}

abbrev unmarked : String → Option String
unmarked String.[] = none
unmarked (String.◌∷◌ c s) = some s

abbrev marked : Fernet
marked = record { encrypt = λ s. String.◌∷◌ "g" s; decrypt = unmarked }

marked_nonempty : (s : String) → (marked.encrypt s == "") ≡ false
marked_nonempty s = elim (Bool-cases (marked.encrypt s == "")) [
  | inl none_left ↦ cc ((eq_iff (marked.encrypt s) "").0 none_left)
  | inr some_left ↦ some_left
]

marked-FernetLaws : FernetLaws marked
marked-FernetLaws = record {
  decrypt-encrypt = λ s. refl;
  encrypt_nonempty = λ s. marked_nonempty s;
}

abbrev empty : ConfigContext
empty = record {
  model = some "gpt-4o";
  base_url = none;
  api_key = none;
  github_access = some "gold";
  github_token = none;
  extra_body = none;
}

abbrev patch : SessionConfigRequest
patch = record {
  model = none;
  api_key = some "sk-0123456789abcdef";
  github_token = some "";
  base_url = none;
  extra_body = none;
}

masks : mask_secret "sk-0123456789abcdef" 8 4 ≡ "sk-01234...cdef"
unfolding mask_secret char_count take_chars drop_chars
masks = refl

get_session_config-update_session_config_example :
    let seen = get_session_config marked (update_session_config marked patch empty) in
    (seen.api_key_masked ≡ mask_secret "sk-0123456789abcdef" 8 4)
    × (seen.github_token_masked ≡ (get_session_config marked empty).github_token_masked)
    × (seen.model ≡ "gpt-4o")
    × (seen.base_url ≡ "")
    × (seen.extra_body ≡ none)
get_session_config-update_session_config_example =
    get_session_config-update_session_config marked patch empty marked-FernetLaws
