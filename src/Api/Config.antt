-- ===== src/Api/Config.antt =====
-- The model and the secrets of a session: src/api/rest/routers/session_config.py. Of the session's
-- context, the keys that these routes read or write.
mod Tests
use package.text.Mathlib.Text.{◌==◌}
use package.text.Mathlib.TextEquality.{eq_iff}
use Prim.Native.String.{◌++◌ as str_append}
use project_kernel_runtime.Base.{
  ℕ, ◌+◌, ◌-◌, ◌≡◌, refl, ltb, Bool, true, false, Option, none, some, String, Bool-cases, inl, inr,
  if◌then◌else◌,
}
use project_kernel_runtime.Base.Texts.{char_count}
use project_kernel_runtime.Values.{Value}
use project_kernel_runtime.Paths.{take_chars, drop_chars}
use project_kernel_runtime.Crypto.{Fernet, FernetLaws, encrypt_string, decrypt_string}

-- `github_access` is `context["github"]["access_token"]`.
pub record ConfigContext : Type 0 where
  pub model : Option String
  pub base_url : Option String
  pub api_key : Option String
  pub github_access : Option String
  pub github_token : Option String
  pub extra_body : Option Value

pub record SessionConfigRequest : Type 0 where
  pub model : Option String
  pub api_key : Option String
  pub github_token : Option String
  pub base_url : Option String
  pub extra_body : Option Value

pub record ConfigView : Type 0 where
  pub model : String
  pub base_url : String
  pub api_key_masked : String
  pub github_token_masked : String
  pub extra_body : Option Value

-- `ctx.update(patch)` on one key: a value that the patch lacks stays.
abbrev pub patched {ℓ} : {A : Type ℓ} → Option A → Option A → Option A
patched none old = old
patched (some new) old = some new

abbrev pub text_or_empty : Option String → String
text_or_empty none = ""
text_or_empty (some s) = s

-- `value[:head]` and `value[-tail:]`, with what stands for a short secret.
unfoldable pub mask_secret : String → ℕ → ℕ → String
unfolding char_count take_chars drop_chars
mask_secret value head tail =
    if value == ""
    then ""
    else (if ltb (head + tail) (char_count value)
        then str_append (take_chars head value)
            (str_append "..." (drop_chars (char_count value - tail) value))
        else "••••")

module _ (f : Fernet) where
  abbrev pub encrypted : Option String → Option String
  encrypted none = none
  encrypted (some s) = some (encrypt_string f s)

  -- A token that is not empty goes to `github`, an empty one stays in the patch.
  abbrev pub github_access_of : Option String → Option String → Option String
  github_access_of none old = old
  github_access_of (some s) old = if s == "" then old else some (encrypt_string f s)

  abbrev pub github_patch : Option String → Option String
  github_patch none = none
  github_patch (some s) = if s == "" then some s else none

  unfoldable pub update_session_config : SessionConfigRequest → ConfigContext → ConfigContext
  unfolding encrypt_string
  update_session_config req ctx = record {
    model = patched req.model ctx.model;
    base_url = patched req.base_url ctx.base_url;
    api_key = patched (encrypted req.api_key) ctx.api_key;
    github_access = github_access_of req.github_token ctx.github_access;
    github_token = patched (github_patch req.github_token) ctx.github_token;
    extra_body = patched req.extra_body ctx.extra_body;
  }

  -- `decrypt_string(secret) if secret else ""`
  abbrev pub revealed : Option String → String
  revealed none = ""
  revealed (some s) = if s == "" then "" else decrypt_string f s

  unfoldable pub get_session_config : ConfigContext → ConfigView
  unfolding decrypt_string mask_secret
  get_session_config ctx = record {
    model = text_or_empty ctx.model;
    base_url = text_or_empty ctx.base_url;
    api_key_masked = mask_secret (revealed ctx.api_key) 8 4;
    github_token_masked = mask_secret (revealed ctx.github_access) 4 4;
    extra_body = ctx.extra_body;
  }

  -- A text that is encrypted is revealed as it was.
  revealed_encrypted : (s : String) → FernetLaws f → revealed (some (encrypt_string f s)) ≡ s
  unfolding encrypt_string decrypt_string
  revealed_encrypted s laws = elim (Bool-cases (s == "")) [
    | inl empty ↦ rw ((eq_iff s "").0 empty) refl
    | inr given ↦ rw (given, laws.encrypt_nonempty s, laws.decrypt-encrypt s) refl
  ]

  -- What a view shows of the API key and of the GitHub token after a patch.
  abbrev pub shown_key : Option String → ConfigContext → String
  shown_key none ctx = (get_session_config ctx).api_key_masked
  shown_key (some key) ctx = mask_secret key 8 4

  abbrev pub shown_token : Option String → ConfigContext → String
  shown_token none ctx = (get_session_config ctx).github_token_masked
  shown_token (some token) ctx =
      if token == "" then (get_session_config ctx).github_token_masked else mask_secret token 4 4

  shown_key_lem :
      (key : Option String) (ctx : ConfigContext)
      → FernetLaws f
      → mask_secret (revealed (patched (encrypted key) ctx.api_key)) 8 4 ≡ shown_key key ctx
  unfolding get_session_config
  shown_key_lem none ctx laws = refl
  shown_key_lem (some key) ctx laws = rw (revealed_encrypted key laws) refl

  shown_token_lem :
      (token : Option String) (ctx : ConfigContext)
      → FernetLaws f
      → mask_secret (revealed (github_access_of token ctx.github_access)) 4 4
        ≡ shown_token token ctx
  unfolding get_session_config
  shown_token_lem none ctx laws = refl
  shown_token_lem (some token) ctx laws = elim (Bool-cases (token == "")) [
    | inl empty ↦ rw empty refl
    | inr given ↦ rw (given, revealed_encrypted token laws, given) refl
  ]

  -- After a patch, the view shows the mask of the patch's API key, and of its GitHub token unless that
  -- is empty, as they were before they were encrypted; what the patch does not bring is shown as
  -- before. An empty API key takes the old one away, an empty GitHub token leaves the old one.
  pub get_session_config-update_session_config :
      (req : SessionConfigRequest) (ctx : ConfigContext)
      → FernetLaws f
      → let seen = get_session_config (update_session_config req ctx) in
        (seen.api_key_masked ≡ shown_key req.api_key ctx)
        × (seen.github_token_masked ≡ shown_token req.github_token ctx)
        × (seen.model ≡ text_or_empty (patched req.model ctx.model))
        × (seen.base_url ≡ text_or_empty (patched req.base_url ctx.base_url))
        × (seen.extra_body ≡ patched req.extra_body ctx.extra_body)
  unfolding get_session_config update_session_config
  get_session_config-update_session_config req ctx laws = (
    shown_key_lem req.api_key ctx laws,
    shown_token_lem req.github_token ctx laws,
    refl,
    refl,
    refl,
  )
