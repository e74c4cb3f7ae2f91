-- ===== src/Auth.antt =====
-- Tokens of users: src/infrastructure/auth/jwt_auth.py. The JWT library is an argument, on a type `T`
-- of tokens; what the code relies on is in `JwtLaws`. Clocks are in whole seconds.
pub mod Library
pub mod Tokens
pub mod Sample
mod Tests
use text.Mathlib.Text.{◌==◌}
use Prim.Native.String.{◌++◌ as str_append}
use project_kernel_runtime.Base.{
  ℕ, ◌+◌, ◌*◌, ◌≤◌, ◌<◌, ◌≡◌, Bool, true, false, Option, none, some, String, List, [], ◌∷◌,
  if◌then◌else◌,
}
use project_kernel_runtime.Values.{Kwargs}
use project_kernel_runtime.Auth.Library.{
  AuthToken, Claims, Decoded, JwtLaws, JwtLibrary, Outcome, TokenPayload, claims, expired,
  http_error, invalid, key_error, returned, runtime_error,
}

-- Whether PyJWT is there, `JWT_SECRET`, and `_LOCAL_JWT_SECRET`.
pub record JwtConfig : Type 0 where
  pub available : Bool
  pub jwt_secret : String
  pub local_secret : String

abbrev pub access_token_seconds : ℕ
access_token_seconds = 60 * 24 * 60

abbrev pub refresh_token_seconds : ℕ
refresh_token_seconds = 30 * 86400

-- `_require_jwt_secret`
unfoldable pub require_jwt_secret : JwtConfig → Outcome String
require_jwt_secret c =
    let secret = if c.jwt_secret == "" then c.local_secret else c.jwt_secret in
    if secret == "" then runtime_error "JWT secret is not configured" else returned secret

abbrev pub no_support : String
no_support = "JWT support not available. Install PyJWT: pip install PyJWT"

-- Who a token is for.
pub record User : Type 0 where
  pub tenant_id : String
  pub user_id : String
  pub email : String
  pub role : String
  pub tier : String
  pub organization_id : Option String
  pub limits : Option Kwargs

abbrev pub limits_or : Option Kwargs → Kwargs
limits_or none = []
limits_or (some limits) = limits

abbrev pub access_claims : ℕ → User → Claims
access_claims now u = record {
  tenant_id = some u.tenant_id;
  organization_id = u.organization_id;
  user_id = some u.user_id;
  email = some u.email;
  role = some u.role;
  tier = some u.tier;
  limits = some (limits_or u.limits);
  iat = some now;
  exp = some (now + access_token_seconds);
  token_type = some "access";
}

abbrev pub refresh_claims : ℕ → String → String → Claims
refresh_claims now tenant user = record {
  tenant_id = some tenant;
  organization_id = none;
  user_id = some user;
  email = none;
  role = none;
  tier = none;
  limits = none;
  iat = some now;
  exp = some (now + refresh_token_seconds);
  token_type = some "refresh";
}

abbrev pub missing_field : {A : Type 0} → String → Outcome A
missing_field field = http_error 401 (str_append "Missing required field: " field)

abbrev pub value_or : {A : Type 0} → A → Option A → A
value_or a none = a
value_or a (some b) = b

-- The fields that are required, in their order, and then `exp` and `iat`, whose lack is a KeyError.
abbrev pub payload_of :
    Option String
    → Option String
    → Option String
    → Option String
    → Option ℕ
    → Option ℕ
    → Claims
    → Outcome TokenPayload
payload_of none user email role exp iat c = missing_field "tenant_id"
payload_of (some tenant) none email role exp iat c = missing_field "user_id"
payload_of (some tenant) (some user) none role exp iat c = missing_field "email"
payload_of (some tenant) (some user) (some email) none exp iat c = missing_field "role"
payload_of (some tenant) (some user) (some email) (some role) none iat c = key_error "exp"
payload_of (some tenant) (some user) (some email) (some role) (some exp) none c = key_error "iat"
payload_of (some tenant) (some user) (some email) (some role) (some exp) (some iat) c =
    returned (record {
      tenant_id = tenant;
      user_id = user;
      email = email;
      role = role;
      tier = value_or "pro" c.tier;
      limits = limits_or c.limits;
      exp = exp;
      iat = iat;
      organization_id = c.organization_id;
    })

abbrev pub decoded_payload : Decoded → Outcome TokenPayload
decoded_payload (claims c) = payload_of c.tenant_id c.user_id c.email c.role c.exp c.iat c
decoded_payload expired = http_error 401 "Token has expired"
decoded_payload (invalid e) = http_error 401 (str_append "Invalid token: " e)

module _ {T : Type 0} (jwt : JwtLibrary T) (config : JwtConfig) where
  abbrev pub encoded : Claims → Outcome String → Outcome T
  encoded c (returned secret) = returned (jwt.encode c secret)
  encoded c (http_error status e) = http_error status e
  encoded c (runtime_error e) = runtime_error e
  encoded c (key_error e) = key_error e

  abbrev pub create_token : Claims → Outcome T
  create_token c =
      if config.available then encoded c (require_jwt_secret config) else runtime_error no_support

  unfoldable pub create_access_token : ℕ → User → Outcome T
  unfolding require_jwt_secret
  create_access_token now u = create_token (access_claims now u)

  unfoldable pub create_refresh_token : ℕ → String → String → Outcome T
  unfolding require_jwt_secret
  create_refresh_token now tenant user = create_token (refresh_claims now tenant user)

  abbrev pub decoded_with : ℕ → T → Outcome String → Outcome TokenPayload
  decoded_with now token (returned secret) = decoded_payload (jwt.decode now token secret)
  decoded_with now token (http_error status e) = http_error status e
  decoded_with now token (runtime_error e) = runtime_error e
  decoded_with now token (key_error e) = key_error e

  unfoldable pub decode_token : ℕ → T → Outcome TokenPayload
  unfolding require_jwt_secret
  decode_token now token =
      if config.available
      then decoded_with now token (require_jwt_secret config)
      else http_error 500 "JWT support is not available on this runtime"

  abbrev pub token_pair : Outcome T → Outcome T → Outcome (AuthToken T)
  token_pair (returned access) (returned refresh) =
      returned (record {
        access_token = access;
        refresh_token = refresh;
        expires_in = access_token_seconds;
      })
  token_pair (returned access) (http_error status e) = http_error status e
  token_pair (returned access) (runtime_error e) = runtime_error e
  token_pair (returned access) (key_error e) = key_error e
  token_pair (http_error status e) refresh = http_error status e
  token_pair (runtime_error e) refresh = runtime_error e
  token_pair (key_error e) refresh = key_error e

  -- The clock is read once for each token.
  unfoldable pub create_token_pair : ℕ → ℕ → User → Outcome (AuthToken T)
  unfolding create_access_token create_refresh_token
  create_token_pair now later u =
      token_pair (create_access_token now u) (create_refresh_token later u.tenant_id u.user_id)

  -- An HTTPException is swallowed, other errors go on.
  abbrev pub optional : Outcome TokenPayload → Outcome (Option TokenPayload)
  optional (returned p) = returned (some p)
  optional (http_error status e) = returned none
  optional (runtime_error e) = runtime_error e
  optional (key_error e) = key_error e

  unfoldable pub get_optional_user : ℕ → Option T → Outcome (Option TokenPayload)
  unfolding decode_token
  get_optional_user now none = returned none
  get_optional_user now (some token) = optional (decode_token now token)

  -- `TenantAuthMiddleware`: the tenant's context that it sets before it calls the application, for an
  -- HTTP request with a bearer token, and for others.
  unfoldable pub tenant_context : ℕ → Bool → Option T → Outcome (Option TokenPayload)
  unfolding get_optional_user
  tenant_context now is_http token = if is_http then get_optional_user now token else returned none
