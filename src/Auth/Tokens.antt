-- ===== src/Auth/Tokens.antt =====
-- What becomes of the tokens of src/infrastructure/auth/jwt_auth.py over time.
use project_kernel_runtime.Base.{
  ℕ, ◌+◌, ◌≤◌, ◌<◌, ◌≡◌, refl, ap, ◌∙◌, Bool, true, String, if◌then◌else◌,
}
use mathlib.Core.Path.{ap₂}
use project_kernel_runtime.Auth.{
  JwtConfig, User, access_claims, refresh_claims, access_token_seconds, refresh_token_seconds,
  limits_or, missing_field, require_jwt_secret, no_support, encoded, create_token, decoded_with,
  token_pair, decoded_payload, decode_token, create_token_pair, create_access_token,
  create_refresh_token,
}
use project_kernel_runtime.Auth.Library.{
  Claims, TokenPayload, JwtLibrary, JwtLaws, returned, http_error, runtime_error,
}

module _ {T : Type 0} (jwt : JwtLibrary T) (config : JwtConfig) where
  -- The user of a token that was issued at a time.
  abbrev pub payload_for : ℕ → User → TokenPayload
  payload_for now u = record {
    tenant_id = u.tenant_id;
    user_id = u.user_id;
    email = u.email;
    role = u.role;
    tier = u.tier;
    limits = limits_or u.limits;
    exp = now + access_token_seconds;
    iat = now;
    organization_id = u.organization_id;
  }

  decode_token-decode :
      (secret : String) (now : ℕ) (token : T)
      → config.available ≡ true
      → require_jwt_secret config ≡ returned secret
      → decode_token jwt config now token ≡ decoded_payload (jwt.decode now token secret)
  unfolding decode_token
  decode_token-decode secret now token on has =
      ap
        (λ (b : Bool).
          if b
          then decoded_with jwt config now token (require_jwt_secret config)
          else http_error 500 "JWT support is not available on this runtime")
        on
      ∙ ap (decoded_with jwt config now token) has

  create_token-encode :
      (secret : String) (c : Claims)
      → config.available ≡ true
      → require_jwt_secret config ≡ returned secret
      → create_token jwt config c ≡ returned (jwt.encode c secret)
  create_token-encode secret c on has =
      ap
        (λ (b : Bool).
          if b then encoded jwt config c (require_jwt_secret config) else runtime_error no_support)
        on
      ∙ ap (encoded jwt config c) has

  -- With the library there and a secret, a pair of tokens is made for every user. Its access token
  -- gives the user's tenant, role and limits back from the second it was made in and for 24 hours,
  -- and is refused with status 401 from then on. Its refresh token is no login: it is refused with
  -- status 401, for its missing email or because it has expired, whenever it is used.
  pub create_token_pair_lem :
      (secret : String) (made later now : ℕ) (u : User)
      → JwtLaws T jwt
      → config.available ≡ true
      → require_jwt_secret config ≡ returned secret
      → made ≤ now
      → later ≤ now
      → let access = jwt.encode (access_claims made u) secret in
        let refresh = jwt.encode (refresh_claims later u.tenant_id u.user_id) secret in
        (create_token_pair jwt config made later u
          ≡ returned (record {
            access_token = access;
            refresh_token = refresh;
            expires_in = access_token_seconds;
          }))
        × (now < made + access_token_seconds
            → decode_token jwt config now access ≡ returned (payload_for made u))
        × (made + access_token_seconds ≤ now
            → decode_token jwt config now access ≡ http_error 401 "Token has expired")
        × (now < later + refresh_token_seconds
            → decode_token jwt config now refresh ≡ missing_field "email")
        × (later + refresh_token_seconds ≤ now
            → decode_token jwt config now refresh ≡ http_error 401 "Token has expired")
  unfolding create_token_pair create_access_token create_refresh_token
  create_token_pair_lem secret made later now u laws on has past past' =
      let a = access_claims made u in
      let r = refresh_claims later u.tenant_id u.user_id in
      let decodes = λ (token : T). decode_token-decode secret now token on has in
      (
        ap₂ (token_pair jwt config) (create_token-encode secret a on has)
            (create_token-encode secret r on has),
        λ h.
            decodes (jwt.encode a secret)
            ∙ ap decoded_payload (laws.decode-encode a secret now made _ refl refl past h),
        λ h.
            decodes (jwt.encode a secret)
            ∙ ap decoded_payload (laws.decode-encode_late a secret now made _ refl refl past h),
        λ h.
            decodes (jwt.encode r secret)
            ∙ ap decoded_payload (laws.decode-encode r secret now later _ refl refl past' h),
        λ h.
            decodes (jwt.encode r secret)
            ∙ ap decoded_payload (laws.decode-encode_late r secret now later _ refl refl past' h),
      )
