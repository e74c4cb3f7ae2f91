-- ===== src/Auth/Tests.antt =====
-- Tokens of one user.
use project_kernel_runtime.Base.{◌≤◌, ◌<◌, ◌≡◌, refl, arith}
use project_kernel_runtime.Auth.{
  access_claims, refresh_claims, missing_field, require_jwt_secret, decode_token, create_token_pair,
}
use project_kernel_runtime.Auth.Library.{returned, http_error}
use project_kernel_runtime.Auth.Tokens.{payload_for, create_token_pair_lem}
use project_kernel_runtime.Auth.Sample.{library, library-JwtLaws, config, user}

create_token_pair_lem_example :
    let access = library.encode (access_claims 100 user) "s3" in
    let refresh = library.encode (refresh_claims 101 "acme" "u1") "s3" in
    (create_token_pair library config 100 101 user
      ≡ returned (record { access_token = access; refresh_token = refresh; expires_in = 86400 }))
    × (500 < 86500
        → decode_token library config 500 access ≡ returned (payload_for library config 100 user))
    × (86500 ≤ 500 → decode_token library config 500 access ≡ http_error 401 "Token has expired")
    × (500 < 2592101 → decode_token library config 500 refresh ≡ missing_field "email")
    × (2592101 ≤ 500 → decode_token library config 500 refresh ≡ http_error 401 "Token has expired")
unfolding require_jwt_secret
create_token_pair_lem_example =
    create_token_pair_lem library config "s3" 100 101 500 user library-JwtLaws refl refl
      (omega arith) (omega arith)
