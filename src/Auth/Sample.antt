-- ===== src/Auth/Sample.antt =====
-- A JWT library whose tokens are their claims and secret, and a user.
use text.Mathlib.Text.{◌==◌}
use project_kernel_runtime.Base.{
  ℕ, refl, true, Option, none, some, String, if◌then◌else◌, ltb, leb, le→ltb_false, lt→leb_false,
  le→leb,
}
use text.Mathlib.TextPositions.{eq_refl}
use project_kernel_runtime.Auth.{JwtConfig, User}
use project_kernel_runtime.Auth.Library.{
  Claims, JwtLibrary, JwtLaws, Decoded, claims, expired, invalid,
}

-- PyJWT's test of `exp` and `iat`.
abbrev in_time : ℕ → Option ℕ → Option ℕ → Claims → Decoded
in_time now none exp c = claims c
in_time now (some iat) none c = claims c
in_time now (some iat) (some exp) c =
    if ltb now iat
    then invalid "The token is not yet valid (iat)"
    else (if leb exp now then expired else claims c)

abbrev pub library : JwtLibrary (Claims × String)
library = record {
  encode = λ c secret. (c, secret);
  decode = λ now token secret.
      if token.1 == secret
      then in_time now token.0.iat token.0.exp token.0
      else invalid "Signature verification failed";
}

pub library-JwtLaws : JwtLaws (Claims × String) library
library-JwtLaws = record {
  decode-encode = λ c secret now issued expires i e past before.
      rw (eq_refl secret, i, e, le→ltb_false now issued past, lt→leb_false expires now before) refl;
  decode-encode_late = λ c secret now issued expires i e past late.
      rw (eq_refl secret, i, e, le→ltb_false now issued past, le→leb expires now late) refl;
}

abbrev pub config : JwtConfig
config = record { available = true; jwt_secret = "s3"; local_secret = "" }

abbrev pub user : User
user = record {
  tenant_id = "acme";
  user_id = "u1";
  email = "u1@acme.example";
  role = "developer";
  tier = "pro";
  organization_id = none;
  limits = none;
}
