-- ===== src/Auth/Library.antt =====
-- Tokens, their claims, and the JWT library that src/infrastructure/auth/jwt_auth.py uses.
use project_kernel_runtime.Base.{ℕ, ◌≤◌, ◌<◌, ◌≡◌, Option, some, String}
use project_kernel_runtime.Values.{Kwargs}

-- The claims of a token; a key that is missing, or whose value is None, is `none`.
pub record Claims : Type 0 where
  pub tenant_id : Option String
  pub organization_id : Option String
  pub user_id : Option String
  pub email : Option String
  pub role : Option String
  pub tier : Option String
  pub limits : Option Kwargs
  pub iat : Option ℕ
  pub exp : Option ℕ
  pub token_type : Option String

pub record TokenPayload : Type 0 where
  pub tenant_id : String
  pub user_id : String
  pub email : String
  pub role : String
  pub tier : String
  pub limits : Kwargs
  pub exp : ℕ
  pub iat : ℕ
  pub organization_id : Option String

pub record AuthToken (T : Type 0) : Type 0 where
  pub access_token : T
  pub refresh_token : T
  pub expires_in : ℕ

-- What `jwt.decode` gives or raises.
pub data Decoded : Type 0 where
  claims : Claims → Decoded
  expired : Decoded
  invalid : String → Decoded

pub record JwtLibrary (T : Type 0) : Type 0 where
  pub encode : Claims → String → T
  pub decode : ℕ → T → String → Decoded

-- A token decodes to its claims with the secret that it was made with, from the time at which it was
-- issued and until it expires, and from then on is expired.
pub record JwtLaws (T : Type 0) (jwt : JwtLibrary T) : Type 0 where
  pub decode-encode :
      (c : Claims) (secret : String) (now issued expires : ℕ)
      → c.iat ≡ some issued
      → c.exp ≡ some expires
      → issued ≤ now
      → now < expires
      → jwt.decode now (jwt.encode c secret) secret ≡ claims c
  pub decode-encode_late :
      (c : Claims) (secret : String) (now issued expires : ℕ)
      → c.iat ≡ some issued
      → c.exp ≡ some expires
      → issued ≤ now
      → expires ≤ now
      → jwt.decode now (jwt.encode c secret) secret ≡ expired

-- What a function returns or raises; an HTTPException has a status and a text.
pub data Outcome (A : Type 0) : Type 0 where
  returned : A → Outcome A
  http_error : ℕ → String → Outcome A
  runtime_error : String → Outcome A
  key_error : String → Outcome A
