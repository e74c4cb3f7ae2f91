-- ===== src/Api/Accounts/Tests.antt =====
-- A registration at a plain hash, and the login after it.
use text.Mathlib.Text.{◌==◌}
use text.Mathlib.TextPositions.{eq_refl}
use project_kernel_runtime.Base.{
  true, none, some, false, ◌≡◌, refl, [], ◌∷◌, List, String, ℕ, arith,
}
use project_kernel_runtime.Auth.{require_jwt_secret}
use project_kernel_runtime.Auth.Library.{returned, Claims}
use project_kernel_runtime.Auth.Tokens.{payload_for}
use project_kernel_runtime.Auth.Sample.{library, library-JwtLaws, config}
use project_kernel_runtime.Api.{get_current_user_dep, reply}
use project_kernel_runtime.Api.Accounts.{Accounts, Bcrypt, Fresh, RegisterRequest, TokenResponse}
use project_kernel_runtime.Api.Accounts.Routes.{register, register_all, login}
use project_kernel_runtime.Api.Accounts.Registered.{
  owner, HasUniqueEmails, login-register, register_all-HasUniqueEmails,
}

-- The hash is the password, and the salt is dropped.
abbrev plain : Bcrypt
plain = record {
  hashpw = λ password salt. password;
  checkpw = λ password hash. password == hash;
  is_alnum = λ c. true;
}

abbrev fresh : Fresh
fresh = record {
  tenant_id = "t1";
  organization_id = "o1";
  user_id = "u1";
  salt = "salt";
  slug_digits = "01234567";
}

abbrev ada : RegisterRequest
ada = record { email = "ada@example.org"; password = "pw"; name = "Ada" }

abbrev nobody : Accounts
nobody = record { tenants = []; organizations = []; users = [] }

login-register_example :
    let db' = (register library config plain 100 100 fresh ada nobody).1 in
    (r : TokenResponse (Claims × String)) × (login library config plain 200 200 "ada@example.org"
        "pw" db'
      ≡ reply r)
    × (r.tenant_id ≡ "t1")
    × (get_current_user_dep library config (λ t. false) true 300 (some r.access_token) none
        ≡ returned (payload_for library config 200 (owner plain fresh ada)))
unfolding require_jwt_secret
login-register_example =
    login-register library config plain "s3" 100 100 200 200 300 fresh ada nobody (λ t. false) true
      none library-JwtLaws (λ password salt. eq_refl password) (λ c. refl) refl refl refl
      (omega arith) (omega arith) (omega arith)

abbrev twice : List (ℕ × ℕ × Fresh × RegisterRequest)
twice = (100, 100, fresh, ada) ∷ (200, 200, fresh, ada) ∷ []

register_all-HasUniqueEmails_example :
    HasUniqueEmails (register_all library config plain twice nobody)
register_all-HasUniqueEmails_example =
    register_all-HasUniqueEmails library config plain twice nobody (λ e. omega arith)
