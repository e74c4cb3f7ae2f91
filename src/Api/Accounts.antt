-- ===== src/Api/Accounts.antt =====
-- Registration and login: src/api/rest/routers/auth.py. bcrypt is an argument.
pub mod Routes
pub mod Registered
mod Tests
use text.Mathlib.Text.{◌==◌}
use Prim.Native.String.{◌++◌ as str_append}
use Prim.Native.String
use Prim.Native.Char.{code}
use project_kernel_runtime.Base.{
  ℕ, ◌≡◌, ◌==◌ as nat_eq, Bool, true, false, Option, none, some, String, List, [], ◌∷◌, ◌++◌, keep,
  if◌then◌else◌,
}
use project_kernel_runtime.Paths.{take_chars}
use project_kernel_runtime.Auth.{JwtConfig, User, create_token_pair}
use project_kernel_runtime.Auth.Library.{
  JwtLibrary, AuthToken, Outcome, TokenPayload, returned, http_error, runtime_error, key_error,
}
use project_kernel_runtime.Api.{Reply, reply, refused, raised, find_row}

-- `hashpw(password, salt)` and `checkpw(password, hash)`, and `str.isalnum` of a character.
pub record Bcrypt : Type 0 where
  pub hashpw : String → String → String
  pub checkpw : String → String → Bool
  pub is_alnum : ℕ → Bool

-- A password passes against its own hash, whatever the salt.
abbrev pub BcryptLaw : Bcrypt → Type 0
BcryptLaw b = (password salt : String) → b.checkpw password (b.hashpw password salt) ≡ true

-- `quota_usd` is in whole dollars.
pub record TenantRow : Type 0 where
  pub id : String
  pub slug : String
  pub name : String
  pub tier : String
  pub status : String
  pub cost_cents : ℕ
  pub quota_usd : ℕ

pub record OrganizationModel : Type 0 where
  pub id : String
  pub tenant_id : String
  pub name : String
  pub slug : String
  pub is_default : Bool

pub record UserModel : Type 0 where
  pub id : String
  pub tenant_id : String
  pub organization_id : Option String
  pub email : String
  pub name : String
  pub role : String
  pub password_hash : Option String

pub record Accounts : Type 0 where
  pub tenants : List TenantRow
  pub organizations : List OrganizationModel
  pub users : List UserModel

pub record RegisterRequest : Type 0 where
  pub email : String
  pub password : String
  pub name : String

pub record TokenResponse (T : Type 0) : Type 0 where
  pub access_token : T
  pub refresh_token : T
  pub expires_in : ℕ
  pub tenant_id : String
  pub user_id : String
  pub email : String
  pub role : String

-- What a registration draws: identifiers, a salt and the digits of the slug.
pub record Fresh : Type 0 where
  pub tenant_id : String
  pub organization_id : String
  pub user_id : String
  pub salt : String
  pub slug_digits : String

-- `email.split("@")[0]`
unfoldable pub before_at : String → String
before_at String.[] = ""
before_at (String.◌∷◌ c s) =
    let rest = before_at s in if nat_eq (code c) 64 then "" else String.◌∷◌ c rest

-- The characters that a test accepts.
unfoldable pub filter_chars : (ℕ → Bool) → String → String
filter_chars p String.[] = ""
filter_chars p (String.◌∷◌ c s) =
    let rest = filter_chars p s in if p (code c) then String.◌∷◌ c rest else rest

-- `_generate_slug`
unfoldable pub generate_slug : Bcrypt → String → String → String
unfolding before_at filter_chars take_chars
generate_slug b email digits =
    str_append (take_chars 30 (filter_chars b.is_alnum (before_at email))) (str_append "_" digits)

-- `scalar_one_or_none`, which raises when there are several rows.
abbrev pub scalar_one_or_none : {A : Type 0} → List A → Reply (Option A)
scalar_one_or_none [] = reply none
scalar_one_or_none (x ∷ []) = reply (some x)
scalar_one_or_none (x ∷ y ∷ rest) = raised "MultipleResultsFound"

abbrev pub with_email : String → UserModel → Bool
with_email email u = u.email == email

abbrev pub new_tenant : Bcrypt → Fresh → RegisterRequest → TenantRow
new_tenant b f req = record {
  id = f.tenant_id;
  slug = generate_slug b req.email f.slug_digits;
  name = str_append (if req.name == "" then req.email else req.name) "'s Tenant";
  tier = "pro";
  status = "active";
  cost_cents = 0;
  quota_usd = 50;
}

abbrev pub new_organization : Fresh → OrganizationModel
new_organization f = record {
  id = f.organization_id;
  tenant_id = f.tenant_id;
  name = "Default Organization";
  slug = "default";
  is_default = true;
}

abbrev pub new_user : Bcrypt → Fresh → RegisterRequest → UserModel
new_user b f req = record {
  id = f.user_id;
  tenant_id = f.tenant_id;
  organization_id = some f.organization_id;
  email = req.email;
  name = req.name;
  role = "developer";
  password_hash = some (b.hashpw req.password f.salt);
}

abbrev pub with_registered : Bcrypt → Fresh → RegisterRequest → Accounts → Accounts
with_registered b f req db = record {
  tenants = db.tenants ++ new_tenant b f req ∷ [];
  organizations = db.organizations ++ new_organization f ∷ [];
  users = db.users ++ new_user b f req ∷ [];
}

-- The user that the tokens are made for.
abbrev pub token_user : String → String → UserModel → User
token_user tenant_id organization_id u = record {
  tenant_id = tenant_id;
  user_id = u.id;
  email = u.email;
  role = u.role;
  tier = "pro";
  organization_id = some organization_id;
  limits = none;
}

module _ {T : Type 0} where
  abbrev pub token_response : User → Outcome (AuthToken T) → Reply (TokenResponse T)
  token_response u (returned tokens) = reply (record {
    access_token = tokens.access_token;
    refresh_token = tokens.refresh_token;
    expires_in = tokens.expires_in;
    tenant_id = u.tenant_id;
    user_id = u.user_id;
    email = u.email;
    role = u.role;
  })
  token_response u (http_error status e) = refused status e
  token_response u (runtime_error e) = raised e
  token_response u (key_error e) = raised e

-- The join on the user's organization; NULL is equal to no identifier.
abbrev pub organization_of : Option String → Accounts → Option OrganizationModel
organization_of none db = none
organization_of (some id) db = find_row (λ o. o.id == id) db.organizations
