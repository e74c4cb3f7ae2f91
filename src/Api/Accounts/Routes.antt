-- ===== src/Api/Accounts/Routes.antt =====
-- The routes of src/api/rest/routers/auth.py.
use text.Mathlib.Text.{◌==◌}
use project_kernel_runtime.Base.{
  ℕ, ◌==◌ as nat_eq, Option, none, some, String, List, [], ◌∷◌, keep, if◌then◌else◌,
}
use project_kernel_runtime.Auth.{JwtConfig, User, create_token_pair}
use project_kernel_runtime.Auth.Library.{JwtLibrary, TokenPayload}
use project_kernel_runtime.Api.{Reply, reply, refused, raised, find_row}
use project_kernel_runtime.Api.Accounts.{
  token_response, Bcrypt, TenantRow, OrganizationModel, UserModel, Accounts, RegisterRequest,
  TokenResponse, Fresh, generate_slug, scalar_one_or_none, with_email, new_user, with_registered,
  token_user, organization_of,
}

module _ {T : Type 0} (jwt : JwtLibrary T) (config : JwtConfig) (b : Bcrypt) where
  -- The clock is read once for each token of a pair.
  abbrev pub tokens_for : ℕ → ℕ → User → Reply (TokenResponse T)
  tokens_for now later u = token_response u (create_token_pair jwt config now later u)

  -- The rows are committed before the tokens are made.
  abbrev pub register_unless :
      ℕ
      → ℕ
      → Fresh
      → RegisterRequest
      → Accounts
      → Reply (Option UserModel)
      → Reply (TokenResponse T) × Accounts
  register_unless now later f req db (reply none) = (
    tokens_for now later (token_user f.tenant_id f.organization_id (new_user b f req)),
    with_registered b f req db,
  )
  register_unless now later f req db (reply (some u)) =
      (refused 400 "User with this email already exists", db)
  register_unless now later f req db (refused status e) = (refused status e, db)
  register_unless now later f req db (raised e) = (raised e, db)

  unfoldable pub register :
      ℕ → ℕ → Fresh → RegisterRequest → Accounts → Reply (TokenResponse T) × Accounts
  unfolding generate_slug create_token_pair
  register now later f req db =
      register_unless now later f req db (scalar_one_or_none (keep (with_email req.email) db.users))

  abbrev pub in_organization :
      ℕ → ℕ → UserModel → Option TenantRow → Option OrganizationModel → Reply (TokenResponse T)
  in_organization now later u (some tenant) (some org) =
      tokens_for now later (token_user tenant.id org.id u)
  in_organization now later u (some tenant) none = refused 500 "Tenant or organization not found"
  in_organization now later u none org = refused 500 "Tenant or organization not found"

  abbrev pub login_with :
      ℕ → ℕ → String → Accounts → UserModel → Option String → Reply (TokenResponse T)
  login_with now later password db u none =
      raised "AttributeError: 'NoneType' object has no attribute 'encode'"
  login_with now later password db u (some hash) =
      if b.checkpw password hash
      then in_organization now later u (find_row (λ t. t.id == u.tenant_id) db.tenants)
          (organization_of u.organization_id db)
      else refused 401 "Invalid email or password"

  abbrev pub login_as :
      ℕ → ℕ → String → Accounts → Reply (Option UserModel) → Reply (TokenResponse T)
  login_as now later password db (reply none) = refused 401 "Invalid email or password"
  login_as now later password db (reply (some u)) =
      login_with now later password db u u.password_hash
  login_as now later password db (refused status e) = refused status e
  login_as now later password db (raised e) = raised e

  unfoldable pub login : ℕ → ℕ → String → String → Accounts → Reply (TokenResponse T)
  unfolding create_token_pair find_row
  login now later email password db =
      login_as now later password db (scalar_one_or_none (keep (with_email email) db.users))

-- Registrations one after another, each with its clock and its draw.
unfoldable pub register_all :
    {T : Type 0}
    → JwtLibrary T
    → JwtConfig
    → Bcrypt
    → List (ℕ × ℕ × Fresh × RegisterRequest)
    → Accounts
    → Accounts
unfolding register
register_all jwt config b [] db = db
register_all jwt config b ((now, later, f, req) ∷ rest) db =
    register_all jwt config b rest (register jwt config b now later f req db).1

-- The answer of `/me`.
pub record Me : Type 0 where
  pub id : String
  pub email : String
  pub name : String
  pub role : String
  pub tenant_id : String
  pub tenant_name : String
  pub cost_cents : ℕ
  pub quota_usd : ℕ

abbrev pub me_of : TokenPayload → Option TenantRow → Option UserModel → Me
me_of payload tenant user = record {
  id = payload.user_id;
  email = or_of (λ (u : UserModel). u.email) payload.email user;
  name = or_of (λ (u : UserModel). u.name) "Local Admin" user;
  role = payload.role;
  tenant_id = payload.tenant_id;
  tenant_name = or_of (λ (t : TenantRow). t.name) "Local Sandbox" tenant;
  cost_cents = or_of (λ (t : TenantRow). t.cost_cents) 0 tenant;
  quota_usd = or_of (λ (t : TenantRow). if nat_eq t.quota_usd 0 then 50 else t.quota_usd) 50 tenant;
}
  where
    or_of : {A B : Type 0} → (A → B) → B → Option A → B
    or_of f b none = b
    or_of f b (some a) = f a

unfoldable pub get_current_user_info : TokenPayload → Accounts → Me
unfolding find_row
get_current_user_info payload db =
    me_of payload (find_row (λ t. t.id == payload.tenant_id) db.tenants)
      (find_row (λ u. u.id == payload.user_id) db.users)
