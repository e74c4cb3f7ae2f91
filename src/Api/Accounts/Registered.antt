-- ===== src/Api/Accounts/Registered.antt =====
-- What a registration is worth: the login that follows, and the emails that are taken.
use text.Mathlib.Text.{◌==◌}
use text.Mathlib.TextEquality.{eq_iff}
use text.Mathlib.TextPositions.{eq_refl}
use project_kernel_runtime.Base.{
  Option, false, ℕ, ◌+◌, ◌≤◌, ◌<◌, ◌≡◌, refl, sym, ap, ◌∙◌, Bool, true, some, String, List, [], ◌∷◌,
  ◌++◌, keep, keep-append, length, append-nil, arith, Bool-cases, inl, inr,
}
use project_kernel_runtime.Auth.{
  access_claims, JwtConfig, User, access_token_seconds, require_jwt_secret, decode_token,
}
use project_kernel_runtime.Auth.Library.{Claims, JwtLibrary, JwtLaws, returned}
use project_kernel_runtime.Auth.Tokens.{payload_for, create_token_pair_lem}
use project_kernel_runtime.Api.{get_current_user_dep, Reply, reply, find_row}
use project_kernel_runtime.Api.Accounts.{
  Bcrypt, BcryptLaw, UserModel, Accounts, RegisterRequest, TokenResponse, Fresh, scalar_one_or_none,
  with_email, new_tenant, new_organization, new_user, with_registered, token_user, token_response,
  organization_of,
}
use project_kernel_runtime.Api.Accounts.Routes.{
  tokens_for, register_unless, register, in_organization, login_as, login, register_all,
}

-- A search that accepts the last row finds one.
found_last :
    {A : Type 0} (p : A → Bool) (xs : List A) (x : A)
    → p x ≡ true
    → (y : A) × (find_row p (xs ++ x ∷ []) ≡ some y) × (p y ≡ true)
unfolding find_row
found_last p [] x h = (x, rw h refl, h)
found_last p (y ∷ ys) x h = elim (Bool-cases (p y)) [
  | inl here ↦ (y, rw here refl, here)
  | inr later ↦ let (z, e, h') = found_last p ys x h in (z, rw (later, e) refl, h')
]

-- No user has the email.
abbrev pub IsUnused : String → Accounts → Type 0
IsUnused email db = keep (with_email email) db.users ≡ []

-- The user of a registration, as the tokens name it.
abbrev pub owner : Bcrypt → Fresh → RegisterRequest → User
owner b f req = token_user f.tenant_id f.organization_id (new_user b f req)

abbrev by_email : Bcrypt → Fresh → RegisterRequest → Accounts → List UserModel
by_email b f req db = keep (with_email req.email) (with_registered b f req db).users

by_email_eq :
    (b : Bcrypt) (f : Fresh) (req : RegisterRequest) (db : Accounts)
    → IsUnused req.email db
    → by_email b f req db ≡ new_user b f req ∷ []
by_email_eq b f req db h =
    rw (keep-append (with_email req.email) db.users (new_user b f req ∷ []), h, eq_refl req.email)
      refl

module _ {T : Type 0} (jwt : JwtLibrary T) (config : JwtConfig) (b : Bcrypt) where
  in_organization_lem :
      (now later : ℕ) (f : Fresh) (req : RegisterRequest) (db : Accounts)
      → let u = new_user b f req in
        let db' = with_registered b f req db in
        in_organization jwt config b now later u
          (find_row (λ t. t.id == u.tenant_id) db'.tenants)
          (organization_of u.organization_id db')
        ≡ tokens_for jwt config b now later (owner b f req)
  in_organization_lem now later f req db =
      let (t, et, ht) =
        found_last (λ t. t.id == f.tenant_id) db.tenants (new_tenant b f req)
          (eq_refl f.tenant_id) in
      let (o, eo, ho) =
        found_last (λ o. o.id == f.organization_id) db.organizations (new_organization f)
          (eq_refl f.organization_id) in
      rw (et, eo, (eq_iff t.id f.tenant_id).0 ht, (eq_iff o.id f.organization_id).0 ho) refl

  register_eq :
      (now later : ℕ) (f : Fresh) (req : RegisterRequest) (db : Accounts)
      → IsUnused req.email db
      → register jwt config b now later f req db
        ≡ (tokens_for jwt config b now later (owner b f req), with_registered b f req db)
  unfolding register
  register_eq now later f req db h = rw h refl

  login_eq :
      (now later : ℕ) (f : Fresh) (req : RegisterRequest) (db : Accounts)
      → BcryptLaw b
      → IsUnused req.email db
      → login jwt config b now later req.email req.password (with_registered b f req db)
        ≡ tokens_for jwt config b now later (owner b f req)
  unfolding login
  login_eq now later f req db law h =
      ap
        (λ us.
          login_as jwt config b now later req.password (with_registered b f req db)
            (scalar_one_or_none us))
        (by_email_eq b f req db h)
      ∙ rw (law req.password f.salt) (in_organization_lem now later f req db)

  -- The user of a request is the one that the token in its header decodes to, whatever its query has.
  user_with_token :
      (is_empty : T → Bool) (anonymous : Bool) (at : ℕ) (token : T) (query : Option T)
      → is_empty token ≡ false
      → get_current_user_dep jwt config is_empty anonymous at (some token) query
        ≡ decode_token jwt config at token
  unfolding get_current_user_dep
  user_with_token is_empty anonymous at token query shown = rw shown refl

  -- Whoever registers with an unused email can log in with the email and the password at any later
  -- time, and for 24 hours every request with the token of that login in its header, whatever token
  -- its query has, is one of the new user, of its tenant and its organization, with the role of a
  -- developer; the secret is configured, PyJWT is there and makes no empty tokens.
  pub login-register :
      (secret : String) (now later now' later' at : ℕ) (f : Fresh) (req : RegisterRequest)
      (db : Accounts) (is_empty : T → Bool) (anonymous : Bool) (query : Option T)
      → JwtLaws T jwt
      → BcryptLaw b
      → ((c : Claims) → is_empty (jwt.encode c secret) ≡ false)
      → config.available ≡ true
      → require_jwt_secret config ≡ returned secret
      → IsUnused req.email db
      → now' ≤ at
      → later' ≤ at
      → at < now' + access_token_seconds
      → let db' = (register jwt config b now later f req db).1 in
        (r : TokenResponse T) × (login jwt config b now' later' req.email req.password db'
          ≡ reply r)
        × (r.tenant_id ≡ f.tenant_id)
        × (get_current_user_dep jwt config is_empty anonymous at (some r.access_token) query
            ≡ returned (payload_for jwt config now' (owner b f req)))
  login-register secret now later now' later' at f req db is_empty anonymous query laws law shown on
        has unused past past' before =
      let u = owner b f req in
      let pair = create_token_pair_lem jwt config secret now' later' at u laws on has past past' in
      (
        _,
        ap
              (λ (p : Reply (TokenResponse T) × Accounts).
                login jwt config b now' later' req.email req.password p.1)
              (register_eq now later f req db unused)
            ∙ login_eq now' later' f req db law unused
            ∙ ap (token_response u) pair.0,
        refl,
        user_with_token is_empty anonymous at (jwt.encode (access_claims now' u) secret) query
              (shown (access_claims now' u))
            ∙ pair.1 before,
      )

-- At most one user has an email.
abbrev pub HasUniqueEmails : Accounts → Type 0
HasUniqueEmails db = (e : String) → length (keep (with_email e) db.users) ≤ 1

with_registered-HasUniqueEmails :
    (b : Bcrypt) (f : Fresh) (req : RegisterRequest) (db : Accounts)
    → IsUnused req.email db
    → HasUniqueEmails db
    → HasUniqueEmails (with_registered b f req db)
with_registered-HasUniqueEmails b f req db unused unique e =
    rw (keep-append (with_email e) db.users (new_user b f req ∷ []))
      (elim (Bool-cases (req.email == e)) [
        | inl same ↦
            rw
              (
                same,
                ap (λ e'. keep (with_email e') db.users) (sym ((eq_iff req.email e).0 same)),
                unused,
              )
              (omega arith)
        | inr other ↦ rw (other, append-nil (keep (with_email e) db.users)) (unique e)
      ])

module _ {T : Type 0} (jwt : JwtLibrary T) (config : JwtConfig) (b : Bcrypt) where
  register_unless-HasUniqueEmails :
      (now later : ℕ) (f : Fresh) (req : RegisterRequest) (db : Accounts) (us : List UserModel)
      → keep (with_email req.email) db.users ≡ us
      → HasUniqueEmails db
      → HasUniqueEmails (register_unless jwt config b now later f req db (scalar_one_or_none us)).1
  register_unless-HasUniqueEmails now later f req db [] e unique =
      with_registered-HasUniqueEmails b f req db e unique
  register_unless-HasUniqueEmails now later f req db (u ∷ []) e unique = unique
  register_unless-HasUniqueEmails now later f req db (u ∷ v ∷ us) e unique = unique

  register-HasUniqueEmails :
      (now later : ℕ) (f : Fresh) (req : RegisterRequest) (db : Accounts)
      → HasUniqueEmails db
      → HasUniqueEmails (register jwt config b now later f req db).1
  unfolding register
  register-HasUniqueEmails now later f req db unique =
      register_unless-HasUniqueEmails now later f req db _ refl unique

  -- However many registrations are made, one after another, no two users have one email, so that the
  -- search of a login by its email never finds several users.
  pub register_all-HasUniqueEmails :
      (rs : List (ℕ × ℕ × Fresh × RegisterRequest)) (db : Accounts)
      → HasUniqueEmails db
      → HasUniqueEmails (register_all jwt config b rs db)
  unfolding register_all
  register_all-HasUniqueEmails [] db unique = unique
  register_all-HasUniqueEmails ((now, later, f, req) ∷ rs) db unique =
      register_all-HasUniqueEmails rs (register jwt config b now later f req db).1
        (register-HasUniqueEmails now later f req db unique)
