-- ===== src/Api/Sessions.antt =====
-- The life of a session: src/api/rest/routers/sessions.py.
use text.Mathlib.Text.{◌==◌}
use project_kernel_runtime.Base.{
  ℕ, leb, Bool, true, false, ◌&&◌, Option, none, String, List, [], ◌∷◌, ◌++◌, map, keep,
  if◌then◌else◌,
}
use project_kernel_runtime.Auth.Library.{TokenPayload}
use project_kernel_runtime.Paths.{take_chars}
use project_kernel_runtime.Store.{ℤ, pos, negsuc}
use project_kernel_runtime.Api.{
  WorkspaceType, WorkspaceModel, SessionRow, Tables, Draw, Environment, Reply, reply, change_row,
  is_session, get_session_or_404, and_then,
}
use project_kernel_runtime.Api.Workspaces.{WorkspaceBinding, prepare_workspaces, bind_workspaces}

pub record WorkspaceDict : Type 0 where
  pub type : WorkspaceType
  pub slug : String
  pub name : String
  pub path : Option String
  pub url : Option String
  pub branch : String

pub record SessionDict : Type 0 where
  pub id : String
  pub name : String
  pub tenant_id : String
  pub user_id : String
  pub mode : String
  pub user_role : String
  pub workspaces : List WorkspaceDict
  pub is_active : Bool
  pub created_at : ℕ
  pub last_active_at : ℕ

abbrev pub workspace_to_dict : WorkspaceModel → WorkspaceDict
workspace_to_dict ws = record {
  type = ws.type;
  slug = ws.slug;
  name = ws.name;
  path = ws.path;
  url = ws.url;
  branch = ws.branch;
}

abbrev pub session_to_dict : SessionRow → SessionDict
session_to_dict s = record {
  id = s.id;
  name = s.name;
  tenant_id = s.tenant_id;
  user_id = s.user_id;
  mode = s.mode;
  user_role = s.user_role;
  workspaces = map workspace_to_dict s.workspaces;
  is_active = s.is_active;
  created_at = s.created_at;
  last_active_at = s.last_active_at;
}

pub record SessionCreateRequest : Type 0 where
  pub name : String
  pub workspaces : List WorkspaceBinding
  pub mode : String

-- A new row of the table `sessions`, with the defaults of its columns.
abbrev pub new_session :
    Draw → TokenPayload → String → String → String → List WorkspaceModel → SessionRow
new_session d user name role mode workspaces = record {
  id = d.session_id;
  tenant_id = user.tenant_id;
  organization_id = user.organization_id;
  user_id = user.user_id;
  name = name;
  user_role = role;
  mode = mode;
  workspaces = workspaces;
  github_token = none;
  is_active = true;
  created_at = d.now;
  last_active_at = d.now;
}

-- `order_by(last_active_at.desc())` and `order_by(sequence.asc())`; equals keep their order.
unfoldable pub insert_by : {A : Type 0} → (A → A → Bool) → A → List A → List A
insert_by before x [] = x ∷ []
insert_by before x (y ∷ ys) =
    let rest = insert_by before x ys in if before x y then x ∷ y ∷ ys else y ∷ rest

unfoldable pub order_by : {A : Type 0} → (A → A → Bool) → List A → List A
unfolding insert_by
order_by before [] = []
order_by before (x ∷ xs) = insert_by before x (order_by before xs)

abbrev pub le_ℤ : ℤ → ℤ → Bool
le_ℤ (pos m) (pos n) = leb m n
le_ℤ (pos m) (negsuc n) = false
le_ℤ (negsuc m) (pos n) = true
le_ℤ (negsuc m) (negsuc n) = leb n m

-- `WHERE tenant_id = … AND is_active`
abbrev pub is_listed : String → SessionRow → Bool
is_listed tenant_id s = s.tenant_id == tenant_id && s.is_active

unfoldable pub list_sessions : TokenPayload → Tables → List SessionDict
unfolding order_by
list_sessions user db = map session_to_dict (
    order_by (λ s s'. leb s'.last_active_at s.last_active_at)
      (keep (is_listed user.tenant_id) db.sessions))

-- A route's change of the session it has found.
abbrev pub change_session : String → String → (SessionRow → SessionRow) → Tables → Tables
change_session session_id tenant_id f db = record db {
  sessions = change_row (is_session session_id tenant_id) f db.sessions;
}

unfoldable pub get_session : TokenPayload → String → Tables → Reply SessionDict × Tables
unfolding get_session_or_404
get_session user session_id db =
    and_then db (get_session_or_404 session_id user.tenant_id db)
      (λ s. (reply (session_to_dict s), db))

unfoldable pub end_session : TokenPayload → String → Tables → Reply String × Tables
unfolding get_session_or_404 change_row
end_session user session_id db = and_then db (get_session_or_404 session_id user.tenant_id db) (λ s.
    (
      reply session_id,
      change_session session_id user.tenant_id (λ s. record s { is_active = false }) db,
    ))

module _ (env : Environment) where
  -- `req.name.strip()[:128]`
  abbrev pub trimmed : String → String
  trimmed name = take_chars 128 (env.strip name)

  unfoldable pub create_session :
      Draw → TokenPayload → SessionCreateRequest → Tables → Reply SessionDict × Tables
  unfolding prepare_workspaces bind_workspaces take_chars
  create_session d user req db =
      let rows = prepare_workspaces env req.workspaces user.tenant_id d.slug_digits in
      let (bound, workspaces') =
        bind_workspaces user.tenant_id d.workspace_id 0 rows db.workspaces in
      let s = new_session d user (trimmed req.name) user.role req.mode bound in
      (
        reply (session_to_dict s),
        record db { sessions = db.sessions ++ s ∷ []; workspaces = workspaces' },
      )

  unfoldable pub rename_session :
      Draw → TokenPayload → String → String → Tables → Reply (String × String) × Tables
  unfolding get_session_or_404 change_row take_chars
  rename_session d user session_id name db =
      and_then db (get_session_or_404 session_id user.tenant_id db) (λ s. (
        reply (session_id, trimmed name),
        change_session session_id user.tenant_id
            (λ s. record s { name = trimmed name; last_active_at = d.now }) db,
      ))
